-- ===== src/Hack/Scan.antt =====
-- internal/hack/hack.go: `discoverPatternSpans`, the bracket spans of the rendered rows.
pub mod Spec
pub mod Board
use mathlib.Core.Option
use fallout_terminal.Common.{
  ℕ, zero, suc, ◌+◌, ◌-◌, ◌*◌, ◌/◌, Bool, ◌&&◌, ◌||◌, Option, none, some, List, [], ◌∷◌, ◌++◌, map,
  Bytes, leb, ◌==◌, if◌then◌else◌, length, take, drop, any, index_byte,
}
use fallout_terminal.Domain.Hack.{HackColumn, HackPattern}

abbrev pub board_row_width : ℕ
board_row_width = 12

-- The map `closers`.
unfoldable pub closer_of : ℕ → Option ℕ
closer_of c =
    if c == b'('
    then some b')'
    else if c == b'['
    then some b']'
    else if c == b'{'
    then some b'}'
    else if c == b'<'
    then some b'>'
    else none

unfoldable pub is_ascii_alpha : ℕ → Bool
is_ascii_alpha c = leb b'A' c && leb c b'Z' || leb b'a' c && leb c b'z'

-- The end of the span that opens with `c`, counted from the byte behind it: the first matching
-- closer in the rest of the row, if no letter stands before it.
unfoldable pub span_after : ℕ → Bytes → Option ℕ
unfolding closer_of is_ascii_alpha index_byte
span_after c rest = elim (closer_of c) [
  | none ↦ none
  | some closer ↦ elim (index_byte rest closer) [
    | none ↦ none
    | some offset ↦ if any is_ascii_alpha (take offset rest) then none else some offset
  ]
]

-- A span of one row: its first and last offset.
pub record Span : Type 0 where
  pub start : ℕ
  pub end : ℕ
  pub pair : Bytes

abbrev pair_of : ℕ → Bytes
pair_of c = elim (closer_of c) [ none ↦ [] | some closer ↦ c ∷ closer ∷ [] ]

-- The spans of the rest of a row, whose first byte stands at `start`.
unfoldable pub row_spans : ℕ → Bytes → List Span
unfolding span_after
row_spans start [] = []
row_spans start (c ∷ rest) =
    let later = row_spans (start + 1) rest in
    elim (span_after c rest) [
      | none ↦ later
      | some offset ↦ record { start = start; end = start + 1 + offset; pair = pair_of c } ∷ later
    ]

-- Row number `row` of a column: `text[rowStart:rowEnd]`.
abbrev pub row_text : Bytes → ℕ → Bytes
row_text text row = take board_row_width (drop (row * board_row_width) text)

abbrev pub row_count : Bytes → ℕ
row_count text = (length text + board_row_width - 1) / board_row_width

abbrev pub to_pattern : Bytes → ℕ → ℕ → ℕ → Span → HackPattern
to_pattern generation_id base column_index row span = record {
  identity = record {
    generation_id = generation_id;
    row = base + row;
    start = span.start;
    end = span.end;
  };
  column_index = column_index;
  absolute_start = row * board_row_width + span.start;
  absolute_end = row * board_row_width + span.end;
  pair = span.pair;
}

-- The rows of one column from number `row` on; `n` of them are left.
unfoldable pub column_spans : Bytes → ℕ → ℕ → Bytes → ℕ → ℕ → List HackPattern
unfolding row_spans
column_spans generation_id base column_index text zero row = []
column_spans generation_id base column_index text (suc n) row =
    map (to_pattern generation_id base column_index row) (row_spans 0 (row_text text row))
    ++ column_spans generation_id base column_index text n (row + 1)

spans_from : Bytes → ℕ → ℕ → List HackColumn → List HackPattern
unfolding column_spans
spans_from generation_id base column_index [] = []
spans_from generation_id base column_index (column ∷ columns) =
    column_spans generation_id base column_index column.text (row_count column.text) 0
    ++ spans_from generation_id (base + row_count column.text) (column_index + 1) columns

unfoldable pub discover_pattern_spans : Bytes → List HackColumn → List HackPattern
unfolding spans_from
discover_pattern_spans generation_id columns = spans_from generation_id 0 0 columns
