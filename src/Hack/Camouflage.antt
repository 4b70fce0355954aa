-- ===== src/Hack/Camouflage.antt =====
-- internal/hack/hack.go: `classifyFinalBoard` and `publishable`. A map that serves as a set of rows
-- is the list of its rows, each held once.
use mathlib.Core.Option
use fallout_terminal.Common.{
  ℕ, zero, suc, ◌+◌, ◌-◌, ◌*◌, ◌/◌, ◌%◌, min, max, Bool, true, false, not, ◌&&◌, ◌||◌, Option, none,
  some, List, [], ◌∷◌, ◌++◌, Bytes, leb, ltb, ◌==◌, if◌then◌else◌, length, take, any, index_byte,
}
use fallout_terminal.Domain.Hack.{HackWord, HackColumn, HackPattern, HackState}
use fallout_terminal.Hack.Play.{contains_word}
use fallout_terminal.Hack.Scan.{
  board_row_width, closer_of, is_ascii_alpha, row_text, row_count, discover_pattern_spans,
}

pub record BoardPosition : Type 0 where
  pub row : ℕ
  pub offset : ℕ
  pub column_index : ℕ
  pub absolute : ℕ

pub record FinalBoardCamouflage : Type 0 where
  pub patterns : List HackPattern
  pub standalone_delimiters : List BoardPosition
  pub has_non_empty_pattern : Bool
  pub has_alphabetic_interrupted_span : Bool
  pub candidate_rows : List ℕ
  pub pattern_rows : List ℕ
  pub decoy_rows : List ℕ
  pub ordinary_filler_rows : List ℕ

-- `rows[row] = struct{}{}`.
unfoldable pub add_row : ℕ → List ℕ → List ℕ
add_row row rows = if any (λ r. r == row) rows then rows else row ∷ rows

abbrev pub is_delimiter : ℕ → Bool
is_delimiter c =
    c == b'('
    || c == b')'
    || c == b'['
    || c == b']'
    || c == b'{'
    || c == b'}'
    || c == b'<'
    || c == b'>'

-- Some letter stands between this opener and its closer.
interrupted_after : ℕ → Bytes → Bool
unfolding closer_of is_ascii_alpha index_byte
interrupted_after c rest = elim (closer_of c) [
  | none ↦ false
  | some closer ↦ elim (index_byte rest closer) [
    | none ↦ false
    | some offset ↦ any is_ascii_alpha (take offset rest)
  ]
]

unfoldable pub row_has_alphabetic_interrupted_span : Bytes → Bool
unfolding interrupted_after
row_has_alphabetic_interrupted_span [] = false
row_has_alphabetic_interrupted_span (c ∷ rest) =
    interrupted_after c rest || row_has_alphabetic_interrupted_span rest

pattern_rows_of : List HackPattern → List ℕ → List ℕ
unfolding add_row
pattern_rows_of [] rows = rows
pattern_rows_of (p ∷ patterns) rows = pattern_rows_of patterns (add_row p.identity.row rows)

-- `covered[{row, offset}]`: the place belongs to a pattern.
is_covered : List HackPattern → ℕ → ℕ → Bool
is_covered patterns row offset =
    any
      (λ (p : HackPattern).
        p.identity.row == row && leb p.identity.start offset && leb offset p.identity.end)
      patterns

-- The rows of `n` places of a word, from `absolute` on.
word_rows : ℕ → ℕ → ℕ → List ℕ → List ℕ
unfolding add_row
word_rows base zero absolute rows = rows
word_rows base (suc n) absolute rows =
    word_rows base n (absolute + 1) (add_row (base + absolute / board_row_width) rows)

column_candidate_rows : ℕ → ℕ → List HackWord → List ℕ → List ℕ
unfolding word_rows
column_candidate_rows base size [] rows = rows
column_candidate_rows base size (word ∷ words) rows =
    column_candidate_rows base size words
      (word_rows base (min (word.start + word.length) size - word.start) word.start rows)

-- One byte of the board, at its place.
classify_byte : ℕ → HackColumn → ℕ → ℕ → ℕ → FinalBoardCamouflage → FinalBoardCamouflage
unfolding is_covered add_row contains_word is_ascii_alpha
classify_byte column_index column row absolute value found =
    let offset = absolute % board_row_width in
    if is_delimiter value
    then if is_covered found.patterns row offset then found else record found {
      standalone_delimiters =
          found.standalone_delimiters
          ++ (record {
            row = row;
            offset = offset;
            column_index = column_index;
            absolute = absolute;
          }
              ∷ []);
      decoy_rows = add_row row found.decoy_rows;
    }
    else if not (contains_word column.words absolute) && not (is_ascii_alpha value)
    then record found { ordinary_filler_rows = add_row row found.ordinary_filler_rows }
    else found

classify_bytes : ℕ → HackColumn → ℕ → ℕ → Bytes → FinalBoardCamouflage → FinalBoardCamouflage
unfolding classify_byte
classify_bytes column_index column row absolute [] found = found
classify_bytes column_index column row absolute (value ∷ rest) found =
    classify_bytes column_index column row (absolute + 1) rest
      (classify_byte column_index column row absolute value found)

-- The rows of one column from number `row` on; `n` of them are left.
classify_rows : ℕ → HackColumn → ℕ → ℕ → ℕ → FinalBoardCamouflage → FinalBoardCamouflage
unfolding classify_bytes row_has_alphabetic_interrupted_span
classify_rows column_index column base zero row found = found
classify_rows column_index column base (suc n) row found =
    let text = row_text column.text row in
    let noted = record found {
      has_alphabetic_interrupted_span =
          found.has_alphabetic_interrupted_span || row_has_alphabetic_interrupted_span text;
    } in
    classify_rows column_index column base n (row + 1)
      (classify_bytes column_index column (base + row) (row * board_row_width) text noted)

classify_columns : ℕ → ℕ → List HackColumn → FinalBoardCamouflage → FinalBoardCamouflage
unfolding classify_rows column_candidate_rows
classify_columns column_index base [] found = found
classify_columns column_index base (column ∷ columns) found =
    let placed = record found {
      candidate_rows =
          column_candidate_rows base (length column.text) column.words found.candidate_rows;
    } in
    classify_columns (column_index + 1) (base + row_count column.text) columns
      (classify_rows column_index column base (row_count column.text) 0 placed)

unfoldable pub classify_final_board : HackState → FinalBoardCamouflage
unfolding classify_columns pattern_rows_of
classify_final_board state =
    let patterns = discover_pattern_spans state.generation_id state.columns in
    classify_columns 0 0 state.columns (record {
      patterns = patterns;
      standalone_delimiters = [];
      has_non_empty_pattern =
          any (λ (p : HackPattern). ltb 1 (p.identity.end - p.identity.start)) patterns;
      has_alphabetic_interrupted_span = false;
      candidate_rows = [];
      pattern_rows = pattern_rows_of patterns [];
      decoy_rows = [];
      ordinary_filler_rows = [];
    })

-- The lowest and the highest row of a set that is not empty.
pub record Interval : Type 0 where
  pub low : ℕ
  pub high : ℕ

unfoldable pub interval_of : ℕ → List ℕ → Interval
interval_of row [] = record { low = row; high = row }
interval_of row (other ∷ rows) =
    let later = interval_of row rows in
    record { low = min other later.low; high = max other later.high }

intervals : List (List ℕ) → Option (List Interval)
unfolding interval_of
intervals [] = some []
intervals ([] ∷ sets) = none
intervals ((row ∷ rows) ∷ sets) =
    Option.map (λ (later : List Interval). interval_of row rows ∷ later) (intervals sets)

overlap : Interval → Interval → Bool
overlap a b = not (ltb a.high b.low || ltb b.high a.low)

overlap_all : Interval → List Interval → Bool
unfolding overlap
overlap_all a [] = true
overlap_all a (b ∷ bs) = overlap a b && overlap_all a bs

pairwise : List Interval → Bool
unfolding overlap_all
pairwise [] = true
pairwise (a ∷ bs) = overlap_all a bs && pairwise bs

unfoldable pub row_intervals_overlap_pairwise : List (List ℕ) → Bool
unfolding intervals pairwise
row_intervals_overlap_pairwise sets =
    if ltb (length sets) 2
    then true
    else elim (intervals sets) [ none ↦ false | some found ↦ pairwise found ]

unfoldable pub publishable : FinalBoardCamouflage → Bool
unfolding row_intervals_overlap_pairwise
publishable c =
    leb 3 (length c.patterns)
    && leb (length c.patterns) 6
    && leb (length c.patterns) (length c.standalone_delimiters)
    && c.has_non_empty_pattern
    && c.has_alphabetic_interrupted_span
    && leb 2 (length c.candidate_rows)
    && leb 2 (length c.pattern_rows)
    && leb 2 (length c.decoy_rows)
    && leb 2 (length c.ordinary_filler_rows)
    && row_intervals_overlap_pairwise (c.candidate_rows ∷ c.pattern_rows ∷ c.decoy_rows ∷ [])
