-- ===== src/Hack/Scan/Board.antt =====
-- The patterns of a board described without a scan, and that the scan finds exactly these.
use fallout_terminal.Common.{
  ℕ, zero, suc, ◌+◌, ◌<◌, ◌≤◌, ℕ_discrete, some, List, [], ◌∷◌, ◌++◌, map, Bytes, In, In-append,
  In-append_left, In-append_right, In-map, In-map_inv, get_elem?, All, All-of_In, ◌≡◌, ◌↔◌, inl,
  inr, refl, sym, subst, ◌∙◌, arith,
}
use mathlib.Core.Path.{ap₂}
use native.Mathlib.Nat.{add-zero}
use fallout_terminal.Domain.Hack.{HackColumn, HackPattern}
use fallout_terminal.Hack.Scan.Spec.{IsRowSpan, row_spans-IsRowSpan, IsRowSpan-row_spans}
use fallout_terminal.Hack.Scan.{
  Span, row_spans, row_text, row_count, to_pattern, column_spans, spans_from,
  discover_pattern_spans,
}

-- The rows of all columns, numbered from the first column on.
abbrev pub row_base : List HackColumn → ℕ → ℕ
row_base [] index = 0
row_base (column ∷ columns) zero = 0
row_base (column ∷ columns) (suc index) = row_count column.text + row_base columns index

-- A pattern of the board: a span of some row of some column, with its coordinates.
pub record IsPattern (g : Bytes) (columns : List HackColumn) (p : HackPattern) : Type 0 where
  pub column_index : ℕ
  pub column : HackColumn
  pub row : ℕ
  pub span : Span
  pub column_at : get_elem? columns column_index ≡ some column
  pub row_of_column : row < row_count column.text
  pub spans : IsRowSpan 0 (row_text column.text row) span
  pub pattern_is : p ≡ to_pattern g (row_base columns column_index) column_index row span

column_spans-rows :
    (g : Bytes) (base index : ℕ) (text : Bytes) (n row : ℕ) (p : HackPattern)
    → In p (column_spans g base index text n row)
    → (k : ℕ) × (k < row + n)
      × (span : Span) × In span (row_spans 0 (row_text text k))
      × (p ≡ to_pattern g base index k span)
unfolding column_spans
column_spans-rows g base index text zero row p m = elim m [ ]
column_spans-rows g base index text (suc n) row p m =
    elim (In-append p (map (to_pattern g base index row) (row_spans 0 (row_text text row))) _ m) [
      | inl here ↦
          let (span, found, e) = In-map_inv (to_pattern g base index row) p _ here in
          (row, omega arith, span, found, e)
      | inr later ↦
          let (k, low, span, found, e) = column_spans-rows g base index text n (row + 1) p later in
          (k, omega arith, span, found, e)
    ]

In-column_spans :
    (g : Bytes) (base index : ℕ) (text : Bytes) (n row k : ℕ) (span : Span)
    → row ≤ k
    → k < row + n
    → In span (row_spans 0 (row_text text k))
    → In (to_pattern g base index k span) (column_spans g base index text n row)
unfolding column_spans
In-column_spans g base index text zero row k span low high m = absurd (omega arith)
In-column_spans g base index text (suc n) row k span low high m = elim (ℕ_discrete k row) [
  | yes here ↦ rw here (
      In-append_left _ (map (to_pattern g base index row) (row_spans 0 (row_text text row))) _
        (In-map (to_pattern g base index row) span _ (rw here at m)))
  | no other ↦
      In-append_right _ (map (to_pattern g base index row) (row_spans 0 (row_text text row))) _
        (In-column_spans g base index text n (row + 1) k span (omega arith) (omega arith) m)
]

-- What `spans_from` finds in columns that are numbered from `index` and rows from `base` on.
record IsPatternFrom (g : Bytes) (base index : ℕ) (columns : List HackColumn) (p : HackPattern)
    : Type 0 where
  position : ℕ
  column : HackColumn
  row : ℕ
  span : Span
  column_at : get_elem? columns position ≡ some column
  row_of_column : row < row_count column.text
  found : In span (row_spans 0 (row_text column.text row))
  pattern_is : p ≡ to_pattern g (base + row_base columns position) (index + position) row span

spans_from-IsPatternFrom :
    (g : Bytes) (base index : ℕ) (columns : List HackColumn) (p : HackPattern)
    → In p (spans_from g base index columns)
    → IsPatternFrom g base index columns p
unfolding spans_from
spans_from-IsPatternFrom g base index [] p m = elim m [ ]
spans_from-IsPatternFrom g base index (column ∷ columns) p m =
    elim (In-append p (column_spans g base index column.text (row_count column.text) 0) _ m) [
      | inl here ↦
          let (row, low, span, found, e) =
            column_spans-rows g base index column.text (row_count column.text) 0 p here in
          record {
            position = 0;
            column = column;
            row = row;
            span = span;
            column_at = refl;
            row_of_column = omega arith;
            found = found;
            pattern_is = e ∙ ap₂ (λ b i. to_pattern g b i row span) (omega arith) (omega arith);
          }
      | inr later ↦
          let h =
            spans_from-IsPatternFrom g (base + row_count column.text) (index + 1) columns p later in
          record {
            position = suc h.position;
            column = h.column;
            row = h.row;
            span = h.span;
            column_at = h.column_at;
            row_of_column = h.row_of_column;
            found = h.found;
            pattern_is =
                h.pattern_is
                ∙ ap₂ (λ b i. to_pattern g b i h.row h.span) (omega arith) (omega arith);
          }
    ]

In-spans_from :
    (g : Bytes) (base index : ℕ) (columns : List HackColumn) (position : ℕ) (column : HackColumn)
    (row : ℕ) (span : Span)
    → get_elem? columns position ≡ some column
    → row < row_count column.text
    → In span (row_spans 0 (row_text column.text row))
    → In
        (to_pattern g (base + row_base columns position) (index + position) row span)
        (spans_from g base index columns)
unfolding spans_from
In-spans_from g base index [] position column row span e h m = cc
In-spans_from g base index (first ∷ columns) zero column row span e h m =
    let same : first ≡ column = ground arith in
    subst
      (λ (c : HackColumn). In (to_pattern g (base + 0) (index + 0) row span) (
        column_spans g base index c.text (row_count c.text) 0
        ++ spans_from g (base + row_count c.text) (index + 1) columns))
      (sym same)
      (rw (add-zero, add-zero)
        (In-append_left _ (column_spans g base index column.text (row_count column.text) 0) _ (
          In-column_spans g base index column.text (row_count column.text) 0 row span (omega arith)
            (omega arith) m)))
In-spans_from g base index (first ∷ columns) (suc position) column row span e h m =
    In-append_right _ (column_spans g base index first.text (row_count first.text) 0) _ (
      subst (λ q. In q (spans_from g (base + row_count first.text) (index + 1) columns))
        (ap₂ (λ b i. to_pattern g b i row span) (omega arith) (omega arith))
        (In-spans_from g (base + row_count first.text) (index + 1) columns position column row span
          e h m))

-- The scan finds exactly the patterns of the board: in each row of each column, an opener, then
-- bytes that are no letter and not its closer, then its closer, under the row's number on the board.
pub discover_pattern_spans_iff :
    (g : Bytes) (columns : List HackColumn) (p : HackPattern)
    → In p (discover_pattern_spans g columns) ↔ IsPattern g columns p
unfolding discover_pattern_spans
discover_pattern_spans_iff g columns p = (
  λ m.
      let h = spans_from-IsPatternFrom g 0 0 columns p m in
      record {
        column_index = h.position;
        column = h.column;
        row = h.row;
        span = h.span;
        column_at = h.column_at;
        row_of_column = h.row_of_column;
        spans = row_spans-IsRowSpan 0 _ h.span h.found;
        pattern_is =
            h.pattern_is ∙ ap₂ (λ b i. to_pattern g b i h.row h.span) (omega arith) (omega arith);
      },
  λ h.
      subst (λ q. In q (spans_from g 0 0 columns))
        (ap₂ (λ b i. to_pattern g b i h.row h.span) (omega arith) (omega arith) ∙ sym h.pattern_is)
        (In-spans_from g 0 0 columns h.column_index h.column h.row h.span h.column_at
          h.row_of_column (IsRowSpan-row_spans 0 _ h.span h.spans)),
)

-- All patterns of a board carry its generation ID.
pub discover_pattern_spans-generation :
    (g : Bytes) (columns : List HackColumn)
    → All (λ (p : HackPattern). p.identity.generation_id ≡ g) (discover_pattern_spans g columns)
discover_pattern_spans-generation g columns =
    All-of_In _ (discover_pattern_spans g columns)
      (λ p m. ground (arith, ((discover_pattern_spans_iff g columns p).0 m).pattern_is))
