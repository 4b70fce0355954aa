-- ===== src/Hack/Scan/Spec.antt =====
-- The bracket spans described without a scan, and that the scan finds exactly these.
use fallout_terminal.Common.{
  ℕ, suc, ◌+◌, false, some, [], ◌∷◌, ◌++◌, Bytes, ◌==◌, length, take, any, index_byte, All, In, ◌≡◌,
  ◌≢◌, inl, inr, refl, sym, ap, ◌∙◌, arith, Option-cases, Bool-cases,
}
use fallout_terminal.Hack.Scan.{Span, closer_of, is_ascii_alpha, span_after, row_spans}

-- A byte that may stand inside a span which `closer` ends.
abbrev pub IsInterior : ℕ → ℕ → Type 0
IsInterior closer c = (c ≢ closer) × (is_ascii_alpha c ≡ false)

-- Behind an opener `c`, `interior` and then its closer follow.
pub record Closes (c : ℕ) (rest : Bytes) (offset : ℕ) : Type 0 where
  pub closer : ℕ
  pub interior : Bytes
  pub beyond : Bytes
  pub closer_is : closer_of c ≡ some closer
  pub splits : rest ≡ interior ++ (closer ∷ beyond)
  pub offset_is : length interior ≡ offset
  pub inside : All (IsInterior closer) interior

first_closer :
    (rest : Bytes) (d offset : ℕ)
    → index_byte rest d ≡ some offset
    → any is_ascii_alpha (take offset rest) ≡ false
    → (interior beyond : Bytes) × (rest ≡ interior ++ (d ∷ beyond))
      × (length interior ≡ offset)
      × All (IsInterior d) interior
unfolding index_byte
first_closer [] d offset e h = cc
first_closer (c ∷ rest) d offset e h = elim (Bool-cases (c == d)) [
  | inl here ↦ ([], rest, ground arith, ground arith, tt)
  | inr later ↦ elim (Option-cases (index_byte rest d)) [
    | inl missing ↦ ground (arith, missing)
    | inr (k, found) ↦
        let at_suc : offset ≡ suc k = ground (arith, found) in
        let (interior, beyond, splits, size, inside) =
          first_closer rest d k found (ground (arith, at_suc)) in
        (
          c ∷ interior,
          beyond,
          ap (λ (l : Bytes). c ∷ l) splits,
          omega (arith, at_suc),
          ((ground arith, ground (arith, at_suc)), inside),
        )
  ]
]

first_closer-index :
    (interior beyond : Bytes) (d : ℕ)
    → All (IsInterior d) interior
    → (index_byte (interior ++ (d ∷ beyond)) d ≡ some (length interior))
      × (any is_ascii_alpha (take (length interior) (interior ++ (d ∷ beyond))) ≡ false)
unfolding index_byte
first_closer-index [] beyond d h = ground arith
first_closer-index (c ∷ interior) beyond d h =
    ground (arith, first_closer-index interior beyond d h.1, h.0.0, h.0.1)

span_after-Closes :
    (c : ℕ) (rest : Bytes) (offset : ℕ) → span_after c rest ≡ some offset → Closes c rest offset
unfolding span_after
span_after-Closes c rest offset e = elim (Option-cases (closer_of c)) [
  | inl plain ↦ ground (arith, plain)
  | inr (d, opens) ↦ elim (Option-cases (index_byte rest d)) [
    | inl missing ↦ ground (arith, opens, missing)
    | inr (k, found) ↦ elim (Bool-cases (any is_ascii_alpha (take k rest))) [
      | inl letters ↦ ground (arith, opens, found, letters)
      | inr clean ↦
          let same : offset ≡ k = ground (arith, opens, found, clean) in
          let (interior, beyond, splits, size, inside) = first_closer rest d k found clean in
          record {
            closer = d;
            interior = interior;
            beyond = beyond;
            closer_is = opens;
            splits = splits;
            offset_is = size ∙ sym same;
            inside = inside;
          }
    ]
  ]
]

Closes-span_after :
    (c : ℕ) (rest : Bytes) (offset : ℕ) → Closes c rest offset → span_after c rest ≡ some offset
unfolding span_after
Closes-span_after c rest offset h = ground (
  arith,
  h.closer_is,
  h.splits,
  h.offset_is,
  first_closer-index h.interior h.beyond h.closer h.inside,
)

-- The span of a row, or of the rest of a row that begins at offset `from`.
pub record IsRowSpan (from : ℕ) (text : Bytes) (span : Span) : Type 0 where
  pub before : Bytes
  pub opener : ℕ
  pub rest : Bytes
  pub offset : ℕ
  pub splits : text ≡ before ++ (opener ∷ rest)
  pub closes : Closes opener rest offset
  pub start_is : span.start ≡ from + length before
  pub end_is : span.end ≡ span.start + 1 + offset
  pub pair_is : span.pair ≡ opener ∷ closes.closer ∷ []

later_span :
    (from c : ℕ) (text : Bytes) (span : Span)
    → IsRowSpan (from + 1) text span
    → IsRowSpan from (c ∷ text) span
later_span from c text span h = record {
  before = c ∷ h.before;
  opener = h.opener;
  rest = h.rest;
  offset = h.offset;
  splits = ap (λ (l : Bytes). c ∷ l) h.splits;
  closes = h.closes;
  start_is = omega (arith, h.start_is);
  end_is = h.end_is;
  pair_is = h.pair_is;
}

pub row_spans-IsRowSpan :
    (from : ℕ) (text : Bytes) (span : Span)
    → In span (row_spans from text)
    → IsRowSpan from text span
unfolding row_spans
row_spans-IsRowSpan from [] span m = elim m [ ]
row_spans-IsRowSpan from (c ∷ text) span m = elim (Option-cases (span_after c text)) [
  | inl nothing ↦
      later_span from c text span
        (row_spans-IsRowSpan (from + 1) text span (rw (nothing, row_spans) at m))
  | inr (offset, found) ↦
      let closes = span_after-Closes c text offset found in
      elim (rw (found, row_spans) at m) [
        | inl e ↦ record {
          before = [];
          opener = c;
          rest = text;
          offset = offset;
          splits = refl;
          closes = closes;
          start_is = ground (arith, e);
          end_is = ground (arith, e);
          pair_is = ground (arith, e, closes.closer_is);
        }
        | inr later ↦ later_span from c text span (row_spans-IsRowSpan (from + 1) text span later)
      ]
]

-- A later byte does not hide a span.
In-row_spans-cons :
    (from c : ℕ) (text : Bytes) (span : Span)
    → In span (row_spans (from + 1) text)
    → In span (row_spans from (c ∷ text))
unfolding row_spans
In-row_spans-cons from c text span m = elim (Option-cases (span_after c text)) [
  | inl nothing ↦ rw (nothing, row_spans) m
  | inr (offset, found) ↦ rw (found, row_spans) (inr m)
]

In-row_spans :
    (before : Bytes) (from : ℕ) (text : Bytes) (span : Span) (opener : ℕ) (rest : Bytes)
    (offset : ℕ) (closes : Closes opener rest offset)
    → text ≡ before ++ (opener ∷ rest)
    → span.start ≡ from + length before
    → span.end ≡ span.start + 1 + offset
    → span.pair ≡ opener ∷ closes.closer ∷ []
    → In span (row_spans from text)
unfolding row_spans
In-row_spans [] from text span opener rest offset closes e s t p =
    rw (e, Closes-span_after opener rest offset closes, row_spans)
      (inl (ground (arith, closes.closer_is)))
In-row_spans (c ∷ before) from text span opener rest offset closes e s t p = rw e (
    In-row_spans-cons from c (before ++ (opener ∷ rest)) span (
      In-row_spans before (from + 1) (before ++ (opener ∷ rest)) span opener rest offset closes refl
        (omega arith) t p))

pub IsRowSpan-row_spans :
    (from : ℕ) (text : Bytes) (span : Span)
    → IsRowSpan from text span
    → In span (row_spans from text)
IsRowSpan-row_spans from text span h =
    In-row_spans h.before from text span h.opener h.rest h.offset h.closes h.splits h.start_is
      h.end_is h.pair_is
