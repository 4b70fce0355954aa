-- ===== src/Hack/Builder/Extends.antt =====
-- Writing where nothing is placed keeps what is placed.
use fallout_terminal.Common.{
  ℕ, zero, suc, ◌+◌, ◌-◌, ◌≤◌, ◌<◌, Bool, true, false, some, List, [], ◌∷◌, Bytes, length,
  get_elem?, take, drop, replicate, any, ◌≡◌, ◌⊎◌, inl, inr, refl, ap, ◌∙◌, arith, dec_lt,
}
use fallout_terminal.Hack.Builder.{Builder, overwrite, any_used}

module _ {ℓ} {A : Type ℓ} where
  pub length-overwrite :
      (xs : List A) (s : ℕ) (vs : List A) → length (overwrite xs s vs) ≡ length xs
  unfolding overwrite
  length-overwrite [] s vs = refl
  length-overwrite (x ∷ xs) zero [] = refl
  length-overwrite (x ∷ xs) zero (v ∷ vs) = ap suc (length-overwrite xs zero vs)
  length-overwrite (x ∷ xs) (suc s) vs = ap suc (length-overwrite xs s vs)

  pub overwrite_outside :
      (xs : List A) (s : ℕ) (vs : List A) (i : ℕ)
      → (i < s) ⊎ (s + length vs ≤ i)
      → get_elem? (overwrite xs s vs) i ≡ get_elem? xs i
  unfolding overwrite
  overwrite_outside [] s vs i h = refl
  overwrite_outside (x ∷ xs) zero [] i h = refl
  overwrite_outside (x ∷ xs) zero (v ∷ vs) zero h = absurd (omega arith)
  overwrite_outside (x ∷ xs) zero (v ∷ vs) (suc i) h =
      overwrite_outside xs zero vs i (inr (omega arith))
  overwrite_outside (x ∷ xs) (suc s) vs zero h = refl
  overwrite_outside (x ∷ xs) (suc s) vs (suc i) (inl h) =
      overwrite_outside xs s vs i (inl (omega arith))
  overwrite_outside (x ∷ xs) (suc s) vs (suc i) (inr h) =
      overwrite_outside xs s vs i (inr (omega arith))

  pub overwrite_inside :
      (xs : List A) (s : ℕ) (vs : List A) (i k : ℕ)
      → i ≡ s + k
      → k < length vs
      → s + length vs ≤ length xs
      → get_elem? (overwrite xs s vs) i ≡ get_elem? vs k
  unfolding overwrite
  overwrite_inside [] s vs i k e h room = absurd (omega arith)
  overwrite_inside (x ∷ xs) zero [] i k e h room = absurd (omega arith)
  overwrite_inside (x ∷ xs) zero (v ∷ vs) zero zero e h room = refl
  overwrite_inside (x ∷ xs) zero (v ∷ vs) zero (suc k) e h room = absurd (omega arith)
  overwrite_inside (x ∷ xs) zero (v ∷ vs) (suc i) zero e h room = absurd (omega arith)
  overwrite_inside (x ∷ xs) zero (v ∷ vs) (suc i) (suc k) e h room =
      overwrite_inside xs zero vs i k (omega arith) (omega arith) (omega arith)
  overwrite_inside (x ∷ xs) (suc s) vs zero k e h room = absurd (omega arith)
  overwrite_inside (x ∷ xs) (suc s) vs (suc i) k e h room =
      overwrite_inside xs s vs i k (omega arith) h (omega arith)

  pub get_elem?-replicate : (n k : ℕ) (a : A) → k < n → get_elem? (replicate n a) k ≡ some a
  get_elem?-replicate zero k a h = absurd (omega arith)
  get_elem?-replicate (suc n) zero a h = refl
  get_elem?-replicate (suc n) (suc k) a h = get_elem?-replicate n k a (omega arith)

-- A place of the board that holds a part of a word or a span.
abbrev pub IsTaken : List Bool → ℕ → Type 0
IsTaken used i = get_elem? used i ≡ some true

any_used-free :
    (used : List Bool) (from n i : ℕ)
    → any (λ (u : Bool). u) (take n (drop from used)) ≡ false
    → from ≤ i
    → i < from + n
    → ¬ IsTaken used i
any_used-free [] from n i h low high t = cc
any_used-free (u ∷ used) zero zero i h low high t = absurd (omega arith)
any_used-free (u ∷ used) zero (suc n) zero h low high t = ground (arith, t)
any_used-free (u ∷ used) zero (suc n) (suc i) h low high t =
    any_used-free used zero n i (ground (arith, h)) (omega arith) (omega arith) t
any_used-free (u ∷ used) (suc from) n zero h low high t = absurd (omega arith)
any_used-free (u ∷ used) (suc from) n (suc i) h low high t =
    any_used-free used from n i h (omega arith) (omega arith) t

-- No place of [from, to) is taken where `any_used` finds none.
pub any_used-not-IsTaken :
    (used : List Bool) (from to i : ℕ)
    → any_used used from to ≡ false
    → from ≤ i
    → i < to
    → ¬ IsTaken used i
unfolding any_used
any_used-not-IsTaken used from to i h low high =
    any_used-free used from (to - from) i h low (omega arith)

-- The later board keeps what is placed on the earlier one.
pub record Extends (chars later_chars : Bytes) (used later_used : List Bool) : Type 0 where
  pub same_chars_size : length later_chars ≡ length chars
  pub same_used_size : length later_used ≡ length used
  pub still_taken : (i : ℕ) → IsTaken used i → IsTaken later_used i
  pub still_there : (i : ℕ) → IsTaken used i → get_elem? later_chars i ≡ get_elem? chars i

abbrev pub Keeps : Builder → Builder → Type 0
Keeps b c = Extends b.chars c.chars b.used c.used

pub Extends-refl : (chars : Bytes) (used : List Bool) → Extends chars chars used used
Extends-refl chars used = record {
  same_chars_size = refl;
  same_used_size = refl;
  still_taken = λ i h. h;
  still_there = λ i h. refl;
}

pub Extends-trans :
    {c1 c2 c3 : Bytes} {u1 u2 u3 : List Bool}
    → Extends c1 c2 u1 u2
    → Extends c2 c3 u2 u3
    → Extends c1 c3 u1 u3
Extends-trans a b = record {
  same_chars_size = b.same_chars_size ∙ a.same_chars_size;
  same_used_size = b.same_used_size ∙ a.same_used_size;
  still_taken = λ i h. b.still_taken i (a.still_taken i h);
  still_there = λ i h. b.still_there i (a.still_taken i h) ∙ a.still_there i h;
}

-- A place outside of [from, from + size).
outside : (from size i : ℕ) → ((i < from) ⊎ (from + size ≤ i)) ⊎ ((from ≤ i) × (i < from + size))
outside from size i = elim (dec_lt i from) [
  | yes low ↦ inl (inl low)
  | no high ↦ elim (dec_lt i (from + size)) [
    | yes below ↦ inr (omega arith, below)
    | no above ↦ inl (inr (omega arith))
  ]
]

-- A taken place is outside of a region that is free.
taken_outside :
    (used : List Bool) (from size i : ℕ)
    → ((j : ℕ) → from ≤ j → j < from + size → ¬ IsTaken used j)
    → IsTaken used i
    → (i < from) ⊎ (from + size ≤ i)
taken_outside used from size i free taken = elim (outside from size i) [
  | inl out ↦ out
  | inr (low, high) ↦ absurd (free i low high taken)
]

-- Writing values and marks into a free region keeps what is placed.
pub Extends-overwrite :
    (chars : Bytes) (used : List Bool) (from : ℕ) (vs : Bytes) (marks : List Bool)
    → length marks ≡ length vs
    → ((j : ℕ) → from ≤ j → j < from + length vs → ¬ IsTaken used j)
    → Extends chars (overwrite chars from vs) used (overwrite used from marks)
Extends-overwrite chars used from vs marks same free = record {
  same_chars_size = length-overwrite chars from vs;
  same_used_size = length-overwrite used from marks;
  still_taken = λ i taken.
      overwrite_outside used from marks i
        (rw same (taken_outside used from (length vs) i free taken))
      ∙ taken;
  still_there = λ i taken.
      overwrite_outside chars from vs i (taken_outside used from (length vs) i free taken);
}
