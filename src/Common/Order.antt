-- ===== src/Common/Order.antt =====
-- `<` on Go strings, which compares bytes, and `slices.Sort` of a slice of strings.
use mathlib.Core.Bool.{Bool, true, false, ◌&&◌, ◌||◌}
use mathlib.Core.List.{List, [], ◌∷◌}
use mathlib.Core.Logic.{◌⊎◌, ◌↔◌, ◌≢◌, inl, inr}
use mathlib.Core.Path.{◌≡◌, refl, subst}
use native.Mathlib.Omega.{arith}
use fallout_terminal.Common.Lists.{In}
use fallout_terminal.Common.Maps.{Dict}
use fallout_terminal.Common.Strings.{Bytes}
use fallout_terminal.Common.Tests.{◌==◌, ltb, if◌then◌else◌, if-either, Bool-cases}

unfoldable pub before : Bytes → Bytes → Bool
before [] [] = false
before [] (d ∷ t) = true
before (c ∷ s) [] = false
before (c ∷ s) (d ∷ t) = ltb c d || (c == d && before s t)

no_lower : (s : Bytes) → before s [] ≢ true
unfolding before
no_lower [] h = ground arith
no_lower (c ∷ s) h = ground arith

pub before_irreflexive : (s : Bytes) → before s s ≡ false
unfolding before
before_irreflexive [] = refl
before_irreflexive (c ∷ s) = ground (arith, before_irreflexive s)

pub before_trans : (r s t : Bytes) → before r s ≡ true → before s t ≡ true → before r t ≡ true
unfolding before
before_trans r [] t h k = absurd (no_lower r h)
before_trans r (d ∷ s) [] h k = absurd (ground arith)
before_trans [] (d ∷ s) (e ∷ t) h k = refl
before_trans (c ∷ r) (d ∷ s) (e ∷ t) h k = ground (arith, before_trans r s t)

-- A text between two others, or beyond one of them.
pub before_split : (r s t : Bytes) → before r t ≡ true → (before r s ≡ true) ⊎ (before s t ≡ true)
unfolding before
before_split r s [] h = absurd (no_lower r h)
before_split [] [] (e ∷ t) h = inr refl
before_split [] (d ∷ s) (e ∷ t) h = inl refl
before_split (c ∷ r) [] (e ∷ t) h = inr refl
before_split (c ∷ r) (d ∷ s) (e ∷ t) h = ground (arith, before_split r s t)

-- The text at its place in a sorted list.
unfoldable pub put : Bytes → List Bytes → List Bytes
unfolding before
put a [] = a ∷ []
put a (b ∷ bs) = if before b a then b ∷ put a bs else a ∷ b ∷ bs

unfoldable pub sorted : List Bytes → List Bytes
unfolding put
sorted [] = []
sorted (a ∷ rest) = put a (sorted rest)

-- `for key := range m`, sorted.
abbrev pub keys {ℓ} : {V : Type ℓ} → Dict V → List Bytes
keys [] = []
keys ((k, v) ∷ m) = k ∷ keys m

In-put : (a b : Bytes) (bs : List Bytes) → In a (put b bs) → (a ≡ b) ⊎ In a bs
unfolding put
In-put a b [] h = h
In-put a b (c ∷ bs) h = elim (Bool-cases (before c b)) [
  | inl behind ↦ elim (rw (behind, put) at h) [
    | inl e ↦ inr (inl e)
    | inr m ↦ elim (In-put a b bs m) [ inl e ↦ inl e | inr k ↦ inr (inr k) ]
  ]
  | inr here ↦ rw (here, put) at h
]

In-put_new : (a : Bytes) (bs : List Bytes) → In a (put a bs)
unfolding put
In-put_new a [] = inl refl
In-put_new a (c ∷ bs) = if-either (In a) (before c a) (inr (In-put_new a bs)) (inl refl)

In-put_old : (a b : Bytes) (bs : List Bytes) → In a bs → In a (put b bs)
unfolding put
In-put_old a b [] m = elim m [ ]
In-put_old a b (c ∷ bs) (inl e) = if-either (In a) (before c b) (inl e) (inr (inl e))
In-put_old a b (c ∷ bs) (inr m) =
    if-either (In a) (before c b) (inr (In-put_old a b bs m)) (inr (inr m))

-- Sorting keeps what stands in the list.
pub In-sorted : (a : Bytes) (bs : List Bytes) → In a (sorted bs) ↔ In a bs
unfolding sorted
In-sorted a [] = ((λ m. m), (λ m. m))
In-sorted a (b ∷ bs) = (
  (λ m. elim (In-put a b (sorted bs) m) [ inl e ↦ inl e | inr k ↦ inr ((In-sorted a bs).0 k) ]),
  (λ m. elim m [
    | inl e ↦ subst (λ x. In a (put x (sorted bs))) e (In-put_new a (sorted bs))
    | inr k ↦ In-put_old a b (sorted bs) ((In-sorted a bs).1 k)
  ]),
)
