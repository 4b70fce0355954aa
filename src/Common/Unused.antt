-- ===== src/Common/Unused.antt =====
-- Among different texts, one more than a list is long, one is not in the list.
use mathlib.Core.Bool.{Bool, true, false, ◌||◌}
use mathlib.Core.List.{List, [], ◌∷◌}
use mathlib.Core.Logic.{◌≢◌, inl, inr}
use mathlib.Core.Path.{◌≡◌, refl, ap, sym, ◌∙◌}
use Prim.Native.Nat.{ℕ, zero, suc, ◌+◌, ◌<◌, ◌≤◌}
use native.Mathlib.Omega.{arith}
use fallout_terminal.Common.Lists.{any, length}
use fallout_terminal.Common.Strings.{Bytes, equal, equal_iff}
use fallout_terminal.Common.Tests.{if◌then◌else◌, Bool-cases}

-- The list without the first place where the text stands.
unfoldable without : Bytes → List Bytes → List Bytes
unfolding equal
without a [] = []
without a (b ∷ bs) = if equal a b then bs else b ∷ without a bs

length-without :
    (a : Bytes) (bs : List Bytes)
    → any (equal a) bs ≡ true
    → suc (length (without a bs)) ≡ length bs
unfolding without
length-without a [] h = ground arith
length-without a (b ∷ bs) h = elim (Bool-cases (equal a b)) [
  | inl same ↦ rw (same, without) refl
  | inr other ↦ rw (other, without) (ap suc (length-without a bs (ground (arith, h, other))))
]

any-without :
    (a x : Bytes) (bs : List Bytes) → x ≢ a → any (equal x) (without a bs) ≡ any (equal x) bs
unfolding without
any-without a x [] ne = refl
any-without a x (b ∷ bs) ne = elim (Bool-cases (equal a b)) [
  | inl same ↦
      let e : a ≡ b = (equal_iff a b).0 same in
      rw (same, without) (ground (arith, equal_iff x b, ne, e))
  | inr other ↦ rw (other, without) (ap (λ (p : Bool). equal x b || p) (any-without a x bs ne))
]

-- The `n` texts from `start` on are different.
abbrev pub AreDifferent : (ℕ → Bytes) → ℕ → ℕ → Type 0
AreDifferent f start n =
    (i j : ℕ) → start ≤ i → i < start + n → start ≤ j → j < start + n → f i ≡ f j → i ≡ j

pub AreDifferent-within :
    (f : ℕ → Bytes) (start n start' n' : ℕ)
    → start ≤ start'
    → start' + n' ≤ start + n
    → AreDifferent f start n
    → AreDifferent f start' n'
AreDifferent-within f start n start' n' from to different i j i_from i_to j_from j_to e =
    different i j (omega arith) (omega arith) (omega arith) (omega arith) e

pub some_unused :
    (f : ℕ → Bytes) (n start : ℕ) (used : List Bytes)
    → AreDifferent f start n
    → length used < n
    → (i : ℕ) × (start ≤ i) × (i < start + n) × (any (equal (f i)) used ≡ false)
some_unused f zero start used once h = absurd (omega arith)
some_unused f (suc n) start used once h = elim (Bool-cases (any (equal (f start)) used)) [
  | inr free ↦ (start, omega arith, omega arith, free)
  | inl taken ↦
      let (i, from, to, free) =
        some_unused f n (suc start) (without (f start) used)
          (AreDifferent-within f start (suc n) (suc start) n (omega arith) (omega arith) once)
          (omega (arith, length-without (f start) used taken)) in
      (
        i,
        omega arith,
        omega arith,
        sym (
              any-without (f start) (f i) used (λ e. absurd (
                omega (
                  arith,
                  once i start (omega arith) (omega arith) (omega arith) (omega arith) e,
                  from,
                ))))
            ∙ free,
      )
]
