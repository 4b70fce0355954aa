-- ===== src/Hack/Random/Laws.antt =====
-- Draws stay below their limit, and a search finds what can be found.
use fallout_terminal.Common.{
  ℕ, zero, suc, ◌+◌, ◌<◌, ◌≤◌, ◌≡◌, Bool, true, false, Option, none, some, inl, inr, arith,
  Bool-cases, leb, ℤ, pos, negsuc,
}
use fallout_terminal.Hack.Random.{
  Random, reduce, safe_intn, try_random, first_from, or_first, choose, placement_tries,
}

reduce-lt : (v : ℤ) (limit : ℕ) → 0 < limit → reduce v limit < limit
unfolding reduce
reduce-lt (pos n) limit h = grind arith
reduce-lt (negsuc n) limit h = grind arith

-- Whatever the source answers, also negative numbers, a draw below a positive limit is below it.
pub safe_intn-lt : (r : Random) (limit : ℕ) → 0 < limit → (safe_intn r limit).0 < limit
unfolding safe_intn
safe_intn-lt r limit h = elim (Bool-cases (leb limit 1)) [
  | inl small ↦ rw small h
  | inr large ↦ rw large (reduce-lt _ limit h)
]

try_random-accept :
    (n limit : ℕ) (accept : ℕ → Bool) (r : Random) (c : ℕ)
    → (try_random n limit accept r).0 ≡ some c
    → accept c ≡ true
unfolding try_random
try_random-accept zero limit accept r c e = cc
try_random-accept (suc n) limit accept r c e = elim (Bool-cases (accept (safe_intn r limit).0)) [
  | inl yes_ ↦ ground (arith, yes_)
  | inr no_ ↦ try_random-accept n limit accept (safe_intn r limit).1 c (rw no_ at e)
]

pub first_from-accept :
    (n from : ℕ) (accept : ℕ → Bool) (c : ℕ) → first_from n from accept ≡ some c → accept c ≡ true
unfolding first_from
first_from-accept zero from accept c e = cc
first_from-accept (suc n) from accept c e = ground (arith, first_from-accept n (from + 1) accept c)

first_from-none :
    (n from : ℕ) (accept : ℕ → Bool) (c : ℕ)
    → first_from n from accept ≡ none
    → from ≤ c
    → c < from + n
    → accept c ≡ false
unfolding first_from
first_from-none zero from accept c e h k = absurd (omega arith)
first_from-none (suc n) from accept c e h k = ground (arith, first_from-none n (from + 1) accept c)

or_first-accept :
    (limit : ℕ) (accept : ℕ → Bool) (tried : Option ℕ) (c : ℕ)
    → ((d : ℕ) → tried ≡ some d → accept d ≡ true)
    → or_first tried limit accept ≡ some c
    → accept c ≡ true
or_first-accept limit accept none c h e = first_from-accept limit 0 accept c e
or_first-accept limit accept (some d) c h e = h c e

or_first-none :
    (limit : ℕ) (accept : ℕ → Bool) (tried : Option ℕ) (c : ℕ)
    → or_first tried limit accept ≡ none
    → c < limit
    → accept c ≡ false
or_first-none limit accept none c e h =
    first_from-none limit 0 accept c e (omega arith) (omega arith)
or_first-none limit accept (some d) c e h = cc

-- What a search returns is acceptable.
pub choose-accept :
    (limit : ℕ) (accept : ℕ → Bool) (r : Random) (c : ℕ)
    → (choose limit accept r).0 ≡ some c
    → accept c ≡ true
unfolding choose
choose-accept limit accept r c e =
    or_first-accept limit accept _ c (try_random-accept placement_tries limit accept r) e

-- A search fails only if no candidate below the limit is acceptable.
pub choose-none :
    (limit : ℕ) (accept : ℕ → Bool) (r : Random) (c : ℕ)
    → (choose limit accept r).0 ≡ none
    → c < limit
    → accept c ≡ false
unfolding choose
choose-none limit accept r c e h = or_first-none limit accept _ c e h
