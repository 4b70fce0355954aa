-- ===== src/Hack/Random.antt =====
-- internal/hack/hack.go: `Random`, `systemRandom`, `randomOrDefault` and `safeIntn`, and the two
-- search loops that board generation shares.
pub mod Laws
use fallout_terminal.Common.{
  ℕ, zero, suc, ◌+◌, ◌-◌, ◌*◌, ◌%◌, Bool, Option, none, some, List, [], ◌∷◌, ℤ, pos, negsuc, Bytes,
  leb, ◌==◌, if◌then◌else◌,
}

-- A random source is an interface value with a state of its own. It is given by its answers: the
-- answer to call number `i`, at the limit asked for.
pub record Random : Type 0 where
  pub answer : ℕ → ℕ → ℤ
  pub calls : ℕ

abbrev pub intn : Random → ℕ → ℤ × Random
intn r limit = (r.answer r.calls limit, record r { calls = r.calls + 1 })

-- `binary.LittleEndian.Uint64`.
little_endian : Bytes → ℕ
little_endian [] = 0
little_endian (b ∷ bs) = b + 256 * little_endian bs

-- `systemRandom.Intn`; the argument is what `crypto/rand` reads, `none` where it fails.
unfoldable pub system_intn : Option Bytes → ℕ → ℤ
unfolding little_endian
system_intn none limit = pos 0
system_intn (some bytes) limit = if leb limit 1 then pos 0 else pos (little_endian bytes % limit)

abbrev pub system_random : (ℕ → Option Bytes) → Random
system_random reads = record { answer = λ call limit. system_intn (reads call) limit; calls = 0 }

abbrev pub random_or_default : Option Random → (ℕ → Option Bytes) → Random
random_or_default none reads = system_random reads
random_or_default (some r) reads = r

-- `value %= limit`, which keeps the sign of `value` in Go, and the step that makes it positive.
unfoldable pub reduce : ℤ → ℕ → ℕ
reduce (pos n) limit = n % limit
reduce (negsuc n) limit = let m = suc n % limit in if m == 0 then 0 else limit - m

unfoldable pub safe_intn : Random → ℕ → ℕ × Random
unfolding reduce
safe_intn r limit =
    if leb limit 1 then (0, r) else (reduce (intn r limit).0 limit, (intn r limit).1)

-- `for range placementTries { c := safeIntn(random, limit); if accept(c) { return c } }`.
unfoldable pub try_random : ℕ → ℕ → (ℕ → Bool) → Random → Option ℕ × Random
try_random zero limit accept r = (none, r)
try_random (suc n) limit accept r =
    let drawn = safe_intn r limit in
    let rest = try_random n limit accept drawn.1 in
    if accept drawn.0 then (some drawn.0, drawn.1) else rest

-- `for c := from; c < from+n; c++ { if accept(c) { return c } }`.
unfoldable pub first_from : ℕ → ℕ → (ℕ → Bool) → Option ℕ
first_from zero from accept = none
first_from (suc n) from accept =
    let rest = first_from n (from + 1) accept in if accept from then some from else rest

abbrev or_first : Option ℕ → ℕ → (ℕ → Bool) → Option ℕ
or_first (some c) limit accept = some c
or_first none limit accept = first_from limit 0 accept

abbrev pub placement_tries : ℕ
placement_tries = 300

-- The tries at random, and then the candidates in order.
unfoldable pub choose : ℕ → (ℕ → Bool) → Random → Option ℕ × Random
choose limit accept r =
    let tried = try_random placement_tries limit accept r in
    (or_first tried.0 limit accept, tried.1)
