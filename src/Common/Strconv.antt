-- ===== src/Common/Strconv.antt =====
-- `strconv.Atoi`, and the verbs `%d` and `%X` of `fmt`.
use Prim.Native.Nat.{ℕ, zero, suc, ◌+◌, ◌*◌, ◌-◌, ◌/◌, ◌%◌, ◌^◌, ◌<◌}
use mathlib.Core.Bool.{Bool, ◌&&◌}
use mathlib.Core.List.{[], ◌∷◌}
use mathlib.Core.Logic.{◌≢◌, inl, inr}
use mathlib.Core.Option.{Option, none, some}
use mathlib.Core.Path.{◌≡◌, ap, sym, ◌∙◌}
use native.Mathlib.Omega.{arith}
use fallout_terminal.Common.Lists.{All}
use fallout_terminal.Common.Strings.{Bytes, IsBytes}
use fallout_terminal.Common.Ints.{ℤ, pos, negsuc}
use fallout_terminal.Common.Tests.{◌==◌, leb, ltb, if◌then◌else◌, Bool-cases}

-- The decimal digits of `n` in front of `rest`; `suc n` rounds are enough for `n`.
decimal_onto : ℕ → ℕ → Bytes → Bytes
decimal_onto zero n rest = rest
decimal_onto (suc fuel) n rest =
    let more = decimal_onto fuel (n / 10) ((b'0' + n % 10) ∷ rest) in
    if ltb n 10 then (b'0' + n) ∷ rest else more

-- `%d` of a number that is not negative.
unfoldable pub decimal : ℕ → Bytes
unfolding decimal_onto
decimal n = decimal_onto (suc n) n []

is_digit : ℕ → Bool
is_digit c = leb b'0' c && leb c b'9'

-- The value of a run of digits that follows digits of the value `acc`.
digits_onto : ℕ → Bytes → Option ℕ
digits_onto acc [] = some acc
digits_onto acc (c ∷ cs) =
    let rest = digits_onto (acc * 10 + (c - b'0')) cs in if is_digit c then rest else none

abbrev in_range : ℕ → Option ℕ → Option ℕ
in_range bound none = none
in_range bound (some n) = if leb n bound then some n else none

unsigned : ℕ → Bytes → Option ℕ
unfolding digits_onto is_digit
unsigned bound [] = none
unsigned bound (c ∷ cs) = in_range bound (digits_onto 0 (c ∷ cs))

abbrev negated : Option ℕ → Option ℤ
negated none = none
negated (some zero) = some (pos 0)
negated (some (suc n)) = some (negsuc n)

abbrev as_int : Option ℕ → Option ℤ
as_int none = none
as_int (some n) = some (pos n)

-- `strconv.Atoi` with a 64-bit `int`: `none` where it returns an error.
unfoldable pub atoi : Bytes → Option ℤ
unfolding unsigned
atoi [] = none
atoi (c ∷ cs) =
    if c == b'-'
    then negated (unsigned (2 ^ 63) cs)
    else if c == b'+'
    then as_int (unsigned (2 ^ 63 - 1) cs)
    else as_int (unsigned (2 ^ 63 - 1) (c ∷ cs))

hex_digit : ℕ → ℕ
hex_digit d = if ltb d 10 then b'0' + d else b'A' + d - 10

-- `0x%04X` of a number below 0x10000.
unfoldable pub hex_address : ℕ → Bytes
unfolding hex_digit
hex_address n =
    b'0'
    ∷ b'x'
    ∷ hex_digit (n / 4096 % 16)
    ∷ hex_digit (n / 256 % 16)
    ∷ hex_digit (n / 16 % 16)
    ∷ hex_digit (n % 16)
    ∷ []

lower_hex_digit : ℕ → ℕ
lower_hex_digit d = if ltb d 10 then b'0' + d else b'a' + d - 10

-- `%x` of a byte slice.
unfoldable pub hex_text : Bytes → Bytes
unfolding lower_hex_digit
hex_text [] = []
hex_text (b ∷ bs) = lower_hex_digit (b / 16 % 16) ∷ lower_hex_digit (b % 16) ∷ hex_text bs

digits_onto-decimal_onto :
    (fuel n : ℕ) (rest : Bytes)
    → n < fuel
    → digits_onto 0 (decimal_onto fuel n rest) ≡ digits_onto n rest
unfolding digits_onto decimal_onto is_digit
digits_onto-decimal_onto zero n rest h = absurd (omega arith)
digits_onto-decimal_onto (suc fuel) n rest h = elim (Bool-cases (ltb n 10)) [
  | inl small ↦ ground arith
  | inr large ↦ rw large (
      digits_onto-decimal_onto fuel (n / 10) _ (ground arith)
      ∙ ground (arith, ap (λ (k : ℕ). digits_onto k rest) (divided n)))
]
  where
    divided : (n : ℕ) → n / 10 * 10 + (b'0' + n % 10 - b'0') ≡ n
    divided n = omega arith

-- Reading what `%d` prints gives the number back.
digits_onto-decimal : (n : ℕ) → digits_onto 0 (decimal n) ≡ some n
unfolding decimal digits_onto
digits_onto-decimal n = digits_onto-decimal_onto (suc n) n [] (omega arith)

-- `%d` prints different numbers differently.
pub decimal_injective : (m n : ℕ) → decimal m ≡ decimal n → m ≡ n
decimal_injective m n e =
    let same = sym (digits_onto-decimal m) ∙ ap (digits_onto 0) e ∙ digits_onto-decimal n in cc same

decimal_onto-All :
    (P : ℕ → Type 0) (fuel n : ℕ) (rest : Bytes)
    → ((d : ℕ) → d < 10 → P (b'0' + d))
    → All P rest
    → All P (decimal_onto fuel n rest)
unfolding decimal_onto
decimal_onto-All P zero n rest digit h = h
decimal_onto-All P (suc fuel) n rest digit h = elim (Bool-cases (ltb n 10)) [
  | inl small ↦ rw small (digit n (ground arith), h)
  | inr large ↦
      rw large (decimal_onto-All P fuel (n / 10) _ digit (digit (n % 10) (omega arith), h))
]

-- The digits of a number are bytes other than zero.
pub decimal-pos : (n : ℕ) → All (λ c. 0 < c) (decimal n)
unfolding decimal
decimal-pos n = decimal_onto-All _ (suc n) n [] (λ d h. omega arith) tt

pub decimal-IsBytes : (n : ℕ) → IsBytes (decimal n)
unfolding decimal
decimal-IsBytes n = decimal_onto-All _ (suc n) n [] (λ d h. omega arith) tt

abbrev pub HasNoColon : Bytes → Type 0
HasNoColon = All (λ c. c ≢ b':')

decimal_onto-HasNoColon :
    (fuel n : ℕ) (rest : Bytes) → HasNoColon rest → HasNoColon (decimal_onto fuel n rest)
unfolding decimal_onto
decimal_onto-HasNoColon zero n rest h = h
decimal_onto-HasNoColon (suc fuel) n rest h = elim (Bool-cases (ltb n 10)) [
  | inl small ↦ rw (small, decimal_onto) (λ e. absurd (ground arith), h)
  | inr large ↦
      rw (large, decimal_onto)
        (decimal_onto-HasNoColon fuel (n / 10) ((b'0' + n % 10) ∷ rest)
          (λ e. absurd (omega arith), h))
]

-- `%d` prints no colon.
pub decimal-HasNoColon : (n : ℕ) → HasNoColon (decimal n)
unfolding decimal
decimal-HasNoColon n = decimal_onto-HasNoColon (suc n) n [] tt
