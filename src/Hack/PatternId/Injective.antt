-- ===== src/Hack/PatternId/Injective.antt =====
-- Pattern IDs stand for one identity each.
use fallout_terminal.Common.{
  ℕ, ◌+◌, ◌-◌, ◌*◌, ◌/◌, ◌%◌, ◌<◌, [], ◌∷◌, ◌++◌, Bytes, ltb, ◌==◌, if◌then◌else◌, decimal,
  decimal_injective, All, All-append, ◌≡◌, refl, sym, ap, ◌∙◌, arith, decimal-pos, decimal-IsBytes,
  IsBytes,
}
use fallout_terminal.Domain.Hack.{HackPatternIdentity}
use fallout_terminal.Hack.PatternId.{base64_digit, base64, raw_id, pattern_id}

undigit : ℕ → ℕ
undigit c =
    if c == b'_'
    then 63
    else if c == b'-'
    then 62
    else if ltb c b'A'
    then c + 52 - b'0'
    else if ltb c b'a'
    then c - b'A'
    else c + 26 - b'a'

undigit-base64_digit : (d : ℕ) → d < 64 → undigit (base64_digit d) ≡ d
unfolding undigit base64_digit
undigit-base64_digit d h = ground arith

unbase64 : Bytes → Bytes
unbase64 (p ∷ q ∷ []) = (undigit p * 4 + undigit q / 16) ∷ []
unbase64 (p ∷ q ∷ r ∷ []) =
    (undigit p * 4 + undigit q / 16) ∷ (undigit q % 16 * 16 + undigit r / 4) ∷ []
unbase64 (p ∷ q ∷ r ∷ s ∷ rest) =
    (undigit p * 4 + undigit q / 16)
    ∷ (undigit q % 16 * 16 + undigit r / 4)
    ∷ (undigit r % 4 * 64 + undigit s)
    ∷ unbase64 rest
unbase64 _ = []

-- Three bytes come back from their four digits.
group :
    (a b c : ℕ)
    → a < 256
    → b < 256
    → c < 256
    → (undigit (base64_digit (a / 4)) ≡ a / 4)
      × (undigit (base64_digit (a % 4 * 16 + b / 16)) ≡ a % 4 * 16 + b / 16)
      × (undigit (base64_digit (b % 16 * 4 + c / 64)) ≡ b % 16 * 4 + c / 64)
      × (undigit (base64_digit (c % 64)) ≡ c % 64)
      × (undigit (base64_digit (a % 4 * 16)) ≡ a % 4 * 16)
      × (undigit (base64_digit (b % 16 * 4)) ≡ b % 16 * 4)
group a b c ha hb hc = (
  undigit-base64_digit _ (omega arith),
  undigit-base64_digit _ (omega arith),
  undigit-base64_digit _ (omega arith),
  undigit-base64_digit _ (omega arith),
  undigit-base64_digit _ (omega arith),
  undigit-base64_digit _ (omega arith),
)

unbase64-base64 : (bytes : Bytes) → IsBytes bytes → unbase64 (base64 bytes) ≡ bytes
unfolding unbase64 base64
unbase64-base64 [] h = refl
unbase64-base64 (a ∷ []) h = ground (arith, group a 0 0 h.0)
unbase64-base64 (a ∷ b ∷ []) h = ground (arith, group a b 0 h.0 h.1.0)
unbase64-base64 (a ∷ b ∷ c ∷ rest) h =
    ground (arith, group a b c h.0 h.1.0 h.1.1.0, unbase64-base64 rest h.1.1.1)

zero_inside : (b x y : Bytes) → x ≡ b ++ (0 ∷ y) → All (λ c. 0 < c) x → ⊥
zero_inside [] [] y e h = cc
zero_inside [] (c ∷ x) y e h = ground (arith, h.0)
zero_inside (d ∷ b) [] y e h = cc
zero_inside (d ∷ b) (c ∷ x) y e h = zero_inside b x y (ground arith) h.1

-- The last zero byte divides a text in one way.
last_zero :
    (a b x y : Bytes)
    → All (λ c. 0 < c) x
    → All (λ c. 0 < c) y
    → a ++ (0 ∷ x) ≡ b ++ (0 ∷ y)
    → (a ≡ b) × (x ≡ y)
last_zero [] [] x y hx hy e = ground arith
last_zero [] (d ∷ b) x y hx hy e = absurd (zero_inside b x y (ground arith) hx)
last_zero (c ∷ a) [] x y hx hy e = absurd (zero_inside a y x (ground arith) hy)
last_zero (c ∷ a) (d ∷ b) x y hx hy e = ground (arith, last_zero a b x y hx hy)

raw_id-IsBytes : (i : HackPatternIdentity) → IsBytes i.generation_id → IsBytes (raw_id i)
unfolding raw_id
raw_id-IsBytes i h =
    All-append _ _ (0 ∷ decimal i.end)
      (All-append _ _ (0 ∷ decimal i.start)
        (All-append _ _ (0 ∷ decimal i.row) h (omega arith, decimal-IsBytes i.row))
        (omega arith, decimal-IsBytes i.start))
      (omega arith, decimal-IsBytes i.end)

raw_id_injective : (i j : HackPatternIdentity) → raw_id i ≡ raw_id j → i ≡ j
unfolding raw_id
raw_id_injective i j e =
    let (front, same_end) = last_zero _ _ _ _ (decimal-pos i.end) (decimal-pos j.end) e in
    let (first, same_start) = last_zero _ _ _ _ (decimal-pos i.start) (decimal-pos j.start) front in
    let (same_id, same_row) = last_zero _ _ _ _ (decimal-pos i.row) (decimal-pos j.row) first in
    ground (
      arith,
      decimal_injective i.row j.row same_row,
      decimal_injective i.start j.start same_start,
      decimal_injective i.end j.end same_end,
      same_id,
    )

-- Two identities, over generation IDs of bytes, that have the same pattern ID are the same: a
-- client cannot name one pattern by the ID of another, nor of another generation.
pub pattern_id_injective :
    (i j : HackPatternIdentity)
    → IsBytes i.generation_id
    → IsBytes j.generation_id
    → pattern_id i ≡ pattern_id j
    → i ≡ j
unfolding pattern_id
pattern_id_injective i j hi hj e = raw_id_injective i j (
    sym (unbase64-base64 _ (raw_id-IsBytes i hi))
    ∙ ap unbase64 e
    ∙ unbase64-base64 _ (raw_id-IsBytes j hj))
