-- ===== src/Hack/PatternId.antt =====
-- internal/hack/hack.go: `patternID`, with `base64.RawURLEncoding`.
pub mod Injective
use fallout_terminal.Common.{
  ℕ, ◌+◌, ◌-◌, ◌*◌, ◌/◌, ◌%◌, List, [], ◌∷◌, ◌++◌, Bytes, ltb, ◌==◌, if◌then◌else◌, decimal,
}
use fallout_terminal.Domain.Hack.{HackPatternIdentity}

-- The URL alphabet of base64: A-Z, a-z, 0-9, `-`, `_`.
unfoldable pub base64_digit : ℕ → ℕ
base64_digit d =
    if ltb d 26
    then b'A' + d
    else if ltb d 52
    then b'a' + d - 26
    else if ltb d 62
    then b'0' + d - 52
    else if d == 62
    then b'-'
    else b'_'

-- Three bytes make four digits; one or two bytes at the end make two or three, with no padding.
unfoldable pub base64 : Bytes → Bytes
unfolding base64_digit
base64 [] = []
base64 (a ∷ []) = base64_digit (a / 4) ∷ base64_digit (a % 4 * 16) ∷ []
base64 (a ∷ b ∷ []) =
    base64_digit (a / 4) ∷ base64_digit (a % 4 * 16 + b / 16) ∷ base64_digit (b % 16 * 4) ∷ []
base64 (a ∷ b ∷ c ∷ rest) =
    base64_digit (a / 4)
    ∷ base64_digit (a % 4 * 16 + b / 16)
    ∷ base64_digit (b % 16 * 4 + c / 64)
    ∷ base64_digit (c % 64)
    ∷ base64 rest

unfoldable pub raw_id : HackPatternIdentity → Bytes
raw_id identity =
    ((identity.generation_id ++ (0 ∷ decimal identity.row)) ++ (0 ∷ decimal identity.start))
    ++ (0 ∷ decimal identity.end)

unfoldable pub pattern_id : HackPatternIdentity → Bytes
unfolding base64 raw_id
pattern_id identity = base64 (raw_id identity)
