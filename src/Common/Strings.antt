-- ===== src/Common/Strings.antt =====
-- Go strings as their bytes: equality, UTF-8 of text literals, and the functions of `strings`
-- that the program calls.
use Prim.Native.Char.{code}
use Prim.Native.Nat.{ℕ, suc, ◌+◌, ◌/◌, ◌%◌, ◌<◌}
use Prim.Native.String.{String}
use mathlib.Core.Bool.{Bool, true, false, ◌&&◌}
use mathlib.Core.List.{List, [], ◌∷◌, ◌++◌}
use mathlib.Core.Logic.{◌↔◌}
use mathlib.Core.Option
use mathlib.Core.Option.{Option, none, some}
use mathlib.Core.Path.{◌≡◌, refl}
use native.Mathlib.Omega.{arith}
use fallout_terminal.Common.Lists.{All}
use fallout_terminal.Common.Tests.{◌==◌, ltb, if◌then◌else◌}

abbrev pub Bytes : Type 0
Bytes = List ℕ

-- What a Go string holds.
abbrev pub IsBytes : Bytes → Type 0
IsBytes text = All (λ c. c < 256) text

-- `==` on strings.
unfoldable pub equal : Bytes → Bytes → Bool
equal [] [] = true
equal (x ∷ xs) (y ∷ ys) = x == y && equal xs ys
equal _ _ = false

pub equal_iff : (s t : Bytes) → (equal s t ≡ true) ↔ (s ≡ t)
unfolding equal
equal_iff [] [] = ground arith
equal_iff [] (d ∷ t) = ground arith
equal_iff (c ∷ s) [] = ground arith
equal_iff (c ∷ s) (d ∷ t) = let rest = equal_iff s t in ground (arith, rest)

pub equal_refl : (a : Bytes) → equal a a ≡ true
equal_refl a = (equal_iff a a).1 refl

-- The UTF-8 encoding of a code point, as `string(rune)` gives it.
unfoldable pub encode_rune : ℕ → Bytes
encode_rune c =
    if ltb c 0x80
    then c ∷ []
    else if ltb c 0x800
    then (0xc0 + c / 64) ∷ (0x80 + c % 64) ∷ []
    else if ltb c 0x10000
    then (0xe0 + c / 4096) ∷ (0x80 + c / 64 % 64) ∷ (0x80 + c % 64) ∷ []
    else (0xf0 + c / 262144) ∷ (0x80 + c / 4096 % 64) ∷ (0x80 + c / 64 % 64) ∷ (0x80 + c % 64) ∷ []

-- The bytes of a text literal.
unfoldable pub utf8 : String → Bytes
unfolding encode_rune
utf8 String.[] = []
utf8 (String.◌∷◌ c s) = encode_rune (code c) ++ utf8 s

-- `strings.IndexByte`.
unfoldable pub index_byte : Bytes → ℕ → Option ℕ
index_byte [] b = none
index_byte (c ∷ cs) b = if c == b then some 0 else Option.map suc (index_byte cs b)

-- `strings.Split` at a one-byte separator: the part in front, then the others.
unfoldable pub split : ℕ → Bytes → List Bytes
split sep [] = [] ∷ []
split sep (c ∷ cs) = elim (split sep cs) [
  | [] ↦ []
  | part ∷ parts ↦ if c == sep then [] ∷ part ∷ parts else (c ∷ part) ∷ parts
]

-- `strings.Join`.
unfoldable pub join : Bytes → List Bytes → Bytes
join sep [] = []
join sep (part ∷ []) = part
join sep (part ∷ other ∷ parts) = part ++ (sep ++ join sep (other ∷ parts))
