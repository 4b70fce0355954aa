-- ===== src/Common/Blank.antt =====
-- White space and characters in UTF-8: `strings.TrimSpace` and `utf8.RuneCountInString`.
use Prim.Native.Nat.{ℕ, zero, suc}
use mathlib.Core.Bool.{Bool, true, false, ◌&&◌, ◌||◌}
use mathlib.Core.List.{[], ◌∷◌}
use mathlib.Core.Option.{Option, none, some}
use fallout_terminal.Common.Strings.{Bytes}
use fallout_terminal.Common.Tests.{leb, ◌==◌, if◌then◌else◌}

-- What has been read of a character: nothing yet, or its first bytes.
pub data SpaceState : Type 0 where
  between c2 e1 e1_9a e2 e2_80 e2_81 e3 e3_80 : SpaceState

abbrev only_if : Bool → SpaceState → Option SpaceState
only_if true s = some s
only_if false s = none

-- White space is tab to carriage return, space, U+0085, U+00A0, U+1680, U+2000 to U+200A, U+2028,
-- U+2029, U+202F, U+205F and U+3000.
space_step : SpaceState → ℕ → Option SpaceState
space_step between c =
    if leb 9 c && leb c 13 || c == 32
    then some between
    else if c == 0xc2
    then some c2
    else if c == 0xe1
    then some e1
    else if c == 0xe2
    then some e2
    else only_if (c == 0xe3) e3
space_step c2 c = only_if (c == 0x85 || c == 0xa0) between
space_step e1 c = only_if (c == 0x9a) e1_9a
space_step e1_9a c = only_if (c == 0x80) between
space_step e2 c = if c == 0x80 then some e2_80 else only_if (c == 0x81) e2_81
space_step e2_80 c =
    only_if (leb 0x80 c && leb c 0x8a || c == 0xa8 || c == 0xa9 || c == 0xaf) between
space_step e2_81 c = only_if (c == 0x9f) between
space_step e3 c = only_if (c == 0x80) e3_80
space_step e3_80 c = only_if (c == 0x80) between

abbrev at_rest : SpaceState → Bool
at_rest between = true
at_rest _ = false

blank_from : SpaceState → Bytes → Bool
blank_from s [] = at_rest s
blank_from s (c ∷ cs) = elim (space_step s c) [ none ↦ false | some t ↦ blank_from t cs ]

-- `strings.TrimSpace(s) == ""`: all of `s` is white space.
unfoldable pub is_blank : Bytes → Bool
unfolding blank_from space_step
is_blank text = blank_from between text

-- The text behind the white space in front; `kept` starts at the last character that is not read
-- to its end.
trim_from : SpaceState → Bytes → Bytes → Bytes
trim_from s kept [] = if at_rest s then [] else kept
trim_from s kept (c ∷ cs) = elim (space_step s c) [
  | none ↦ kept
  | some t ↦ if at_rest t then trim_from t cs cs else trim_from t kept cs
]

trim_end : Bytes → Bytes
unfolding is_blank
trim_end [] = []
trim_end (c ∷ cs) = let rest = trim_end cs in if is_blank (c ∷ cs) then [] else c ∷ rest

-- `strings.TrimSpace`.
unfoldable pub trim_space : Bytes → Bytes
unfolding trim_from trim_end
trim_space text = trim_end (trim_from between text text)

abbrev within : ℕ → ℕ → Bytes → Bool
within low high [] = false
within low high (c ∷ cs) = leb low c && leb c high

abbrev rest : Bytes → Bytes
rest [] = []
rest (c ∷ cs) = cs

-- How many bytes follow the first one, `c`, in its character; a byte that starts none is one by
-- itself.
abbrev follow_two : ℕ → ℕ → Bytes → ℕ
follow_two low high cs = if within low high cs && within 0x80 0xbf (rest cs) then 2 else 0

abbrev follow_three : ℕ → ℕ → Bytes → ℕ
follow_three low high cs =
    if within low high cs && within 0x80 0xbf (rest cs) && within 0x80 0xbf (rest (rest cs))
    then 3
    else 0

followers : ℕ → Bytes → ℕ
followers c cs =
    if leb 0xc2 c && leb c 0xdf
    then if within 0x80 0xbf cs then 1 else 0
    else if c == 0xe0
    then follow_two 0xa0 0xbf cs
    else if c == 0xed
    then follow_two 0x80 0x9f cs
    else if leb 0xe1 c && leb c 0xef
    then follow_two 0x80 0xbf cs
    else if c == 0xf0
    then follow_three 0x90 0xbf cs
    else if leb 0xf1 c && leb c 0xf3
    then follow_three 0x80 0xbf cs
    else if c == 0xf4
    then follow_three 0x80 0x8f cs
    else 0

characters : ℕ → Bytes → ℕ
unfolding followers
characters skip [] = 0
characters zero (c ∷ cs) = suc (characters (followers c cs) cs)
characters (suc skip) (c ∷ cs) = characters skip cs

-- `utf8.RuneCountInString`.
unfoldable pub rune_count : Bytes → ℕ
unfolding characters
rune_count text = characters 0 text
