-- ===== src/Hack/Builder.antt =====
-- internal/hack/hack.go: `columnBuilder`. The random source that the two builders share is passed
-- along; a method that refuses leaves the builder as it was.
pub mod Extends
pub mod Layout
pub mod Words
use fallout_terminal.Common.{
  ℕ, zero, suc, ◌+◌, ◌-◌, ◌*◌, ◌/◌, ◌%◌, min, Bool, true, false, not, ◌&&◌, ◌||◌, Option, none,
  some, List, [], ◌∷◌, ◌++◌, map, ℤ, pos, negsuc, Bytes, leb, ltb, ◌==◌, if◌then◌else◌, length,
  get_elem?, get_or, take, drop, replicate, any, utf8, decimal, hex_address,
}
use fallout_terminal.Domain.Hack.{HackWord, HackColumn}
use fallout_terminal.Hack.Random.{Random, safe_intn, first_from, choose}
use fallout_terminal.Hack.Scan.{board_row_width}

abbrev pub board_rows : ℕ
board_rows = 16

abbrev pub column_chars : ℕ
column_chars = 192

abbrev pub word_gap : ℕ
word_gap = 4

abbrev pub filler_pool : Bytes
filler_pool = utf8 "!@#$%^&*_+-=\\|;:'\",./?~"

pub record Builder : Type 0 where
  pub prefix : Bytes
  pub chars : Bytes
  pub used : List Bool
  pub words : List HackWord
  pub next_id : ℕ

unfoldable pub new_column_builder : Bytes → Builder
new_column_builder prefix = record {
  prefix = prefix;
  chars = replicate column_chars 0;
  used = replicate column_chars false;
  words = [];
  next_id = 1;
}

-- Writes one value after another from index `start` on: `copy`, or a loop of assignments.
unfoldable pub overwrite {ℓ} : {A : Type ℓ} → List A → ℕ → List A → List A
overwrite [] start vs = []
overwrite (x ∷ xs) zero [] = x ∷ xs
overwrite (x ∷ xs) zero (v ∷ vs) = v ∷ overwrite xs zero vs
overwrite (x ∷ xs) (suc start) vs = x ∷ overwrite xs start vs

-- Some place of [from, to) is taken.
unfoldable pub any_used : List Bool → ℕ → ℕ → Bool
any_used used from to = any (λ (u : Bool). u) (take (to - from) (drop from used))

-- `canPlace` at a start that is not negative.
unfoldable pub can_place : Builder → ℕ → ℕ → Bool
unfolding any_used
can_place b start length_ =
    not (length_ == 0)
    && leb (start + length_) (length b.chars)
    && not (any_used b.used (start - word_gap) (min (length b.chars) (start + length_ + word_gap)))

unfoldable pub random_start : Builder → ℕ → Random → Option ℕ × Random
unfolding choose can_place
random_start b length_ r =
    choose (column_chars + 1 - length_) (λ start. can_place b start length_) r

unfoldable pub mark : List Bool → ℕ → ℕ → List Bool
unfolding overwrite
mark used start length_ = overwrite used start (replicate length_ true)

-- The builder with the word put in.
unfoldable pub put_word : Builder → Bytes → ℕ → Builder
unfolding mark
put_word b text start = record b {
  chars = overwrite b.chars start text;
  used = mark b.used start (length text);
  words =
      b.words
      ++ (record { id = b.prefix ++ decimal b.next_id; start = start; length = length text } ∷ []);
  next_id = b.next_id + 1;
}

unfoldable pub place_at : Builder → Bytes → ℕ → Option (Bytes × Builder)
unfolding can_place put_word
place_at b text start =
    if can_place b start (length text)
    then some (b.prefix ++ decimal b.next_id, put_word b text start)
    else none

-- `place`: a negative start asks for a random one.
unfoldable pub place : Builder → Bytes → ℤ → Random → Option (Bytes × Builder) × Random
unfolding place_at random_start
place b text (pos start) r = (place_at b text start, r)
place b text (negsuc _) r =
    let found = random_start b (length text) r in
    (elim found.0 [ none ↦ none | some start ↦ place_at b text start ], found.1)
