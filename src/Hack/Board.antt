-- ===== src/Hack/Board.antt =====
-- internal/hack/hack.go: `GenerateBoard`, from the choice of words to the board.
pub mod Candidates
pub mod Boards
pub mod Winnable
use fallout_terminal.Common.{
  ℕ, ◌+◌, Bool, Option, none, some, List, [], ◌∷◌, ℤ, pos, negsuc, pos_part, min_ℤ, max_ℤ, leb_ℤ,
  Bytes, leb, ltb, ◌==◌, ◌&&◌, if◌then◌else◌, length, get_or,
}
use fallout_terminal.Domain.Hack.{HackState}
use fallout_terminal.Hack.Attempt.{Attempt, give_up, draw, ◌>>=◌}
use fallout_terminal.Common.{is_blank}
use fallout_terminal.Hack.Generate.{Request, board_tries}
use fallout_terminal.Hack.Random.{Random, placement_tries}
use fallout_terminal.Hack.WordBank.{pick_words, normalize_candidates, supplement_candidates}

abbrev clamp : ℤ → ℤ → ℤ → ℤ
clamp value low high = min_ℤ (max_ℤ value low) high

unfoldable pub level_word_length : ℤ → ℕ
level_word_length level =
    if leb_ℤ (pos 1) level && leb_ℤ level (pos 5) then pos_part level + 3 else 4

unfoldable pub level_word_count : ℤ → ℕ
level_word_count level = 11 + pos_part (clamp level (pos 1) (pos 5))

-- `words.PickWords`; a nil source is the built-in bank on the same random source.
pick_from_source : Option (ℕ → ℕ → List Bytes) → ℕ → ℕ → Attempt (List Bytes)
pick_from_source none length_ count r =
    let picked = pick_words length_ count r in (some picked.0, picked.1)
pick_from_source (some source) length_ count r = (some (source length_ count), r)

-- The candidates of a board: those of the source, and words of the bank for what is missing.
unfoldable pub choose_candidates : Option (ℕ → ℕ → List Bytes) → ℕ → ℕ → Attempt (List Bytes)
unfolding pick_from_source
choose_candidates words length_ count = pick_from_source words length_ count >>= λ picked.
    let candidates = normalize_candidates picked length_ count in
    if ltb (length candidates) count
    then (pick_from_source none length_ count >>= λ fallback r.
        (some (supplement_candidates candidates fallback count), r))
    else λ r. (some candidates, r)

abbrev pub request_of : Bytes → ℤ → List Bytes → ℕ → Request
request_of generation_id level candidates index = record {
  generation_id = generation_id;
  level = level;
  word_length = level_word_length level;
  secret_word = get_or candidates index [];
  candidates = candidates;
}

-- `GenerateBoard`; the source passes a random source that is not nil on.
unfoldable pub generate_board :
    (Bytes → Bytes) → Bytes → ℤ → Option (ℕ → ℕ → List Bytes) → Attempt HackState
unfolding choose_candidates
generate_board sha256 generation_id level words =
    if is_blank generation_id
    then give_up
    else choose_candidates words (level_word_length level) (level_word_count level)
      >>= λ candidates.
          if length candidates == 0
          then give_up
          else draw (length candidates) >>= λ index.
              board_tries sha256 placement_tries (request_of generation_id level candidates index)
