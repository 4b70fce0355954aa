-- ===== src/Hack/Generate.antt =====
-- internal/hack/hack.go: `GenerateBoard` and `generateBoardAttempt`.
pub mod Layout
pub mod Candidates
pub mod Final
use fallout_terminal.Common.{
  ℕ, zero, suc, ◌+◌, ◌-◌, ◌%◌, Bool, true, false, not, ◌&&◌, ◌||◌, Option, none, some, List, [],
  ◌∷◌, ◌++◌, ℤ, pos, negsuc, min_ℤ, max_ℤ, leb_ℤ, Bytes, Dict, leb, ltb, ◌==◌, if◌then◌else◌,
  length, get_or, take, insert, hex_text,
}
use fallout_terminal.Domain.Hack.{HackWord, HackColumn, HackCandidate, HackState}
use fallout_terminal.Hack.Attempt.{Attempt, succeed, give_up, draw, or_else, ◌>>=◌}
use fallout_terminal.Common.{is_blank}
use fallout_terminal.Hack.Builder.{Builder, new_column_builder, place}
use fallout_terminal.Hack.Camouflage.{classify_final_board, publishable}
use fallout_terminal.Hack.Finish.{finish}
use fallout_terminal.Hack.Random.{Random, safe_intn, placement_tries}
use fallout_terminal.Hack.Spans.{place_interrupted_span, place_pattern, place_delimiter_decoy}
use fallout_terminal.Hack.WordBank.{pick_words, normalize_candidates, supplement_candidates}

abbrev pub maximum_attempts : ℕ
maximum_attempts = 4

-- `patternPairs` and `delimiterClosers`.
abbrev pub pattern_pairs : List Bytes
pattern_pairs =
    (b'(' ∷ b')' ∷ []) ∷ (b'[' ∷ b']' ∷ []) ∷ (b'{' ∷ b'}' ∷ []) ∷ (b'<' ∷ b'>' ∷ []) ∷ []

abbrev pub delimiter_closers : Bytes
delimiter_closers = b')' ∷ b']' ∷ b'}' ∷ b'>' ∷ []

pub record Builders : Type 0 where
  pub column_a : Builder
  pub column_b : Builder

abbrev pub pick : Bool → Builders → Builder
pick a bs = if a then bs.column_a else bs.column_b

abbrev pub put_back : Bool → Builders → Builder → Builders
put_back a bs b = if a then record bs { column_a = b } else record bs { column_b = b }

unfoldable pub on_builder : (Builder → Attempt Builder) → Bool → Builders → Attempt Builders
on_builder operation a bs = do b ← operation (pick a bs); succeed (put_back a bs b)

-- `first(primary) || second(secondary)`.
unfoldable pub on_either :
    (Builder → Attempt Builder) → (Builder → Attempt Builder) → Bool → Builders → Attempt Builders
unfolding on_builder
on_either first second a bs = or_else (on_builder first a bs) (on_builder second (not a) bs)

-- The candidates in turn, to one column and the other.
unfoldable pub place_candidates :
    List Bytes → ℕ → Builders → Dict HackCandidate → Attempt (Builders × Dict HackCandidate)
place_candidates [] index bs words = succeed (bs, words)
place_candidates (text ∷ texts) index bs words =
    let a = index % 2 == 0 in
    place (pick a bs) text (negsuc 0) >>= λ placed.
    place_candidates texts (index + 1) (put_back a bs placed.1)
      (insert placed.0 (record { text = text }) words)

abbrev pair_at : ℕ → Bytes
pair_at index = get_or pattern_pairs (index % 4) []

unfoldable pub place_interrupted_candidate_span : Builders → Attempt Builders
unfolding on_either
place_interrupted_candidate_span bs = do
  start ← draw 2
  offset ← draw 4
  on_either (place_interrupted_span (pair_at offset))
      (place_interrupted_span (pair_at (offset + 1))) (start == 0) bs

-- The length of the interior of pattern number `index`.
interior_length : ℕ → Attempt ℕ
interior_length zero = do n ← draw 3; succeed (n + 1)
interior_length (suc _) = do
  choice ← draw 2
  if choice == 1 then (do n ← draw 2; succeed (n + 1)) else succeed 0

-- `n` patterns are left; `index` of them are placed.
unfoldable pub place_patterns : ℕ → ℕ → ℕ → Builders → Attempt Builders
unfolding interior_length on_either
place_patterns zero index offset bs = succeed bs
place_patterns (suc n) index offset bs = interior_length index >>= λ interior.
    let place_one = place_pattern (pair_at (offset + index)) interior in
    on_either place_one place_one (index % 2 == 0) bs >>= λ placed.
    place_patterns n (index + 1) offset placed

unfoldable pub place_decoys : ℕ → ℕ → ℕ → Builders → Attempt Builders
unfolding on_either
place_decoys zero index offset bs = succeed bs
place_decoys (suc n) index offset bs =
    let place_one = place_delimiter_decoy (get_or delimiter_closers ((offset + index) % 4) 0) in
    on_either place_one place_one (index % 2 == 0) bs >>= λ placed.
    place_decoys n (index + 1) offset placed

finish_columns : Builders → Attempt (List HackColumn)
finish_columns bs r =
    let a = finish bs.column_a r in let b = finish bs.column_b a.1 in (some (a.0 ∷ b.0 ∷ []), b.1)

-- The arguments that an attempt keeps.
pub record Request : Type 0 where
  pub generation_id : Bytes
  pub level : ℤ
  pub word_length : ℕ
  pub secret_word : Bytes
  pub candidates : List Bytes

abbrev pub new_state : Request → Dict HackCandidate → List HackColumn → HackState
new_state request words columns = record {
  generation_id = request.generation_id;
  level = request.level;
  word_length = request.word_length;
  attempts_max = maximum_attempts;
  attempts_left = maximum_attempts;
  secret_word = request.secret_word;
  words_by_id = words;
  used_patterns = [];
  solved = false;
  failed = false;
  log = [];
  columns = columns;
}

-- `crypto/sha256` is not read here: it is the argument `sha256`.
module _ (sha256 : Bytes → Bytes) where
  abbrev pub new_builders : Bytes → Builders
  new_builders generation_id =
      let scope = hex_text (take 8 (sha256 generation_id)) in
      record {
        column_a = new_column_builder (scope ++ (b'-' ∷ b'A' ∷ []));
        column_b = new_column_builder (scope ++ (b'-' ∷ b'B' ∷ []));
      }

  -- `generateBoardAttempt`.
  unfoldable pub generate_board_attempt : Request → Attempt HackState
  unfolding place_candidates place_interrupted_candidate_span place_patterns place_decoys
      finish_columns
  generate_board_attempt request = do
    placed ← place_candidates request.candidates 0 (new_builders request.generation_id) []
    spanned ← place_interrupted_candidate_span placed.0
    extra ← draw 4
    offset ← draw 4
    bracketed ← place_patterns (3 + extra) 0 offset spanned
    hidden ← place_decoys (3 + extra) 0 offset bracketed
    columns ← finish_columns hidden
    succeed (new_state request placed.1 columns)

  -- The attempts up to the first board that may be published.
  unfoldable pub board_tries : ℕ → Request → Attempt HackState
  unfolding generate_board_attempt
  board_tries zero request r = (none, r)
  board_tries (suc n) request r =
      let tried = generate_board_attempt request r in
      let rest = board_tries n request tried.1 in
      elim tried.0 [
        | none ↦ rest
        | some state ↦
            if publishable (classify_final_board state) then (some state, tried.1) else rest
      ]
