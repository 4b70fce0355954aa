-- ===== src/Hack/Play/Guess.antt =====
-- What a guess does, on every branch.
use fallout_terminal.Common.{
  ℕ, ◌-◌, ◌≤◌, ◌<◌, true, false, ◌||◌, none, some, [], ◌∷◌, ◌++◌, Bytes, ◌==◌, leb, length,
  get_elem?, get_or, lookup, encode_rune, ◌≡◌, ◌≢◌, ◌↔◌, ◌⊎◌, inl, inr, refl, arith, Option-cases,
  Bool-cases,
}
use fallout_terminal.Domain.Hack.{HackCandidate, HackColumn, HackState}
use fallout_terminal.Hack.Play.{
  push_log, log_line, denied, matches_line, push_success_log, count_matches, spend_attempt,
  guess_word, guess_filler_at, guess_filler, parse_filler_target, contains_word, opens_pattern,
  apply_guess,
}
use fallout_terminal.Hack.Scan.{discover_pattern_spans}

count_matches-le : (c s : Bytes) → count_matches c s ≤ length s
unfolding count_matches
count_matches-le [] s = omega arith
count_matches-le (x ∷ c) [] = omega arith
count_matches-le (x ∷ c) (y ∷ s) = ground (arith, count_matches-le c s)

-- Against a secret of its own length, a word has as many matches as it has letters exactly when it
-- is the secret.
pub count_matches_full :
    (c s : Bytes) → length c ≡ length s → (count_matches c s ≡ length s) ↔ (c ≡ s)
unfolding count_matches
count_matches_full [] [] h = ground arith
count_matches_full [] (y ∷ s) h = absurd (omega arith)
count_matches_full (x ∷ c) [] h = absurd (omega arith)
count_matches_full (x ∷ c) (y ∷ s) h =
    ground (arith, count_matches-le c s, count_matches_full c s (omega arith))

abbrev pub IsOver : HackState → Type 0
IsOver state = (state.solved || state.failed) ≡ true

abbrev pub IsActive : HackState → Type 0
IsActive state = (state.solved || state.failed) ≡ false

-- What a guess leaves alone.
pub record SameBoard (s t : HackState) : Type 0 where
  pub same_generation : t.generation_id ≡ s.generation_id
  pub same_length : t.word_length ≡ s.word_length
  pub same_max : t.attempts_max ≡ s.attempts_max
  pub same_secret : t.secret_word ≡ s.secret_word
  pub same_words : t.words_by_id ≡ s.words_by_id
  pub same_used : t.used_patterns ≡ s.used_patterns
  pub same_columns : t.columns ≡ s.columns

-- A lost attempt: one less, and the game is lost with the last.
pub record Missed (s t : HackState) (shown : Bytes) (matches : ℕ) : Type 0 where
  pub board : SameBoard s t
  pub spent : t.attempts_left ≡ s.attempts_left - 1
  pub unsolved : t.solved ≡ s.solved
  pub lost : t.failed ≡ (s.failed || t.attempts_left == 0)
  pub logged :
      t.log
      ≡ ((s.log ++ (log_line shown ∷ [])) ++ (log_line denied ∷ []))
        ++ (log_line (matches_line matches s.word_length) ∷ [])

pub record Won (s t : HackState) (shown : Bytes) : Type 0 where
  pub board : SameBoard s t
  pub unspent : t.attempts_left ≡ s.attempts_left
  pub solved : t.solved ≡ true
  pub not_lost : t.failed ≡ s.failed

spend_attempt-Missed :
    (s : HackState) (shown : Bytes) (matches : ℕ)
    → Missed s (spend_attempt (push_log s (shown ∷ [])) matches) shown matches
unfolding spend_attempt
spend_attempt-Missed s shown matches = elim (Bool-cases (s.attempts_left - 1 == 0)) [
  | inl last ↦ record {
    board = ground arith;
    spent = ground arith;
    unsolved = ground arith;
    lost = ground arith;
    logged = ground arith;
  }
  | inr more ↦ record {
    board = ground arith;
    spent = ground arith;
    unsolved = ground arith;
    lost = ground arith;
    logged = ground arith;
  }
]

-- A guess at a finished game changes nothing.
pub apply_guess_over : (s : HackState) (target : Bytes) → IsOver s → apply_guess s target ≡ s
unfolding apply_guess
apply_guess_over s target h = rw h

guess_word-outcome :
    (s : HackState) (c : HackCandidate)
    → ((count_matches c.text s.secret_word ≡ s.word_length) × Won s (guess_word s c) c.text)
      ⊎ ((count_matches c.text s.secret_word ≢ s.word_length)
          × Missed s (guess_word s c) c.text (count_matches c.text s.secret_word))
unfolding guess_word push_success_log
guess_word-outcome s c = elim (Bool-cases (count_matches c.text s.secret_word == s.word_length)) [
  | inl all_ ↦ inl (
    ground arith,
    record {
      board = ground arith;
      unspent = ground arith;
      solved = ground arith;
      not_lost = ground arith;
    },
  )
  | inr some_ ↦ inr (
    ground arith,
    rw (some_, guess_word) (spend_attempt-Missed s c.text (count_matches c.text s.secret_word)),
  )
]

-- A guess of a candidate in an active game wins without spending an attempt exactly if it has as
-- many matches as the word length, and otherwise costs one attempt and logs the matches.
pub apply_guess_word :
    (s : HackState) (target : Bytes) (c : HackCandidate)
    → IsActive s
    → lookup target s.words_by_id ≡ some c
    → ((count_matches c.text s.secret_word ≡ s.word_length) × Won s (apply_guess s target) c.text)
      ⊎ ((count_matches c.text s.secret_word ≢ s.word_length)
          × Missed s (apply_guess s target) c.text (count_matches c.text s.secret_word))
unfolding apply_guess
apply_guess_word s target c active known = rw (active, known, apply_guess) (guess_word-outcome s c)

-- The place of a filler character: no word covers it and no pattern opens there.
pub record IsFiller (s : HackState) (target : Bytes) (shown : ℕ) : Type 0 where
  pub column_index : ℕ
  pub character_index : ℕ
  pub column : HackColumn
  pub parsed : parse_filler_target target ≡ some (column_index, character_index)
  pub column_at : get_elem? s.columns column_index ≡ some column
  pub on_board : character_index < length column.text
  pub no_word : contains_word column.words character_index ≡ false
  pub no_pattern :
      opens_pattern column_index character_index (discover_pattern_spans s.generation_id s.columns)
      ≡ false
  pub shown_is : get_or column.text character_index 0 ≡ shown

guess_filler_at-cases :
    (s : HackState) (ci chi : ℕ) (column : HackColumn)
    → (guess_filler_at s ci chi column ≡ s)
      ⊎ ((chi < length column.text)
          × (contains_word column.words chi ≡ false)
          × (opens_pattern ci chi (discover_pattern_spans s.generation_id s.columns) ≡ false)
          × Missed s (guess_filler_at s ci chi column) (encode_rune (get_or column.text chi 0)) 0)
unfolding guess_filler_at
guess_filler_at-cases s ci chi column =
    elim (Bool-cases (leb (length column.text) chi || contains_word column.words chi)) [
      | inl outside ↦ inl (rw outside)
      | inr inside ↦
          elim (Bool-cases
            (opens_pattern ci chi (discover_pattern_spans s.generation_id s.columns))) [
              | inl opens ↦ inl (rw (inside, opens))
              | inr plain ↦ inr (
                ground arith,
                ground arith,
                plain,
                rw (inside, plain, guess_filler_at) (spend_attempt-Missed s _ 0),
              )
            ]
    ]

guess_filler-cases :
    (s : HackState) (target : Bytes)
    → (guess_filler s (parse_filler_target target) ≡ s)
      ⊎ ((shown : ℕ) × IsFiller s target shown
          × Missed s (guess_filler s (parse_filler_target target)) (encode_rune shown) 0)
unfolding guess_filler
guess_filler-cases s target = elim (Option-cases (parse_filler_target target)) [
  | inl nothing ↦ inl (rw (nothing, guess_filler))
  | inr ((ci, chi), parsed) ↦ elim (Option-cases (get_elem? s.columns ci)) [
    | inl missing ↦ inl (rw (parsed, missing, guess_filler))
    | inr (column, there) ↦ elim (guess_filler_at-cases s ci chi column) [
      | inl same ↦ inl (rw (parsed, there, guess_filler) same)
      | inr (inside, no_word, plain, missed) ↦ inr (
        get_or column.text chi 0,
        record {
          column_index = ci;
          character_index = chi;
          column = column;
          parsed = parsed;
          column_at = there;
          on_board = inside;
          no_word = no_word;
          no_pattern = plain;
          shown_is = refl;
        },
        rw (parsed, there, guess_filler) missed,
      )
    ]
  ]
]

-- A guess that names no candidate, in an active game, changes nothing, or names a filler character
-- and costs one attempt with no match.
pub apply_guess-IsFiller :
    (s : HackState) (target : Bytes)
    → IsActive s
    → lookup target s.words_by_id ≡ none
    → (apply_guess s target ≡ s)
      ⊎ ((shown : ℕ) × IsFiller s target shown
          × Missed s (apply_guess s target) (encode_rune shown) 0)
unfolding apply_guess
apply_guess-IsFiller s target active unknown =
    rw (active, unknown, apply_guess) (guess_filler-cases s target)
