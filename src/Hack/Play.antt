-- ===== src/Hack/Play.antt =====
-- internal/hack/hack.go: what a player's command does to the hacking aggregate. A function returns
-- the new aggregate; the source writes it through a pointer that is not nil here.
pub mod Guess
use fallout_terminal.Common.{
  ℕ, ◌+◌, ◌-◌, Bool, true, false, not, ◌&&◌, ◌||◌, Option, none, some, List, [], ◌∷◌, ◌++◌, ℤ, pos,
  negsuc, Bytes, Dict, leb, ltb, ◌==◌, if◌then◌else◌, length, get_elem?, get_or, take, drop,
  replicate, any, set, equal, utf8, encode_rune, decimal, atoi, split, lookup, delete,
}
use fallout_terminal.Domain.Hack.{
  HackWord, HackColumn, HackCandidate, HackPatternIdentity, HackPattern, HackState,
}
use fallout_terminal.Hack.PatternId.{pattern_id}
use fallout_terminal.Hack.Random.{Random, safe_intn}
use fallout_terminal.Hack.Scan.{discover_pattern_spans}

-- One line of `pushLog`: `"> " + line`.
abbrev pub log_line : Bytes → Bytes
log_line line = b'>' ∷ b' ' ∷ line

abbrev pub push_log : HackState → List Bytes → HackState
push_log state [] = state
push_log state (line ∷ lines) =
    push_log (record state { log = state.log ++ (log_line line ∷ []) }) lines

abbrev pub denied : Bytes
denied = utf8 "Отказ в доступе"

abbrev pub restored : Bytes
restored = utf8 "Попытки восстановлены."

abbrev pub dud_removed : Bytes
dud_removed = utf8 "Ложное слово удалено."

abbrev pub success_lines : List Bytes
success_lines = utf8 "Точно!" ∷ utf8 "Пожалуйста," ∷ utf8 "подождите" ∷ utf8 "входа в систему." ∷ []

-- `fmt.Sprintf("%d/%d правильно.", matches, wordLength)`.
unfoldable pub matches_line : ℕ → ℕ → Bytes
matches_line matches word_length =
    decimal matches ++ (b'/' ∷ (decimal word_length ++ utf8 " правильно."))

pub push_success_log : HackState → HackState
push_success_log state = push_log state success_lines

-- Loop over the common length of the two words.
unfoldable pub count_matches : Bytes → Bytes → ℕ
count_matches (c ∷ candidate) (s ∷ secret) =
    (if c == s then 1 else 0) + count_matches candidate secret
count_matches _ _ = 0

pub spend_attempt : HackState → ℕ → HackState
spend_attempt state matches =
    let left = state.attempts_left - 1 in
    let logged =
      push_log (record state { attempts_left = left })
        (denied ∷ matches_line matches state.word_length ∷ []) in
    if left == 0 then record logged { failed = true } else logged

unfoldable pub contains_word : List HackWord → ℕ → Bool
contains_word words index =
    any (λ (word : HackWord). leb word.start index && ltb index (word.start + word.length)) words

-- An index that `strconv.Atoi` reads and that is not negative.
index_of : Bytes → Option ℕ
index_of part = elim (atoi part) [
  | none ↦ none
  | some n ↦ elim n [ pos index ↦ some index | negsuc _ ↦ none ]
]

target_of : List Bytes → Option (ℕ × ℕ)
target_of (column ∷ character ∷ []) = elim (index_of column) [
  | none ↦ none
  | some column_index ↦ elim (index_of character) [
    | none ↦ none
    | some character_index ↦ some (column_index, character_index)
  ]
]
target_of _ = none

-- An empty part is refused by `atoi` too.
unfoldable pub parse_filler_target : Bytes → Option (ℕ × ℕ)
unfolding target_of index_of
parse_filler_target target = target_of (split b':' target)

-- Some pattern opens at this place of this column.
pub opens_pattern : ℕ → ℕ → List HackPattern → Bool
opens_pattern column_index character_index = any (λ (pattern_ : HackPattern).
    pattern_.column_index == column_index && pattern_.absolute_start == character_index)

guess_word : HackState → HackCandidate → HackState
unfolding push_success_log
guess_word state candidate =
    let logged = push_log state (candidate.text ∷ []) in
    let matches = count_matches candidate.text state.secret_word in
    if matches == state.word_length
    then push_success_log (record logged { solved = true })
    else spend_attempt logged matches

guess_filler_at : HackState → ℕ → ℕ → HackColumn → HackState
unfolding contains_word opens_pattern
guess_filler_at state column_index character_index column =
    if leb (length column.text) character_index || contains_word column.words character_index
    then state
    else if opens_pattern column_index character_index
        (discover_pattern_spans state.generation_id state.columns)
    then state
    else spend_attempt (push_log state (encode_rune (get_or column.text character_index 0) ∷ [])) 0

guess_filler : HackState → Option (ℕ × ℕ) → HackState
unfolding guess_filler_at
guess_filler state none = state
guess_filler state (some (column_index, character_index)) =
    elim (get_elem? state.columns column_index) [
      | none ↦ state
      | some column ↦ guess_filler_at state column_index character_index column
    ]

-- `ApplyGuess`.
unfoldable pub apply_guess : HackState → Bytes → HackState
unfolding guess_word guess_filler spend_attempt
apply_guess state target_id =
    if state.solved || state.failed then state else elim (lookup target_id state.words_by_id) [
      | some candidate ↦ guess_word state candidate
      | none ↦ guess_filler state (parse_filler_target target_id)
    ]

-- `ForceSuccess`.
unfoldable pub force_success : HackState → HackState
unfolding push_success_log
force_success state =
    if state.solved || state.failed
    then state
    else push_success_log (record (push_log state (state.secret_word ∷ [])) { solved = true })
