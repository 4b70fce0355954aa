-- ===== src/Hack/Effects.antt =====
-- internal/hack/hack.go: `ApplyPattern` with its two effects, and the public projection.
pub mod Once
pub mod Secret
use fallout_terminal.Common.{
  ℕ, ◌+◌, ◌*◌, Bool, true, false, not, ◌&&◌, ◌||◌, Option, none, some, List, [], ◌∷◌, ◌++◌, map,
  Bytes, Dict, leb, ◌==◌, if◌then◌else◌, length, get_or, take, drop, replicate, any, equal, lookup,
  delete,
}
use fallout_terminal.Domain.Hack.{
  HackWord, HackColumn, HackCandidate, HackPatternIdentity, HackPattern, PublicHackPattern,
  HackState, PublicHackState,
}
use fallout_terminal.Hack.PatternId.{pattern_id}
use fallout_terminal.Hack.Play.{push_log, restored, dud_removed}
use fallout_terminal.Hack.Random.{Random, safe_intn}
use fallout_terminal.Hack.Scan.{discover_pattern_spans}

-- `==` on identities, as the keys of `UsedPatterns`.
unfoldable pub same_identity : HackPatternIdentity → HackPatternIdentity → Bool
same_identity a b =
    equal a.generation_id b.generation_id && a.row == b.row && a.start == b.start && a.end == b.end

unfoldable pub is_used : HackPatternIdentity → List HackPatternIdentity → Bool
unfolding same_identity
is_used identity used = any (same_identity identity) used

-- The first pattern with the requested ID.
unfoldable pub find_pattern : Bytes → List HackPattern → Option HackPattern
find_pattern requested [] = none
find_pattern requested (found ∷ rest) =
    if equal (pattern_id found.identity) requested then some found else find_pattern requested rest

-- The words of one column that are candidates other than the secret.
unfoldable pub decoys_in : Dict HackCandidate → Bytes → List HackWord → List Bytes
decoys_in words secret [] = []
decoys_in words secret (word ∷ rest) =
    let later = decoys_in words secret rest in
    elim (lookup word.id words) [
      | none ↦ later
      | some candidate ↦ if equal candidate.text secret then later else word.id ∷ later
    ]

unfoldable pub incorrect_in : Dict HackCandidate → Bytes → List HackColumn → List Bytes
unfolding decoys_in
incorrect_in words secret [] = []
incorrect_in words secret (column ∷ columns) =
    decoys_in words secret column.words ++ incorrect_in words secret columns

unfoldable pub incorrect_candidate_ids : HackState → List Bytes
unfolding incorrect_in
incorrect_candidate_ids state = incorrect_in state.words_by_id state.secret_word state.columns

-- The first word with this ID, and the words without it.
unfoldable pub take_word : Bytes → List HackWord → Option (HackWord × List HackWord)
take_word id [] = none
take_word id (word ∷ rest) = elim (equal word.id id) [
  | true ↦ some (word, rest)
  | false ↦ elim (take_word id rest) [
    | none ↦ none
    | some (found, others) ↦ some (found, word ∷ others)
  ]
]

-- `text[:start] + strings.Repeat(".", length) + text[start+length:]`.
unfoldable pub dot_text : Bytes → HackWord → Bytes
dot_text text word =
    take word.start text ++ (replicate word.length b'.' ++ drop (word.start + word.length) text)

-- The columns with the first word of this ID dotted out, if there is one.
unfoldable pub dot_columns : Bytes → List HackColumn → Option (List HackColumn)
unfolding take_word dot_text
dot_columns id [] = none
dot_columns id (column ∷ columns) = elim (take_word id column.words) [
  | some (word, others) ↦
      some (record column { text = dot_text column.text word; words = others } ∷ columns)
  | none ↦ elim (dot_columns id columns) [ none ↦ none | some dotted ↦ some (column ∷ dotted) ]
]

unfoldable pub dot_candidate : HackState → Bytes → HackState
unfolding dot_columns
dot_candidate state id = elim (dot_columns id state.columns) [
  | none ↦ state
  | some columns ↦ record state { columns = columns; words_by_id = delete id state.words_by_id }
]

unfoldable pub restore_attempts : HackState → HackState
restore_attempts state =
    push_log (record state { attempts_left = state.attempts_max }) (restored ∷ [])

unfoldable pub remove_dud : HackState → Bytes → HackState
unfolding dot_candidate
remove_dud state id = push_log (dot_candidate state id) (dud_removed ∷ [])

-- The effect of a pattern that has just been marked as used.
unfoldable pub pattern_effect : HackState → Random → HackState × Random
unfolding restore_attempts remove_dud
pattern_effect state r =
    let drawn = safe_intn r 100 in
    let decoys = incorrect_candidate_ids state in
    let picked = safe_intn drawn.1 (length decoys) in
    if leb 80 drawn.0 || length decoys == 0
    then (restore_attempts state, drawn.1)
    else (remove_dud state (get_or decoys picked.0 []), picked.1)

-- `state.UsedPatterns[identity] = struct{}{}`.
abbrev pub mark_used : HackState → HackPatternIdentity → HackState
mark_used state identity = record state { used_patterns = identity ∷ state.used_patterns }

-- `ApplyPattern`: the new aggregate, the source of later draws, and whether it was accepted.
unfoldable pub apply_pattern : HackState → Bytes → Random → HackState × Random × Bool
apply_pattern state requested_id r =
    if state.solved || state.failed
    then (state, r, false)
    else elim (find_pattern requested_id
        (discover_pattern_spans state.generation_id state.columns)) [
          | none ↦ (state, r, false)
          | some requested ↦
              if is_used requested.identity state.used_patterns
              then (state, r, false)
              else let done = pattern_effect (mark_used state requested.identity) r in
                (done.0, done.1, true)
        ]

unfoldable pub public_pattern : List HackPatternIdentity → HackPattern → PublicHackPattern
unfolding is_used
public_pattern used span = record {
  id = pattern_id span.identity;
  row = span.identity.row;
  start = span.identity.start;
  end = span.identity.end;
  used = is_used span.identity used;
}

-- `discoverPatterns`.
unfoldable pub discover_patterns : HackState → List PublicHackPattern
unfolding public_pattern
discover_patterns state =
    map (public_pattern state.used_patterns)
      (discover_pattern_spans state.generation_id state.columns)

-- `PublicState`: the copies of slices are the values themselves.
unfoldable pub public_state : HackState → PublicHackState
unfolding discover_patterns
public_state state = record {
  level = state.level;
  word_length = state.word_length;
  attempts_max = state.attempts_max;
  attempts_left = state.attempts_left;
  solved = state.solved;
  failed = state.failed;
  log = state.log;
  columns = state.columns;
  patterns = discover_patterns state;
}
