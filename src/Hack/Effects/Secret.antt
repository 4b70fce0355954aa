-- ===== src/Hack/Effects/Secret.antt =====
-- The secret word stays on the board.
use fallout_terminal.Common.{
  false, ◌||◌, some, List, [], ◌∷◌, Bytes, Dict, leb, ◌==◌, length, get_or, equal, All, All-append,
  All-get_or, ◌≡◌, ◌⊎◌, inl, inr, arith, Option-cases, Bool-cases, lookup,
}
use fallout_terminal.Domain.Hack.{HackWord, HackColumn, HackCandidate, HackState}
use fallout_terminal.Hack.Effects.{
  pattern_effect, decoys_in, incorrect_in, incorrect_candidate_ids, restore_attempts, remove_dud,
}
use fallout_terminal.Hack.Random.Laws.{safe_intn-lt}
use fallout_terminal.Hack.Random.{Random, safe_intn}

-- The ID of a candidate other than the secret.
abbrev pub IsDecoy : Dict HackCandidate → Bytes → Bytes → Type 0
IsDecoy words secret id =
    (c : HackCandidate) × (lookup id words ≡ some c) × (equal c.text secret ≡ false)

decoys_in-IsDecoy :
    (words : Dict HackCandidate) (secret : Bytes) (placed : List HackWord)
    → All (IsDecoy words secret) (decoys_in words secret placed)
unfolding decoys_in
decoys_in-IsDecoy words secret [] = tt
decoys_in-IsDecoy words secret (word ∷ placed) = elim (Option-cases (lookup word.id words)) [
  | inl missing ↦ rw (missing, decoys_in) (decoys_in-IsDecoy words secret placed)
  | inr (c, there) ↦ elim (Bool-cases (equal c.text secret)) [
    | inl right ↦ rw (there, decoys_in) (rw right (decoys_in-IsDecoy words secret placed))
    | inr wrong ↦
        rw (there, decoys_in) (rw wrong ((c, there, wrong), decoys_in-IsDecoy words secret placed))
  ]
]

incorrect_in-IsDecoy :
    (words : Dict HackCandidate) (secret : Bytes) (columns : List HackColumn)
    → All (IsDecoy words secret) (incorrect_in words secret columns)
unfolding incorrect_in
incorrect_in-IsDecoy words secret [] = tt
incorrect_in-IsDecoy words secret (column ∷ columns) =
    All-append _ (decoys_in words secret column.words) _
      (decoys_in-IsDecoy words secret column.words) (incorrect_in-IsDecoy words secret columns)

-- A consumed pattern restores the attempts or removes one decoy.
pub pattern_effect-cases :
    (s : HackState) (r : Random)
    → ((pattern_effect s r).0 ≡ restore_attempts s)
      ⊎ ((dud : Bytes) × IsDecoy s.words_by_id s.secret_word dud
          × ((pattern_effect s r).0 ≡ remove_dud s dud))
unfolding pattern_effect incorrect_candidate_ids
pattern_effect-cases s r =
    let decoys = incorrect_candidate_ids s in
    elim (Bool-cases (leb 80 (safe_intn r 100).0 || length decoys == 0)) [
      | inl restored ↦ inl (rw restored)
      | inr removed ↦
          let picked = safe_intn (safe_intn r 100).1 (length decoys) in
          inr (
            get_or decoys picked.0 [],
            All-get_or _ picked.0 decoys []
                (incorrect_in-IsDecoy s.words_by_id s.secret_word s.columns)
                (safe_intn-lt (safe_intn r 100).1 (length decoys) (ground arith)),
            rw removed,
          )
    ]
