-- ===== src/Hack/Board/Candidates.antt =====
-- The candidates that `GenerateBoard` chooses.
use fallout_terminal.Common.{
  ℕ, ◌≤◌, ◌<◌, Option, none, List, Bytes, ℤ, pos, negsuc, ltb, length, inl, inr, subst, arith,
  Bool-cases,
}
use fallout_terminal.Hack.Attempt.{Ensures, Ensures-bind, Ensures-any}
use fallout_terminal.Hack.Board.{
  level_word_length, level_word_count, pick_from_source, choose_candidates,
}
use fallout_terminal.Hack.WordBank.Laws.{
  IsChoice, normalize_candidates-IsChoice, supplement_candidates-IsChoice,
}
use fallout_terminal.Hack.WordBank.Picks.{pick_words_fills}
use fallout_terminal.Hack.WordBank.{normalize_candidates}

-- Words have 4 to 8 letters, and a board 12 to 16 words, at every level that is asked for.
pub level_bounds :
    (level : ℤ)
    → (4 ≤ level_word_length level)
      × (level_word_length level ≤ 8)
      × (12 ≤ level_word_count level)
      × (level_word_count level ≤ 16)
unfolding level_word_length level_word_count
level_bounds (pos n) = ground arith
level_bounds (negsuc n) = ground arith

bank-IsChoice :
    (size count : ℕ)
    → 4 ≤ size
    → size ≤ 8
    → count ≤ 16
    → Ensures (IsChoice size count) (pick_from_source none size count)
unfolding pick_from_source
bank-IsChoice size count low high few = record {
  holds = λ r words e.
      subst (IsChoice size count) (ground (arith, e))
        (pick_words_fills size count r low high few).0;
}

-- For all levels and word sources, the candidates are different words of the level's length, and
-- not more than the level's count.
pub choose_candidates-IsChoice :
    (source : Option (ℕ → ℕ → List Bytes)) (size count : ℕ)
    → 4 ≤ size
    → size ≤ 8
    → 0 < count
    → count ≤ 16
    → Ensures (IsChoice size count) (choose_candidates source size count)
unfolding choose_candidates
choose_candidates-IsChoice source size count low high some_words few =
    Ensures-bind (λ _. Unit {0}) _ _ _ (Ensures-any (pick_from_source source size count))
      λ picked _.
        let candidates = normalize_candidates picked size count in
        let choice = normalize_candidates-IsChoice picked size count some_words in
        elim (Bool-cases (ltb (length candidates) count)) [
          | inl short ↦ rw short (
              Ensures-bind (IsChoice size count) _ _ _ (bank-IsChoice size count low high few)
                λ fallback h. record {
                  holds = λ r words e. subst (IsChoice size count) (ground (arith, e)) (
                      supplement_candidates-IsChoice candidates fallback size count choice
                        h.are_words);
                })
          | inr full ↦ rw full (record {
            holds = λ r words e. subst (IsChoice size count) (ground (arith, e)) choice;
          })
        ]
