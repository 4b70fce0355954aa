-- ===== src/Hack/Game/Endings.antt =====
-- How a game ends.
use fallout_terminal.Common.{
  ℕ, ◌≤◌, true, false, ◌||◌, some, List, [], ◌∷◌, Bytes, length, map, All, lookup, ◌≡◌, ◌≢◌, ◌↔◌,
  inl, inr, refl, sym, ap, ◌∙◌, arith, Bool-cases,
}
use fallout_terminal.Domain.Hack.{HackCandidate, HackState}
use fallout_terminal.Hack.Effects.Once.{apply_pattern-cases}
use fallout_terminal.Hack.Effects.{apply_pattern}
use fallout_terminal.Hack.Game.{
  Game, Command, guess, activate, force, step, play, IsPlayable, apply_guess-IsPlayable,
}
use fallout_terminal.Hack.Play.Guess.{
  IsActive, IsOver, Missed, SameBoard, apply_guess_over, apply_guess_word, count_matches_full,
}
use fallout_terminal.Hack.Play.{apply_guess, force_success, count_matches}

apply_pattern_over :
    (s : HackState) (id : Bytes) (g : Game)
    → IsOver s
    → apply_pattern s id g.random ≡ (s, g.random, false)
apply_pattern_over s id g over = elim (apply_pattern-cases s id g.random) [
  | inl refused ↦ refused
  | inr (p, accepts, e) ↦ ground (arith, accepts.active)
]

step_over : (g : Game) (c : Command) → IsOver g.state → step g c ≡ g
unfolding step force_success
step_over g (guess target) over = ground (arith, apply_guess_over g.state target over)
step_over g (activate id) over = ground (arith, apply_pattern_over g.state id g over)
step_over g force over = rw over

-- A game that is won or lost stays as it is, whatever is asked of it.
pub play_over : (g : Game) (cs : List Command) → IsOver g.state → play g cs ≡ g
unfolding play
play_over g [] over = refl
play_over g (c ∷ cs) over = rw (step_over g c over) (play_over g cs over)

-- Candidates and secret have the word length of the board.
pub record HasLength (s : HackState) (c : HackCandidate) : Type 0 where
  pub of_candidate : length c.text ≡ s.word_length
  pub of_secret : length s.secret_word ≡ s.word_length

-- In an active game, where a candidate and the secret have the board's word length, the guess of the
-- candidate wins exactly if it reads as the secret.
pub apply_guess_wins_iff :
    (s : HackState) (target : Bytes) (c : HackCandidate)
    → IsActive s
    → lookup target s.words_by_id ≡ some c
    → HasLength s c
    → ((apply_guess s target).solved ≡ true) ↔ (c.text ≡ s.secret_word)
apply_guess_wins_iff s target c active known size =
    let same_size = size.of_candidate ∙ sym size.of_secret in
    let full = count_matches_full c.text s.secret_word same_size in
    elim (apply_guess_word s target c active known) [
      | inl (all_, won) ↦ ((λ _. full.0 (all_ ∙ sym size.of_secret)), (λ _. won.solved))
      | inr (some_, missed) ↦ (
        (λ e. ground (arith, missed.unsolved)),
        (λ e. absurd (some_ (full.1 e ∙ size.of_secret))),
      )
    ]

-- The ID of a candidate of the right length that is not the secret.
abbrev pub IsWrong : HackState → Bytes → Type 0
IsWrong s target =
    (c : HackCandidate) × (lookup target s.words_by_id ≡ some c)
    × HasLength s c
    × (c.text ≢ s.secret_word)

wrong-Missed :
    (s : HackState) (target : Bytes)
    → IsActive s
    → IsWrong s target
    → (shown : Bytes) × (n : ℕ) × Missed s (apply_guess s target) shown n
wrong-Missed s target active (c, known, size, wrong) =
    elim (apply_guess_word s target c active known) [
      | inl (all_, won) ↦
          absurd (wrong ((apply_guess_wins_iff s target c active known size).0 won.solved))
      | inr (some_, missed) ↦ (c.text, count_matches c.text s.secret_word, missed)
    ]

still-IsWrong :
    {s t : HackState} (targets : List Bytes)
    → SameBoard s t
    → All (IsWrong s) targets
    → All (IsWrong t) targets
still-IsWrong [] same h = tt
still-IsWrong {s} {t} (target ∷ targets) same ((c, known, size, wrong), rest) = (
  (
    c,
    same_words' ∙ known,
    record {
      of_candidate = size.of_candidate ∙ sym same.same_length;
      of_secret = ground (arith, same.same_secret, same.same_length, size.of_secret);
    },
    (λ e. wrong (e ∙ same.same_secret)),
  ),
  still-IsWrong targets same rest,
)
  where
    same_words' : lookup target t.words_by_id ≡ lookup target s.words_by_id
    same_words' = ap (lookup target) same.same_words

-- In an active game whose attempts are in order, guesses of candidates of the board's word length
-- other than the secret, at least as many as attempts are left, lose the game.
pub play_loses :
    (g : Game) (targets : List Bytes)
    → IsPlayable g.state
    → IsActive g.state
    → All (IsWrong g.state) targets
    → g.state.attempts_left ≤ length targets
    → (play g (map guess targets)).state.failed ≡ true
unfolding play step
play_loses g [] v active wrong enough = ground (arith, v.lost_is)
play_loses g (target ∷ targets) v active (first, rest) enough =
    let (shown, n, missed) = wrong-Missed g.state target active first in
    let next : Game = record g { state = apply_guess g.state target } in
    elim (Bool-cases (next.state.solved || next.state.failed)) [
      | inl over ↦ rw (play_over next (map guess targets) over) (ground (arith, missed.unsolved))
      | inr more ↦
          play_loses next targets (apply_guess-IsPlayable g.state target v) more
            (still-IsWrong targets missed.board rest)
            (ground (arith, missed.spent, missed.lost, v.lost_is))
    ]
