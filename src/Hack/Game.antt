-- ===== src/Hack/Game.antt =====
-- Commands to the hacking game, in any order, and what they keep.
pub mod Endings
use fallout_terminal.Common.{
  ℕ, zero, suc, ◌+◌, ◌-◌, ◌≤◌, ◌<◌, Bool, true, false, not, ◌&&◌, ◌||◌, Option, none, some, List,
  [], ◌∷◌, ◌++◌, Bytes, Dict, leb, ◌==◌, length, get_or, if◌then◌else◌, equal, equal_iff, ◌≡◌, ◌≢◌,
  ◌⊎◌, inl, inr, refl, sym, subst, ap, ◌∙◌, arith, Option-cases, Bool-cases, lookup,
}
use fallout_terminal.Domain.Hack.{HackCandidate, HackState}
use fallout_terminal.Hack.Effects.Once.{apply_pattern-cases}
use fallout_terminal.Hack.Effects.Secret.{pattern_effect-cases, IsDecoy}
use fallout_terminal.Hack.Effects.{
  apply_pattern, mark_used, restore_attempts, remove_dud, dot_candidate, pattern_effect,
}
use fallout_terminal.Hack.Play.Guess.{
  IsActive, Missed, Won, apply_guess_over, apply_guess_word, apply_guess-IsFiller,
}
use fallout_terminal.Hack.Play.{apply_guess, force_success}
use fallout_terminal.Hack.Random.{Random}

-- A game that can be played: an attempt is spent or left, the game is lost exactly when none is
-- left, and it is not both won and lost.
pub record IsPlayable (s : HackState) : Type 0 where
  pub has_attempts : 0 < s.attempts_max
  pub within : s.attempts_left ≤ s.attempts_max
  pub lost_is : s.failed ≡ (s.attempts_left == 0)
  pub one_end : (s.solved && s.failed) ≡ false

Missed-IsPlayable :
    {s t : HackState} {shown : Bytes} {n : ℕ}
    → IsActive s
    → IsPlayable s
    → Missed s t shown n
    → IsPlayable t
Missed-IsPlayable active v m = record {
  has_attempts = ground (arith, m.board.same_max);
  within = ground (arith, m.board.same_max, m.spent);
  lost_is = ground (arith, m.lost);
  one_end = ground (arith, m.unsolved);
}

Won-IsPlayable :
    {s t : HackState} {shown : Bytes} → IsActive s → IsPlayable s → Won s t shown → IsPlayable t
Won-IsPlayable active v w = record {
  has_attempts = ground (arith, w.board.same_max);
  within = ground (arith, w.board.same_max, w.unspent);
  lost_is = ground (arith, w.unspent, w.not_lost);
  one_end = ground (arith, w.not_lost);
}

-- Every guess keeps a game playable.
pub apply_guess-IsPlayable :
    (s : HackState) (target : Bytes) → IsPlayable s → IsPlayable (apply_guess s target)
apply_guess-IsPlayable s target v = elim (Bool-cases (s.solved || s.failed)) [
  | inl over ↦ rw (apply_guess_over s target over) v
  | inr active ↦ elim (Option-cases (lookup target s.words_by_id)) [
    | inl unknown ↦ elim (apply_guess-IsFiller s target active unknown) [
      | inl same ↦ rw same v
      | inr (shown, filler, missed) ↦ Missed-IsPlayable active v missed
    ]
    | inr (c, known) ↦ elim (apply_guess_word s target c active known) [
      | inl (full, won) ↦ Won-IsPlayable active v won
      | inr (partial, missed) ↦ Missed-IsPlayable active v missed
    ]
  ]
]

remove_dud-counts :
    (s : HackState) (dud : Bytes)
    → ((remove_dud s dud).attempts_left ≡ s.attempts_left)
      × ((remove_dud s dud).attempts_max ≡ s.attempts_max)
      × ((remove_dud s dud).failed ≡ s.failed)
      × ((remove_dud s dud).solved ≡ s.solved)
unfolding remove_dud dot_candidate
remove_dud-counts s dud = ground arith

effect-IsPlayable :
    {s t : HackState}
    → (t ≡ restore_attempts s)
      ⊎ ((dud : Bytes) × IsDecoy s.words_by_id s.secret_word dud × (t ≡ remove_dud s dud))
    → IsActive s
    → IsPlayable s
    → IsPlayable t
unfolding restore_attempts
effect-IsPlayable {s} (inl e) active v = rw e (record {
  has_attempts = v.has_attempts;
  within = omega arith;
  lost_is = ground (arith, v.lost_is, v.has_attempts);
  one_end = v.one_end;
})
effect-IsPlayable {s} (inr (dud, decoy, e)) active v =
    let kept = remove_dud-counts s dud in
    rw e (record {
      has_attempts = ground (arith, kept, v.has_attempts);
      within = ground (arith, kept, v.within);
      lost_is = ground (arith, kept, v.lost_is);
      one_end = ground (arith, kept, v.one_end);
    })

pub apply_pattern-IsPlayable :
    (s : HackState) (id : Bytes) (r : Random) → IsPlayable s → IsPlayable (apply_pattern s id r).0
apply_pattern-IsPlayable s id r v = elim (apply_pattern-cases s id r) [
  | inl refused ↦ rw refused v
  | inr (p, accepts, e) ↦ rw e (
      effect-IsPlayable {s = mark_used s p.identity} (pattern_effect-cases _ r) accepts.active
        (record {
          has_attempts = v.has_attempts;
          within = v.within;
          lost_is = v.lost_is;
          one_end = v.one_end;
        }))
]

-- A game that is forced to success stays playable.
pub force_success-IsPlayable : (s : HackState) → IsPlayable s → IsPlayable (force_success s)
unfolding force_success
force_success-IsPlayable s v = record {
  has_attempts = ground (arith, v.has_attempts);
  within = ground (arith, v.within);
  lost_is = ground (arith, v.lost_is);
  one_end = ground (arith, v.one_end);
}

-- What the players and the overseer ask of the game.
pub data Command : Type 0 where
  guess : Bytes → Command
  activate : Bytes → Command
  force : Command

pub record Game : Type 0 where
  pub state : HackState
  pub random : Random

unfoldable pub step : Game → Command → Game
step g (guess target) = record g { state = apply_guess g.state target }
step g (activate id) =
    let done = apply_pattern g.state id g.random in record { state = done.0; random = done.1 }
step g force = record g { state = force_success g.state }

unfoldable pub play : Game → List Command → Game
unfolding step
play g [] = g
play g (c ∷ cs) = play (step g c) cs

step-IsPlayable : (g : Game) (c : Command) → IsPlayable g.state → IsPlayable (step g c).state
unfolding step
step-IsPlayable g (guess target) v = apply_guess-IsPlayable g.state target v
step-IsPlayable g (activate id) v = apply_pattern-IsPlayable g.state id g.random v
step-IsPlayable g force v = force_success-IsPlayable g.state v

-- After any commands the attempts lie between zero and their maximum, the game is lost exactly when
-- none is left, and it is not both won and lost, if that held at the start.
pub play-IsPlayable :
    (g : Game) (cs : List Command) → IsPlayable g.state → IsPlayable (play g cs).state
unfolding play
play-IsPlayable g [] v = v
play-IsPlayable g (c ∷ cs) v = play-IsPlayable (step g c) cs (step-IsPlayable g c v)
