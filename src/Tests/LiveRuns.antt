-- ===== src/Tests/LiveRuns.antt =====
-- Checkpoints and the live terminal on concrete inputs.
use fallout_terminal.Common.{
  Bool, true, false, Option, none, some, List, [], ◌∷◌, Bytes, pos, ◌≡◌, refl, arith, utf8, equal,
  All,
}
use fallout_terminal.Domain.Runtime.{RuntimeCommand, navigate, guess, activate_pattern}
use fallout_terminal.Live.History.{history-IsSound}
use fallout_terminal.Live.Events.{Event, run, update, force, discard, Checkpoint, history}
use fallout_terminal.Live.Legacy.Keep.{
  Request, set, nav, guess_word, answer_all, IsSoundLive, answer_all-IsSoundLive,
}
use fallout_terminal.Live.Legacy.{Held}
use fallout_terminal.Live.Presentation.{
  presentation_folder, valid_presentation, revalidate_presentation,
}
use fallout_terminal.Live.Refused.{apply_refused}
use fallout_terminal.Live.Command.{apply}
use fallout_terminal.Live.Selection.{IsFirstNamed, apply-valid, revalidate_presentation-valid}
use fallout_terminal.Live.Sound.{IsSound}
use fallout_terminal.Nav.Find.{at_root-IsValidNav}
use fallout_terminal.Nav.{is_root}
use fallout_terminal.Tests.Samples.{
  mixing, small-IsPlayable, tree, outer_id, bark_id, brackets_id, target, source, service, runtime,
}
use fallout_terminal.Common.{lookup}
use fallout_terminal.Hack.Play.{parse_filler_target}
use fallout_terminal.Common.{split}
use fallout_terminal.Nav.{current_folder}

rooted : is_root tree ≡ true
unfolding equal utf8
rooted = refl

runtime-IsSound : IsSound runtime
runtime-IsSound = record { place = at_root-IsValidNav tree rooted; puzzle = small-IsPlayable }

abbrev start : Checkpoint
start = record { runtime = runtime; service = service }

abbrev events : List Event
events =
    run (navigate (utf8 "enter") outer_id)
    ∷ run (guess bark_id)
    ∷ run (activate_pattern brackets_id)
    ∷ force
    ∷ update target
    ∷ discard target
    ∷ []

history-IsSound_example : IsSound (history source start events).runtime
history-IsSound_example =
    history-IsSound source start events (tt, (tt, (tt, (tt, (rooted, (rooted, tt))))))
      runtime-IsSound

-- The place where a pattern opens is no filler.
abbrev opener : Bytes
opener = b'0' ∷ b':' ∷ b'4' ∷ []

opener_refused : (apply source runtime (guess opener) mixing).1 ≡ false
unfolding apply fallout_terminal.Common.lookup equal fallout_terminal.Hack.Play.parse_filler_target
    fallout_terminal.Common.split fallout_terminal.Common.atoi
    fallout_terminal.Hack.Scan.discover_pattern_spans
opener_refused = refl

apply_refused_example : apply source runtime (guess opener) mixing ≡ (runtime, false, mixing)
apply_refused_example =
    apply_refused source runtime (guess opener) mixing runtime-IsSound opener_refused

abbrev entering : RuntimeCommand
entering = navigate (utf8 "enter") outer_id

entered : (apply source runtime entering mixing).1 ≡ true
unfolding apply
entered = refl

first_named : IsFirstNamed (presentation_folder (apply source runtime entering mixing).0)
unfolding presentation_folder apply equal utf8 fallout_terminal.Nav.current_folder
first_named = refl

apply-valid_example :
    valid_presentation source.sha256
      (apply source runtime entering mixing).0
      (apply source runtime entering mixing).0.presentation
    ≡ true
apply-valid_example = apply-valid source runtime entering mixing first_named entered

root_named : IsFirstNamed (presentation_folder runtime)
unfolding presentation_folder equal utf8
root_named = refl

revalidate_presentation-valid_example :
    valid_presentation source.sha256
      (revalidate_presentation source.sha256 runtime)
      (revalidate_presentation source.sha256 runtime).presentation
    ≡ true
revalidate_presentation-valid_example =
    revalidate_presentation-valid source.sha256 runtime root_named

abbrev empty : Held
empty = record { live = none; service = service }

abbrev requests : List Request
requests =
    set (b't' ∷ []) [] tree (pos 2) [] ∷ nav (utf8 "enter") outer_id ∷ guess_word bark_id ∷ []

answer_all-IsSoundLive_example : IsSoundLive (answer_all source empty requests).live
answer_all-IsSoundLive_example =
    answer_all-IsSoundLive source empty requests (rooted, (tt, (tt, tt))) tt
