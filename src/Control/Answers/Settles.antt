-- ===== src/Control/Answers/Settles.antt =====
-- What an operation of the Overseer leaves when it accepts, and when it does not.
use fallout_terminal.Common.{Bool, true, false, Option, none, List, [], ◌≡◌, refl, ◌∙◌, arith}
use fallout_terminal.Control.Answers.{CoordinationError, Reply, refuse, overseer}
use fallout_terminal.Control.Commit.{Config, Coordinator, Effect, Transition, commit, next_revision}
use fallout_terminal.Control.Commit.Revisions.{commit-revision}

-- The transaction is accepted exactly if the test holds; a refused one leaves no trace.
abbrev pub Decides : Bool → Coordinator → Transition (Option CoordinationError) → Type 0
Decides true c t = (t.accepted ≡ true) × (t.answer ≡ none)
Decides false c t = (t.accepted ≡ false) × (t.persist ≡ false) × (t.working ≡ c) × (t.effects ≡ [])

-- If the test holds, the operation answers without an error, at the next revision; if not, the
-- coordinator is the one that it was, and nothing is published.
abbrev pub Settles : Bool → Coordinator → Coordinator × List Effect × Reply → Type 0
Settles true c done =
    (done.0.runtime.revision ≡ next_revision c.runtime.revision) × (done.2.error ≡ none)
Settles false c done = (done.0 ≡ c) × (done.1 ≡ [])

pub refuse-Decides :
    (test : Bool) (c : Coordinator) (error : Option CoordinationError)
    → test ≡ false
    → Decides test c (refuse c error)
refuse-Decides false c error e = (refl, refl, refl, refl)
refuse-Decides true c error e = absurd (ground arith)

pub accepted-Decides :
    (test : Bool) (c : Coordinator) (t : Transition (Option CoordinationError))
    → test ≡ true
    → t.accepted ≡ true
    → t.answer ≡ none
    → Decides test c t
accepted-Decides true c t e accepted answer = (accepted, answer)
accepted-Decides false c t e accepted answer = absurd (ground arith)

pub overseer-Settles :
    (cfg : Config) (test : Bool) (apply : Coordinator → Transition (Option CoordinationError))
    (c : Coordinator)
    → Decides test c (apply c)
    → Settles test c (overseer cfg apply c)
unfolding overseer commit
overseer-Settles cfg true apply c (accepted, answer) =
    (commit-revision cfg apply c ∙ rw accepted refl, answer)
overseer-Settles cfg false apply c (refused, dropped, working, effects) =
    (rw (refused, dropped, working) refl, rw (refused, dropped, effects) refl)
