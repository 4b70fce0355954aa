-- ===== src/Control/Ledger/Refines.antt =====
-- The Overseer's operations on the maps of claims do what they mean on the ledger.
use fallout_terminal.Common.{
  Bool, true, false, not, ◌&&◌, Option, none, some, Bytes, has, lookup, equal_iff, ◌≡◌, refl, sym,
  ap, subst, inl, inr, arith, if-cases,
}
use fallout_terminal.Domain.Coordination.{LiveBroadcast, LogicalSession}
use fallout_terminal.Control.Answers.{CoordinationError, no_broadcast, refuse, overseer}
use fallout_terminal.Control.Answers.Settles.{
  Decides, Settles, refuse-Decides, accepted-Decides, overseer-Settles,
}
use fallout_terminal.Control.Assignment.{
  assign_step, assign_character, release_step, release_character, move_step, move_character,
  control_to, set_active_controller,
}
use fallout_terminal.Control.Claims.{session_assigned, is_value}
use fallout_terminal.Control.Claims.Bound.{assigned_has, unassigned_lookup}
use fallout_terminal.Control.Commit.{Config, Coordinator, Transition}
use fallout_terminal.Control.Commit.Kept.{Leads, commit-leads}
use fallout_terminal.Control.Ledger.{Ledger, ledger_of, controlling, can_control}
use fallout_terminal.Control.Ledger.Shown.{ShownIn, Shows, Shows-IsStable}
use fallout_terminal.Control.Links.{LinksIn, IsLinked}
use fallout_terminal.Control.Snapshots.{is_connected}
use fallout_terminal.Control.Ledger.Assigns.{
  shown_as_is, unless, when, known_in, connected_in, listed_in, assigned_ledger, assign_to-Leads,
}
use fallout_terminal.Control.Ledger.Moves.{
  released_ledger, releases, release_step-Leads, moved_ledger, moves, move_step-Leads,
}

value_of : (o : Option Bytes) (s : Bytes) → is_value o s ≡ true → o ≡ some s
value_of none s e = absurd (ground arith)
value_of (some t) s e = ap some ((equal_iff t s).0 e)

module _ (s : Bytes) (c : Coordinator) where
  abbrev pub controlled_ledger : Option LiveBroadcast → Ledger
  controlled_ledger b =
      controlling (known_in c.runtime) (connected_in c.runtime) (listed_in c.runtime) s
        (ledger_of b)

  abbrev pub controls : Option LiveBroadcast → Bool
  controls b =
      can_control (known_in c.runtime) (connected_in c.runtime) (listed_in c.runtime) s
        (ledger_of b)

  abbrev may_control : LiveBroadcast → Bool
  may_control b =
      has s c.runtime.sessions_by_id && has s b.assignments_by_session && connected_in c.runtime s

  abbrev handed_ledger : LiveBroadcast → Ledger
  handed_ledger b = record (ledger_of (some b)) { in_control = some s }

  control_to-Leads :
      (b : Option LiveBroadcast) (session : Option LogicalSession)
      → lookup s c.runtime.sessions_by_id ≡ session
      → c.runtime.broadcast ≡ b
      → LinksIn c.runtime.sessions_by_id c.runtime.roster_by_id b
      → Leads (Shows (controlled_ledger b)) c.runtime (control_to s c b session)
        × Decides (controls b) c (control_to s c b session)
  control_to-Leads none session found e h =
      let kept = subst (ShownIn (controlled_ledger none)) (sym e) (shown_as_is none) in
      ((inr kept, kept), refuse-Decides false c (some no_broadcast) refl)
  control_to-Leads (some b) none found e h =
      let kept =
        subst (ShownIn (controlled_ledger (some b))) (sym e)
          (unless (may_control b) (handed_ledger b) (some b) (ground (arith, found))) in
      ((inr kept, kept), refuse-Decides (controls (some b)) c _ (ground (arith, found)))
  control_to-Leads (some b) (some session) found e h =
      let l = controlled_ledger (some b) in
      let P : Transition (Option CoordinationError) → Type 0 =
        λ t. Leads (Shows l) c.runtime t × Decides (controls (some b)) c t in
      let refused : (error : Option CoordinationError)
          → may_control b ≡ false
          → P (refuse c error) =
        λ error t.
          let kept =
            subst (ShownIn l) (sym e) (unless (may_control b) (handed_ledger b) (some b) t) in
          ((inr kept, kept), refuse-Decides (controls (some b)) c error (ground (arith, t))) in
      if-cases P (not (session_assigned b s))
        (λ t. refused _ (ground (arith, unassigned_lookup b s, t)))
        (λ assigned.
          if-cases P (not (is_connected session.connection_ids))
            (λ t. refused _ (ground (arith, found, t)))
            (λ connected.
              let may : may_control b ≡ true =
                ground (arith, found, connected, assigned_has b h s (ground (arith, assigned))) in
              if-cases P (is_value b.controller_session_id s)
                (λ already.
                  let r = subst (ShownIn l) (sym e) (
                    when (may_control b) (handed_ledger b) (ledger_of (some b)) (some b) may
                      (refl, λ t. refl, λ d. refl, value_of b.controller_session_id s already)) in
                  (
                    (inr r, r),
                    refuse-Decides (controls (some b)) c none (ground (arith, already, may)),
                  ))
                (λ new. (
                  (
                    inl refl,
                    when (may_control b) (handed_ledger b) (ledger_of (some b))
                        (some (record b { controller_session_id = some s })) may
                        (refl, λ t. refl, λ d. refl, refl),
                  ),
                  accepted-Decides (controls (some b)) c _ (ground (arith, new, may)) refl refl,
                ))))

module _ (cfg : Config) (c : Coordinator) (h : IsLinked c.runtime) where
  -- `AssignCharacter` gives a character of the roster to a session that is recognized, if neither
  -- of them has a claim, and control to the session, if nobody is in control and it has a stream.
  -- Otherwise nobody's claim changes, and control stays where it is.
  pub assign_character-refines :
      (s d : Bytes)
      → Shows
          (assigned_ledger cfg.source s d c c.runtime.broadcast)
          (assign_character cfg s d c).0.runtime
  unfolding assign_character overseer
  assign_character-refines s d =
      commit-leads cfg (Shows (assigned_ledger cfg.source s d c c.runtime.broadcast))
        (Shows-IsStable (assigned_ledger cfg.source s d c c.runtime.broadcast) cfg.source)
        (assign_step cfg.source s d) c
        (assign_to-Leads cfg.source s d c c.runtime.broadcast (lookup s c.runtime.sessions_by_id)
          refl refl h)

  -- `ReleaseCharacter` takes the claim of a session that is recognized away on both sides, and
  -- control with it, if there is such a claim: then it answers without an error, at the next
  -- revision. Otherwise nothing changes in the coordinator, and nothing is published.
  pub release_character-refines :
      (s : Bytes)
      → Shows (released_ledger s c c.runtime.broadcast) (release_character cfg s c).0.runtime
        × Settles (releases s c c.runtime.broadcast) c (release_character cfg s c)
  unfolding release_character overseer
  release_character-refines s =
      let apply : Coordinator → Transition (Option CoordinationError) =
        λ now. release_step s now now.runtime.broadcast in
      let (leads, decides) = release_step-Leads s c c.runtime.broadcast refl in
      (
        commit-leads cfg (Shows (released_ledger s c c.runtime.broadcast))
            (Shows-IsStable (released_ledger s c c.runtime.broadcast) cfg.source) apply c leads,
        overseer-Settles cfg (releases s c c.runtime.broadcast) apply c decides,
      )

  -- `MoveCharacter` passes a character of the roster from its session, if it has one, on to a
  -- recognized session without a character; who loses it loses control; and it answers without an
  -- error, at the next revision. Otherwise nothing changes in the coordinator, and nothing is
  -- published.
  pub move_character-refines :
      (d to : Bytes)
      → Shows (moved_ledger d to c c.runtime.broadcast) (move_character cfg d to c).0.runtime
        × Settles (moves d to c c.runtime.broadcast) c (move_character cfg d to c)
  unfolding move_character overseer
  move_character-refines d to =
      let apply : Coordinator → Transition (Option CoordinationError) =
        λ now. move_step d to now now.runtime.broadcast in
      let (leads, decides) = move_step-Leads d to c c.runtime.broadcast refl h in
      (
        commit-leads cfg (Shows (moved_ledger d to c c.runtime.broadcast))
            (Shows-IsStable (moved_ledger d to c c.runtime.broadcast) cfg.source) apply c leads,
        overseer-Settles cfg (moves d to c c.runtime.broadcast) apply c decides,
      )

  -- `SetActiveController` puts a recognized session in control that has a character and a stream
  -- and is not in control yet, and answers without an error, at the next revision. Otherwise nothing
  -- changes in the coordinator, and nothing is published. The claims stay in any case.
  pub set_active_controller-refines :
      (s : Bytes)
      → Shows (controlled_ledger s c c.runtime.broadcast) (set_active_controller cfg s c).0.runtime
        × Settles (controls s c c.runtime.broadcast) c (set_active_controller cfg s c)
  unfolding set_active_controller overseer
  set_active_controller-refines s =
      let apply : Coordinator → Transition (Option CoordinationError) =
        λ now. control_to s now now.runtime.broadcast (lookup s now.runtime.sessions_by_id) in
      let (leads, decides) =
        control_to-Leads s c c.runtime.broadcast (lookup s c.runtime.sessions_by_id) refl refl h in
      (
        commit-leads cfg (Shows (controlled_ledger s c c.runtime.broadcast))
            (Shows-IsStable (controlled_ledger s c c.runtime.broadcast) cfg.source) apply c leads,
        overseer-Settles cfg (controls s c c.runtime.broadcast) apply c decides,
      )
