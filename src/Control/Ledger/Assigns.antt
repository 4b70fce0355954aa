-- ===== src/Control/Ledger/Assigns.antt =====
-- A character is assigned: the ledger that comes of it.
use fallout_terminal.Common.{
  Bool, true, false, not, ◌&&◌, Option, none, some, List, Bytes, has, lookup, is_some,
  lookup-insert, ◌≡◌, refl, sym, subst, inl, inr, arith, if-cases, if◌then◌else◌,
}
use fallout_terminal.Domain.Coordination.{LiveBroadcast, LogicalSession, ProcessRuntime}
use fallout_terminal.Live.Runtime.{Source}
use fallout_terminal.Control.Assignment.{
  claim, take_control, append_current_terminal_effect, assign_to, with_broadcast,
}
use fallout_terminal.Control.Claims.{session_assigned, character_claimed}
use fallout_terminal.Control.Claims.Bound.{
  owner_lookup, assigned_has, unassigned_lookup, unclaimed_lookup,
}
use fallout_terminal.Control.Commit.{Coordinator, Effect, state_effects}
use fallout_terminal.Control.Commit.Kept.{Leads}
use fallout_terminal.Control.Ledger.{Ledger, ledger_of, hold, taken_by, assigning, connected_as}
use fallout_terminal.Control.Ledger.Shown.{ShownIn, Shows, project_active_terminal-Shows}
use fallout_terminal.Control.Links.{LinksIn}
use fallout_terminal.Control.Snapshots.{is_connected}

pub shown_as_is : (b : Option LiveBroadcast) → ShownIn (ledger_of b) b
shown_as_is b = (refl, λ s. refl, λ c. refl, refl)

-- Where the test fails, the ledger stays.
pub unless :
    (test : Bool) (l : Ledger) (b : Option LiveBroadcast)
    → test ≡ false
    → ShownIn (if test then l else ledger_of b) b
unless false l b e = shown_as_is b
unless true l b e = absurd (ground arith)

pub when :
    (test : Bool) (l l' : Ledger) (b : Option LiveBroadcast)
    → test ≡ true
    → ShownIn l b
    → ShownIn (if test then l else l') b
when true l l' b e h = h
when false l l' b e h = absurd (ground arith)

-- The sessions that a runtime knows, those with a stream, and the characters that it lists.
abbrev pub known_in : ProcessRuntime → Bytes → Bool
known_in r s = has s r.sessions_by_id

abbrev pub connected_in : ProcessRuntime → Bytes → Bool
connected_in r s = connected_as (lookup s r.sessions_by_id)

abbrev pub listed_in : ProcessRuntime → Bytes → Bool
listed_in r c = has c r.roster_by_id

pub claimed-shown :
    (able : Bool) (s c : Bytes) (b : LiveBroadcast)
    → ShownIn
        (record (hold s c (ledger_of (some b))) {
          in_control = taken_by b.controller_session_id able s;
        })
        (some (take_control able s (claim b s c)))
unfolding claim
claimed-shown able s c b =
    if-cases
      (λ (b' : LiveBroadcast).
        ShownIn
          (record (hold s c (ledger_of (some b))) {
            in_control = taken_by b.controller_session_id able s;
          })
          (some b'))
      (not (is_some b.controller_session_id) && able)
      (λ e. (
        refl,
        λ t. lookup-insert s t c b.assignments_by_session,
        λ d. lookup-insert c d s b.session_by_character,
        ground arith,
      ))
      (λ e. (
        refl,
        λ t. lookup-insert s t c b.assignments_by_session,
        λ d. lookup-insert c d s b.session_by_character,
        ground arith,
      ))

pub append_current_terminal_effect-Shows :
    (source : Source) (l : Ledger) (c : Coordinator) (effects : List Effect) (session : Bytes)
    → Shows l c.runtime
    → Shows l (append_current_terminal_effect source c effects session).0.runtime
unfolding append_current_terminal_effect
append_current_terminal_effect-Shows source l c effects session h =
    project_active_terminal-Shows l source c.runtime h

module _ (source : Source) (s d : Bytes) (c : Coordinator) where
  abbrev pub assigned_ledger : Option LiveBroadcast → Ledger
  assigned_ledger b =
      assigning (known_in c.runtime) (connected_in c.runtime) (listed_in c.runtime) s d
        (ledger_of b)

  -- Whether the claim may be made, by the ledger.
  abbrev may_assign : LiveBroadcast → Bool
  may_assign b =
      has s c.runtime.sessions_by_id
      && has d c.runtime.roster_by_id
      && not (has s b.assignments_by_session)
      && not (has d b.session_by_character)

  abbrev claimed_ledger : LiveBroadcast → Ledger
  claimed_ledger b = record (hold s d (ledger_of (some b))) {
    in_control = taken_by b.controller_session_id (connected_in c.runtime s) s;
  }

  -- Where it may not, a refusal is right.
  assigned_refused :
      (b : LiveBroadcast)
      → c.runtime.broadcast ≡ some b
      → may_assign b ≡ false
      → Shows (assigned_ledger (some b)) c.runtime
  assigned_refused b e test =
      subst (ShownIn (assigned_ledger (some b))) (sym e)
        (unless (may_assign b) (claimed_ledger b) (some b) test)

  pub assign_to-Leads :
      (b : Option LiveBroadcast) (session : Option LogicalSession)
      → lookup s c.runtime.sessions_by_id ≡ session
      → c.runtime.broadcast ≡ b
      → LinksIn c.runtime.sessions_by_id c.runtime.roster_by_id b
      → Leads (Shows (assigned_ledger b)) c.runtime (assign_to source s d c b session)
  assign_to-Leads none session known e h =
      let kept = subst (ShownIn (assigned_ledger none)) (sym e) (shown_as_is none) in
      (inr kept, kept)
  assign_to-Leads (some b) none known e h =
      let kept = assigned_refused b e (ground (arith, known)) in (inr kept, kept)
  assign_to-Leads (some b) (some session) known e h =
      let l = assigned_ledger (some b) in
      let P = Leads (Shows l) c.runtime in
      let refused : may_assign b ≡ false → Shows l c.runtime × Shows l c.runtime =
        λ t. let kept = assigned_refused b e t in (kept, kept) in
      if-cases P (not (has d c.runtime.roster_by_id))
        (λ t. let r = refused (ground (arith, t)) in (inr r.0, r.1))
        (λ listed.
          if-cases P (session_assigned b s)
            (λ t. let r = refused (ground (arith, assigned_has b h s t)) in (inr r.0, r.1))
            (λ free.
              if-cases P (character_claimed b d)
                (λ t. let r = refused (ground (arith, t, owner_lookup b h d)) in (inr r.0, r.1))
                (λ vacant. (inl refl, claimed session listed free vacant known))))
    where
      claimed :
          (session : LogicalSession)
          → not (has d c.runtime.roster_by_id) ≡ false
          → session_assigned b s ≡ false
          → character_claimed b d ≡ false
          → lookup s c.runtime.sessions_by_id ≡ some session
          → Shows
              (assigned_ledger (some b))
              (append_current_terminal_effect source
                (with_broadcast c
                  (take_control (is_connected session.connection_ids) s (claim b s d)))
                (state_effects
                  (with_broadcast c
                    (take_control (is_connected session.connection_ids) s (claim b s d))).runtime)
                s).0.runtime
      claimed session listed free vacant known =
          let b' = take_control (is_connected session.connection_ids) s (claim b s d) in
          append_current_terminal_effect-Shows source (assigned_ledger (some b))
            (with_broadcast c b') (state_effects (with_broadcast c b').runtime) s
            (when (may_assign b) (claimed_ledger b) (ledger_of (some b)) (some b')
              (ground
                (arith, known, listed, unassigned_lookup b s free, unclaimed_lookup b d vacant))
              (subst
                (λ (found : Option LogicalSession).
                  ShownIn
                    (record (hold s d (ledger_of (some b))) {
                      in_control = taken_by b.controller_session_id (connected_as found) s;
                    })
                    (some b'))
                (sym known) (claimed-shown (is_connected session.connection_ids) s d b)))
