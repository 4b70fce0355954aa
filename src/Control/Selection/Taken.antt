-- ===== src/Control/Selection/Taken.antt =====
-- What an accepted selection takes, and from whom.
use fallout_terminal.Common.{
  ℕ, ◌∙◌, sym, true, false, not, Option, none, some, Bytes, has, lookup, equal, ◌≡◌, refl, inl,
  subst, arith, if-cases, if◌then◌else◌, [],
}
use fallout_terminal.Domain.Coordination.{
  ActionResult, LogicalSession, LiveBroadcast, ProcessRuntime, RequestResultRecord,
}
use fallout_terminal.Control.Assignment.{claim, take_control, with_broadcast}
use fallout_terminal.Control.Commit.{Config, Coordinator, Transition, commit}
use fallout_terminal.Control.Commit.Kept.{commit-leads}
use fallout_terminal.Control.Ledger.{Ledger, ledger_of, hold, taken_by}
use fallout_terminal.Control.Ledger.Assigns.{claimed-shown, append_current_terminal_effect-Shows}
use fallout_terminal.Control.Ledger.Shown.{Shows, Shows-IsStable}
use fallout_terminal.Control.Requests.{request_result, store_for, store_request_result}
use fallout_terminal.Control.Selection.{
  CharacterSelection, remembered, accept_claim, select_in, select_current, select_unless,
  select_for, select_step, select_character,
}
use fallout_terminal.Control.Snapshots.{is_connected}

-- The ledger of a broadcast after the claim.
abbrev pub taken_ledger : CharacterSelection → LiveBroadcast → Ledger
taken_ledger s b = record (hold s.session_id s.character_id (ledger_of (some b))) {
  in_control = taken_by b.controller_session_id true s.session_id;
}

-- The character was free and of the roster, the session had none, and the broadcast is the one
-- that the selection names; after it, the session has the character.
pub record IsTaken (s : CharacterSelection) (before after : ProcessRuntime) : Type 0 where
  pub broadcast : LiveBroadcast
  pub running : before.broadcast ≡ some broadcast
  pub named : equal broadcast.id s.broadcast_id ≡ true
  pub listed : has s.character_id before.roster_by_id ≡ true
  pub unassigned : has s.session_id broadcast.assignments_by_session ≡ false
  pub unclaimed : has s.character_id broadcast.session_by_character ≡ false
  pub shown : Shows (taken_ledger s broadcast) after

-- A transaction that accepts has taken.
abbrev Takes : CharacterSelection → ProcessRuntime → Transition ActionResult → Type 0
Takes s r t = t.answer.accepted ≡ true → (t.accepted ≡ true) × IsTaken s r t.working.runtime

store_for-Shows :
    (l : Ledger) (r : ProcessRuntime) (limit : ℕ) (id : Bytes) (session : Option LogicalSession)
    (request : Bytes) (entry : RequestResultRecord)
    → Shows l r
    → Shows l (store_for r limit id session request entry)
store_for-Shows l r limit id none request entry h = h
store_for-Shows l r limit id (some session) request entry h = h

module _ (cfg : Config) (s : CharacterSelection) (c : Coordinator) where
  remembered-Shows :
      (l : Ledger) (result : ActionResult) (now : Coordinator)
      → Shows l now.runtime
      → Shows l (remembered cfg s result now).runtime
  unfolding store_request_result
  remembered-Shows l result now h =
      store_for-Shows l now.runtime cfg.request_result_limit s.session_id
        (lookup s.session_id now.runtime.sessions_by_id) s.request_id _ h

  accept_claim-Shows :
      (l : Ledger) (now : Coordinator)
      → Shows l now.runtime
      → Shows l (accept_claim cfg s now).working.runtime
  accept_claim-Shows l now h =
      append_current_terminal_effect-Shows cfg.source l (remembered cfg s _ now) _ s.session_id
        (remembered-Shows l _ now h)

  select_in-Takes :
      (b : LiveBroadcast)
      → c.runtime.broadcast ≡ some b
      → equal b.id s.broadcast_id ≡ true
      → Takes s c.runtime (select_in cfg s c b)
  select_in-Takes b on named =
      let T = Takes s c.runtime in
      if-cases T (has s.session_id b.assignments_by_session) (λ _ e. absurd (ground arith))
        (λ free.
          if-cases T (not (has s.character_id c.runtime.roster_by_id))
            (λ _ e. absurd (ground arith))
            (λ listed.
              if-cases T (has s.character_id b.session_by_character) (λ _ e. absurd (ground arith))
                (λ vacant e. (
                  refl,
                  record {
                    broadcast = b;
                    running = on;
                    named = named;
                    listed = ground (arith, listed);
                    unassigned = free;
                    unclaimed = vacant;
                    shown =
                        accept_claim-Shows (taken_ledger s b)
                          (with_broadcast c
                            (take_control true s.session_id (claim b s.session_id s.character_id)))
                          (claimed-shown true s.session_id s.character_id b);
                  },
                ))))

  select_current-Takes :
      (b : Option LiveBroadcast)
      → c.runtime.broadcast ≡ b
      → Takes s c.runtime (select_current cfg s c b)
  select_current-Takes none on = λ e. absurd (ground arith)
  select_current-Takes (some b) on =
      if-cases (Takes s c.runtime) (not (equal b.id s.broadcast_id)) (λ _ e. absurd (ground arith))
        (λ named. select_in-Takes b on (ground (arith, named)))

  select_for-Takes :
      (session : Option LogicalSession)
      → request_result c.runtime s.session_id s.request_id ≡ none
      → Takes s c.runtime (select_for cfg s c session)
  select_for-Takes none new = λ e. absurd (ground arith)
  select_for-Takes (some session) new =
      let T = Takes s c.runtime in
      if-cases T (equal s.request_id []) (λ _ e. absurd (ground arith))
        (λ _.
          if-cases T (not (is_connected session.connection_ids)) (λ _ e. absurd (ground arith))
            (λ _.
              subst (λ o. T (select_unless cfg s c o)) (sym new)
                (if-cases T (equal s.character_id []) (λ _ e. absurd (ground arith))
                  (λ _. select_current-Takes c.runtime.broadcast refl))))

pub stamped-accepted :
    (result : ActionResult) (n : ℕ)
    → (if result.accepted then record result { revision = n } else result).accepted
      ≡ result.accepted
stamped-accepted result n =
    if-cases (λ (r : ActionResult). r.accepted ≡ result.accepted) result.accepted (λ _. refl)
      (λ _. refl)

-- If `SelectCharacter` accepts a request that is new, then it names the broadcast that runs and a
-- character of the roster that no session has, and its session has no character; and then the
-- session has the character, it is in control if nobody was, and no other claim has changed.
pub select_character-IsTaken :
    (cfg : Config) (s : CharacterSelection) (c : Coordinator)
    → request_result c.runtime s.session_id s.request_id ≡ none
    → (select_character cfg s c).2.accepted ≡ true
    → IsTaken s c.runtime (select_character cfg s c).0.runtime
unfolding select_character select_step commit
select_character-IsTaken cfg s c new e =
    let t = select_step cfg s c in
    let (agreed, taken) =
      select_for-Takes cfg s c (lookup s.session_id c.runtime.sessions_by_id) new
        (sym (stamped-accepted t.answer _) ∙ e) in
    record {
      broadcast = taken.broadcast;
      running = taken.running;
      named = taken.named;
      listed = taken.listed;
      unassigned = taken.unassigned;
      unclaimed = taken.unclaimed;
      shown =
          commit-leads cfg (Shows (taken_ledger s taken.broadcast))
            (Shows-IsStable (taken_ledger s taken.broadcast) cfg.source) (select_step cfg s) c
            (inl agreed, taken.shown);
    }
