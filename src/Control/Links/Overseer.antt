-- ===== src/Control/Links/Overseer.antt =====
-- The Overseer's operations on claims, control and names.
use fallout_terminal.Common.{
  Bool, true, false, Option, none, some, List, Bytes, Dict, has, lookup, insert, equal, equal_iff,
  is_some, ◌≡◌, ◌⊎◌, inl, inr, refl, arith, Option-cases, if-either, if-cases, is_blank, trim_space,
  rune_count, ltb, not, ◌&&◌,
}
use fallout_terminal.Domain.Coordination.{LiveBroadcast, LogicalSession, CharacterRosterEntry}
use fallout_terminal.Live.Runtime.{Source}
use fallout_terminal.Control.Answers.{Reply}
use fallout_terminal.Control.Assignment.{
  name_taken, rename_to, rename_step, max_fallback_name_runes, rename_logical_session,
  append_current_terminal_effect, claim, take_control, with_broadcast, assign_to, assign_step,
  assign_character, release, release_claim, release_step, release_character, move, move_step,
  move_character, control_to, set_active_controller,
}
use fallout_terminal.Control.Claims.{
  session_assigned, character_claimed, is_value, clear_controller_if_session,
}
use fallout_terminal.Control.Claims.Bound.{
  IsBound, owner_lookup, claim-IsBound, release-IsBound, move-IsBound, unassigned_lookup,
  unclaimed_lookup, assigned_has,
}
use fallout_terminal.Control.Commit.{Config, Coordinator, Effect}
use fallout_terminal.Control.Commit.Kept.{Ends}
use fallout_terminal.Control.Links.{
  LinksIn, IsLinked, overseer-IsLinked, LinksIn-insert, IsLinked-IsStable,
}
use fallout_terminal.Control.Snapshots.{is_connected}

rename_to-Ends :
    (id name : Bytes) (c : Coordinator) (session : Option LogicalSession)
    → IsLinked c.runtime
    → Ends IsLinked (rename_to id name c session)
rename_to-Ends id name c none h = inr (refl, refl)
rename_to-Ends id name c (some session) h =
    if-either (Ends IsLinked) (equal session.fallback_name name) (inr (refl, refl)) (
      if-either (Ends IsLinked) (name_taken id name c.runtime.sessions_by_id) (inr (refl, refl)) (
        inl (
          LinksIn-insert id (record session { fallback_name = name }) c.runtime.sessions_by_id
            c.runtime.roster_by_id c.runtime.broadcast h)))

-- Who comes into control by a claim is the one that was, or the claimant.
pub take_control-either :
    (able : Bool) (s t : Bytes) (b : LiveBroadcast)
    → (take_control able s b).controller_session_id ≡ some t
    → (b.controller_session_id ≡ some t) ⊎ (t ≡ s)
take_control-either able s t b e = ground arith

pub claimed-links :
    (able : Bool) (s c : Bytes) (b : LiveBroadcast) (sessions : Dict LogicalSession)
    (roster : Dict CharacterRosterEntry)
    → LinksIn sessions roster (some b)
    → has s sessions ≡ true
    → has c roster ≡ true
    → lookup s b.assignments_by_session ≡ none
    → lookup c b.session_by_character ≡ none
    → LinksIn sessions roster (some (take_control able s (claim b s c)))
unfolding claim
claimed-links able s c b sessions roster h known listed free vacant =
    let bound =
      λ (controller : Option Bytes)
          (keeps : (t : Bytes)
            → controller ≡ some t
            → (b.controller_session_id ≡ some t) ⊎ (t ≡ s)).
        claim-IsBound b h s c controller known listed free vacant keeps in
    if-either (λ (b' : LiveBroadcast). LinksIn sessions roster (some b'))
      (not (is_some b.controller_session_id) && able) (bound (some s) (λ t e. ground arith))
      (bound b.controller_session_id (λ t e. inl e))

pub append_current_terminal_effect-IsLinked :
    (source : Source) (c : Coordinator) (effects : List Effect) (session : Bytes)
    → IsLinked c.runtime
    → IsLinked (append_current_terminal_effect source c effects session).0.runtime
unfolding append_current_terminal_effect
append_current_terminal_effect-IsLinked source c effects session h =
    (IsLinked-IsStable source).0 c.runtime h

assign_to-Ends :
    (source : Source) (id character : Bytes) (c : Coordinator) (b : Option LiveBroadcast)
    (session : Option LogicalSession)
    → lookup id c.runtime.sessions_by_id ≡ session
    → LinksIn c.runtime.sessions_by_id c.runtime.roster_by_id b
    → Ends IsLinked (assign_to source id character c b session)
assign_to-Ends source id character c none session e h = inr (refl, refl)
assign_to-Ends source id character c (some b) none e h = inr (refl, refl)
assign_to-Ends source id character c (some b) (some session) e h =
    let next =
      λ (listed : not (has character c.runtime.roster_by_id) ≡ false)
          (free : session_assigned b id ≡ false) (vacant : character_claimed b character ≡ false).
        claimed-links (is_connected session.connection_ids) id character b c.runtime.sessions_by_id
          c.runtime.roster_by_id h (ground (arith, e)) (ground (arith, listed))
          (unassigned_lookup b id free) (unclaimed_lookup b character vacant) in
    if-cases (Ends IsLinked) (not (has character c.runtime.roster_by_id)) (λ _. inr (refl, refl))
      (λ listed.
        if-cases (Ends IsLinked) (session_assigned b id) (λ _. inr (refl, refl))
          (λ free.
            if-cases (Ends IsLinked) (character_claimed b character) (λ _. inr (refl, refl))
              (λ vacant. inl (
                append_current_terminal_effect-IsLinked source
                  (with_broadcast c
                    (take_control (is_connected session.connection_ids) id (claim b id character)))
                  _ id (next listed free vacant)))))

released-links :
    (s c : Bytes) (b : LiveBroadcast) (sessions : Dict LogicalSession)
    (roster : Dict CharacterRosterEntry)
    → LinksIn sessions roster (some b)
    → lookup s b.assignments_by_session ≡ some c
    → LinksIn sessions roster (some (release b s c))
unfolding release clear_controller_if_session
released-links s c b sessions roster h had =
    if-cases (λ (b' : LiveBroadcast). LinksIn sessions roster (some b'))
      (is_value b.controller_session_id s)
      (λ on. release-IsBound b h s c none had (λ t e. absurd (cc)))
      (λ off.
        release-IsBound b h s c b.controller_session_id had
          (λ t e. ground (arith, off, equal_iff s t, equal_iff t s)))

release_step-Ends :
    (id : Bytes) (c : Coordinator) (b : Option LiveBroadcast)
    → LinksIn c.runtime.sessions_by_id c.runtime.roster_by_id b
    → Ends IsLinked (release_step id c b)
release_step-Ends id c none h = inr (refl, refl)
release_step-Ends id c (some b) h =
    if-either (Ends IsLinked) (not (has id c.runtime.sessions_by_id)) (inr (refl, refl))
      (go (lookup id b.assignments_by_session) refl)
  where
    go :
        (character : Option Bytes)
        → lookup id b.assignments_by_session ≡ character
        → Ends IsLinked (release_claim id c b character)
    go none e = inr (refl, refl)
    go (some character) e =
        inl (released-links id character b c.runtime.sessions_by_id c.runtime.roster_by_id h e)

moved-links :
    (to c : Bytes) (b : LiveBroadcast) (sessions : Dict LogicalSession)
    (roster : Dict CharacterRosterEntry)
    → LinksIn sessions roster (some b)
    → has to sessions ≡ true
    → has c roster ≡ true
    → lookup to b.assignments_by_session ≡ none
    → LinksIn sessions roster (some (move b c to))
unfolding move claim clear_controller_if_session
moved-links to c b sessions roster h known listed free =
    elim (Option-cases (lookup c b.session_by_character)) [
      | inl vacant ↦
          rw (owner_lookup b h c, vacant)
            (claim-IsBound b h to c b.controller_session_id known listed free vacant (λ t e. inl e))
      | inr (from, had) ↦
          rw (owner_lookup b h c, had)
            (if-cases
              (λ (b' : LiveBroadcast).
                IsBound (λ s. has s sessions) (λ d. has d roster)
                  (insert to c b'.assignments_by_session) (insert c to b'.session_by_character)
                  b'.controller_session_id)
              (is_value b.controller_session_id from)
              (λ on. move-IsBound b h from to c none had known free (λ t e. absurd (cc)))
              (λ off.
                move-IsBound b h from to c b.controller_session_id had known free
                  (λ t e. ground (arith, off, equal_iff from t, equal_iff t from))))
    ]

move_step-Ends :
    (character to : Bytes) (c : Coordinator) (b : Option LiveBroadcast)
    → LinksIn c.runtime.sessions_by_id c.runtime.roster_by_id b
    → Ends IsLinked (move_step character to c b)
move_step-Ends character to c none h = inr (refl, refl)
move_step-Ends character to c (some b) h =
    if-cases (Ends IsLinked) (not (has character c.runtime.roster_by_id)) (λ _. inr (refl, refl))
      (λ listed.
        if-cases (Ends IsLinked) (not (has to c.runtime.sessions_by_id)) (λ _. inr (refl, refl))
          (λ known.
            if-cases (Ends IsLinked) (session_assigned b to) (λ _. inr (refl, refl))
              (λ free. inl (
                moved-links to character b c.runtime.sessions_by_id c.runtime.roster_by_id h
                  (ground (arith, known)) (ground (arith, listed)) (unassigned_lookup b to free)))))

controlled-links :
    (s : Bytes) (b : LiveBroadcast) (sessions : Dict LogicalSession)
    (roster : Dict CharacterRosterEntry)
    → LinksIn sessions roster (some b)
    → session_assigned b s ≡ true
    → LinksIn sessions roster (some (record b { controller_session_id = some s }))
controlled-links s b sessions roster h assigned = record {
  assigned = h.assigned;
  owned = h.owned;
  recognized = h.recognized;
  listed = h.listed;
  once = h.once;
  once_back = h.once_back;
  controlling = λ t e. ground (arith, e, assigned_has b h s assigned);
}

control_to-Ends :
    (id : Bytes) (c : Coordinator) (b : Option LiveBroadcast) (session : Option LogicalSession)
    → LinksIn c.runtime.sessions_by_id c.runtime.roster_by_id b
    → Ends IsLinked (control_to id c b session)
control_to-Ends id c none session h = inr (refl, refl)
control_to-Ends id c (some b) none h = inr (refl, refl)
control_to-Ends id c (some b) (some session) h =
    if-cases (Ends IsLinked) (not (session_assigned b id)) (λ _. inr (refl, refl))
      (λ has_one.
        if-either (Ends IsLinked) (not (is_connected session.connection_ids)) (inr (refl, refl)) (
          if-either (Ends IsLinked) (is_value b.controller_session_id id) (inr (refl, refl)) (
            inl (
              controlled-links id b c.runtime.sessions_by_id c.runtime.roster_by_id h
                (ground (arith, has_one))))))

module _ (cfg : Config) (c : Coordinator) (h : IsLinked c.runtime) where
  pub rename_logical_session-IsLinked :
      (id name : Bytes) → IsLinked (rename_logical_session cfg id name c).0.runtime
  unfolding rename_logical_session
  rename_logical_session-IsLinked id name =
      if-either (λ (done : Coordinator × List Effect × Reply). IsLinked done.0.runtime)
        (is_blank name) h
        (if-either (λ (done : Coordinator × List Effect × Reply). IsLinked done.0.runtime)
          (ltb max_fallback_name_runes (rune_count (trim_space name))) h
          (overseer-IsLinked cfg (rename_step id (trim_space name)) c h
            (rename_to-Ends id (trim_space name) c (lookup id c.runtime.sessions_by_id) h)))

  pub assign_character-IsLinked :
      (id character : Bytes) → IsLinked (assign_character cfg id character c).0.runtime
  unfolding assign_character
  assign_character-IsLinked id character =
      overseer-IsLinked cfg (assign_step cfg.source id character) c h (
        assign_to-Ends cfg.source id character c c.runtime.broadcast
          (lookup id c.runtime.sessions_by_id) refl h)

  pub release_character-IsLinked : (id : Bytes) → IsLinked (release_character cfg id c).0.runtime
  unfolding release_character
  release_character-IsLinked id =
      overseer-IsLinked cfg (λ now. release_step id now now.runtime.broadcast) c h
        (release_step-Ends id c c.runtime.broadcast h)

  pub move_character-IsLinked :
      (character to : Bytes) → IsLinked (move_character cfg character to c).0.runtime
  unfolding move_character
  move_character-IsLinked character to =
      overseer-IsLinked cfg (λ now. move_step character to now now.runtime.broadcast) c h
        (move_step-Ends character to c c.runtime.broadcast h)

  pub set_active_controller-IsLinked :
      (id : Bytes) → IsLinked (set_active_controller cfg id c).0.runtime
  unfolding set_active_controller
  set_active_controller-IsLinked id =
      overseer-IsLinked cfg
        (λ now. control_to id now now.runtime.broadcast (lookup id now.runtime.sessions_by_id)) c h
        (control_to-Ends id c c.runtime.broadcast (lookup id c.runtime.sessions_by_id) h)
