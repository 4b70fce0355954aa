-- ===== src/Control/Links/Roster.antt =====
-- The roster changes only outside a broadcast.
use fallout_terminal.Common.{
  ℕ, Bool, false, Option, none, some, List, Bytes, Dict, has, is_some, ◌≡◌, inl, inr, refl, arith,
  Bool-cases, if-either, is_blank, not,
}
use fallout_terminal.Domain.Config.{validate_player_config}
use fallout_terminal.Domain.Coordination.{
  CharacterCreatePayload, CharacterUpdatePayload, CharacterDeletePayload, PlayerConfigHandle,
  LiveBroadcast, LogicalSession, CharacterRosterEntry,
}
use fallout_terminal.Control.Answers.{Reply}
use fallout_terminal.Control.Characters.{
  config_step, clear_config_step, profile_error, install_player_config, clear_player_config,
  save_with, persist_roster, roster_guard, keep_roster, add_step, add_character, same_text,
  update_entry, update_step, update_character, delete_step, delete_character,
}
use fallout_terminal.Control.Commit.{Config, Coordinator, Effect}
use fallout_terminal.Control.Commit.Kept.{Ends}
use fallout_terminal.Control.Links.{
  LinksIn, IsLinked, overseer-IsLinked, guarded-Ends, unless_refused-kept,
}

no_broadcast-links :
    (sessions : Dict LogicalSession) (roster : Dict CharacterRosterEntry) (b : Option LiveBroadcast)
    → is_some b ≡ false
    → LinksIn sessions roster b
no_broadcast-links sessions roster none e = tt
no_broadcast-links sessions roster (some b) e = absurd (cc)

module _ (cfg : Config) where
  save_with-runtime :
      (store : Option
        (ℕ → PlayerConfigHandle → List CharacterRosterEntry → Option PlayerConfigHandle))
      (c : Coordinator) (active : Option PlayerConfigHandle) (entries : List CharacterRosterEntry)
      → (save_with cfg store c active entries).0.runtime ≡ c.runtime
  save_with-runtime none c active entries = refl
  save_with-runtime (some store) c none entries = refl
  save_with-runtime (some store) c (some handle) entries = ground arith

  pub persist_roster-runtime :
      (c : Coordinator) (roster : Dict CharacterRosterEntry) (order : List Bytes)
      → (persist_roster cfg c roster order).0.runtime ≡ c.runtime
  unfolding persist_roster
  persist_roster-runtime c roster order =
      save_with-runtime cfg.roster_store c c.runtime.active_player_config _

  roster_guard-broadcast :
      (c : Coordinator) (n : ℕ) → roster_guard cfg c n ≡ none → is_some c.runtime.broadcast ≡ false
  roster_guard-broadcast c n e = ground arith

  keep_roster-Ends :
      (roster : Dict CharacterRosterEntry) (order : List Bytes)
      (saved : Coordinator × Option (Option PlayerConfigHandle))
      → is_some saved.0.runtime.broadcast ≡ false
      → Ends IsLinked (keep_roster cfg roster order saved)
  keep_roster-Ends roster order (c, none) e = inr (refl, refl)
  keep_roster-Ends roster order (c, some active) e =
      inl (no_broadcast-links _ _ c.runtime.broadcast e)

  keep_saved-Ends :
      (c : Coordinator) (roster saved_roster : Dict CharacterRosterEntry)
      (order saved_order : List Bytes)
      → is_some c.runtime.broadcast ≡ false
      → Ends IsLinked (keep_roster cfg roster order (persist_roster cfg c saved_roster saved_order))
  keep_saved-Ends c roster saved_roster order saved_order e =
      keep_roster-Ends roster order _ (rw (persist_roster-runtime c saved_roster saved_order) e)

  add_step-Ends :
      (payload : CharacterCreatePayload) (c : Coordinator) → Ends IsLinked (add_step cfg payload c)
  add_step-Ends payload c =
      guarded-Ends IsLinked (roster_guard cfg c payload.expected_revision) c _ (λ free.
        keep_saved-Ends _ _ _ _ _ (roster_guard-broadcast c payload.expected_revision free))

  update_entry-Ends :
      (payload : CharacterUpdatePayload) (c : Coordinator) (entry : Option CharacterRosterEntry)
      → is_some c.runtime.broadcast ≡ false
      → Ends IsLinked (update_entry cfg payload c entry)
  update_entry-Ends payload c none free = inr (refl, refl)
  update_entry-Ends payload c (some entry) free =
      guarded-Ends IsLinked (profile_error payload.name payload.intelligence) c _ (λ fit.
        if-either (Ends IsLinked) (same_text cfg entry payload) (inr (refl, refl))
          (keep_saved-Ends c _ _ _ _ free))

  update_step-Ends :
      (payload : CharacterUpdatePayload) (c : Coordinator)
      → Ends IsLinked (update_step cfg payload c)
  update_step-Ends payload c =
      guarded-Ends IsLinked (roster_guard cfg c payload.expected_revision) c _ (λ free.
        update_entry-Ends payload c _ (roster_guard-broadcast c payload.expected_revision free))

  delete_step-Ends :
      (payload : CharacterDeletePayload) (c : Coordinator)
      → Ends IsLinked (delete_step cfg payload c)
  delete_step-Ends payload c =
      guarded-Ends IsLinked (roster_guard cfg c payload.expected_revision) c _ (λ free.
        if-either (Ends IsLinked) (not (has payload.character_id c.runtime.roster_by_id))
          (inr (refl, refl))
          (keep_saved-Ends c _ _ _ _ (roster_guard-broadcast c payload.expected_revision free)))

  config_step-Ends :
      (handle : PlayerConfigHandle) (roster : List CharacterRosterEntry) (c : Coordinator)
      → Ends IsLinked (config_step handle roster c)
  config_step-Ends handle roster c = elim (Bool-cases (is_some c.runtime.broadcast)) [
    | inl on ↦ rw on (inr (refl, refl))
    | inr off ↦ rw off (inl (no_broadcast-links _ _ c.runtime.broadcast off))
  ]

  clear_config_step-Ends : (c : Coordinator) → Ends IsLinked (clear_config_step c)
  clear_config_step-Ends c = elim (Bool-cases (is_some c.runtime.broadcast)) [
    | inl on ↦ rw on (inr (refl, refl))
    | inr off ↦ rw off (inl (no_broadcast-links _ _ c.runtime.broadcast off))
  ]

  module _ (c : Coordinator) (h : IsLinked c.runtime) where
    pub install_player_config-IsLinked :
        (handle : PlayerConfigHandle) (present : Bool) (roster : List CharacterRosterEntry)
        → IsLinked (install_player_config cfg handle present roster c).0.runtime
    unfolding install_player_config
    install_player_config-IsLinked handle present roster =
        if-either (λ (done : Coordinator × List Effect × Reply). IsLinked done.0.runtime)
          (is_blank handle.path) h
          (if-either (λ (done : Coordinator × List Effect × Reply). IsLinked done.0.runtime)
            (is_some (validate_player_config handle.version handle.name present roster)) h
            (overseer-IsLinked cfg (config_step handle roster) c h
              (config_step-Ends handle roster c)))

    pub clear_player_config-IsLinked : IsLinked (clear_player_config cfg c).0.runtime
    unfolding clear_player_config
    clear_player_config-IsLinked =
        overseer-IsLinked cfg clear_config_step c h (clear_config_step-Ends c)

    pub add_character-IsLinked :
        (payload : CharacterCreatePayload) → IsLinked (add_character cfg payload c).0.runtime
    unfolding add_character
    add_character-IsLinked payload =
        unless_refused-kept IsLinked (profile_error payload.name payload.intelligence) c _ h
          (overseer-IsLinked cfg (add_step cfg payload) c h (add_step-Ends payload c))

    pub update_character-IsLinked :
        (payload : CharacterUpdatePayload) → IsLinked (update_character cfg payload c).0.runtime
    unfolding update_character
    update_character-IsLinked payload =
        overseer-IsLinked cfg (update_step cfg payload) c h (update_step-Ends payload c)

    pub delete_character-IsLinked :
        (payload : CharacterDeletePayload) → IsLinked (delete_character cfg payload c).0.runtime
    unfolding delete_character
    delete_character-IsLinked payload =
        overseer-IsLinked cfg (delete_step cfg payload) c h (delete_step-Ends payload c)
