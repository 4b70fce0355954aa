-- ===== src/Control/Characters.antt =====
-- internal/control/service.go: the player config and its roster, outside a broadcast.
use fallout_terminal.Common.{
  ℕ, suc, Bool, not, ◌&&◌, ◌||◌, Option, none, some, List, [], ◌∷◌, ◌++◌, ℤ, leb_ℤ, Bytes, Dict,
  equal, lookup, insert, delete, has, is_some, is_blank, trim_space, rune_count, ltb, ◌==◌,
  if◌then◌else◌,
}
use fallout_terminal.Domain.Coordination.{
  CharacterRosterEntry, CharacterCreatePayload, CharacterUpdatePayload, CharacterDeletePayload,
  PlayerConfigHandle,
}
use fallout_terminal.Domain.Config.{
  max_character_name_runes, validate_player_config, bad_intelligence_value,
}
use fallout_terminal.Control.Answers.{
  CoordinationError, config_path_blank, config_invalid, config_during_broadcast, config_required,
  stale_revision, roster_during_broadcast, unknown_character, save_failed, name_blank,
  name_too_long, bad_intelligence, Reply, refuse, guarded, unless_refused, accept, with_runtime,
  overseer, refused_early,
}
use fallout_terminal.Control.Commit.{Config, Coordinator, Effect, Transition}
use fallout_terminal.Control.Roster.{roster_entries}

-- The roster and its order that `InstallPlayerConfig` builds.
unfoldable pub roster_of :
    List CharacterRosterEntry → Dict CharacterRosterEntry → Dict CharacterRosterEntry
unfolding insert
roster_of [] roster = roster
roster_of (entry ∷ entries) roster = roster_of entries (insert entry.id entry roster)

abbrev pub ids_of : List CharacterRosterEntry → List Bytes
ids_of [] = []
ids_of (entry ∷ entries) = entry.id ∷ ids_of entries

abbrev pub config_step :
    PlayerConfigHandle
    → List CharacterRosterEntry
    → Coordinator
    → Transition (Option CoordinationError)
config_step handle roster c =
    if is_some c.runtime.broadcast
    then refuse c (some config_during_broadcast)
    else accept (
        with_runtime c (record c.runtime {
          roster_by_id = roster_of roster [];
          roster_order = ids_of roster;
          active_player_config = some handle;
        }))

abbrev pub clear_config_step : Coordinator → Transition (Option CoordinationError)
clear_config_step c =
    if is_some c.runtime.broadcast
    then refuse c (some config_during_broadcast)
    else accept (
        with_runtime c
          (record c.runtime { roster_by_id = []; roster_order = []; active_player_config = none }))

-- The profile of a character with its name trimmed.
abbrev pub profile : Bytes → Bytes → ℤ → Bool → CharacterRosterEntry
profile id name intelligence perk = record {
  id = id;
  name = name;
  intelligence = intelligence;
  hacker_perk_available = perk;
}

-- `ValidateCharacterName` and `ValidateCharacterIntelligence`, one after the other.
abbrev pub profile_error : Bytes → ℤ → Option CoordinationError
profile_error name intelligence =
    if is_blank name
    then some name_blank
    else if ltb max_character_name_runes (rune_count (trim_space name))
    then some name_too_long
    else if bad_intelligence_value intelligence
    then some bad_intelligence
    else none

module _ (cfg : Config) where
  -- `InstallPlayerConfig`. A nil roster is told from an empty one by `present`.
  unfoldable pub install_player_config :
      PlayerConfigHandle
      → Bool
      → List CharacterRosterEntry
      → Coordinator
      → Coordinator × List Effect × Reply
  unfolding roster_of overseer validate_player_config
  install_player_config handle present roster c =
      if is_blank handle.path
      then refused_early c config_path_blank
      else if is_some (validate_player_config handle.version handle.name present roster)
      then refused_early c config_invalid
      else overseer cfg (config_step handle roster) c

  -- `ClearPlayerConfig`.
  unfoldable pub clear_player_config : Coordinator → Coordinator × List Effect × Reply
  unfolding overseer
  clear_player_config c = overseer cfg clear_config_step c

  abbrev pub save_with :
      Option (ℕ → PlayerConfigHandle → List CharacterRosterEntry → Option PlayerConfigHandle)
      → Coordinator
      → Option PlayerConfigHandle
      → List CharacterRosterEntry
      → Coordinator × Option (Option PlayerConfigHandle)
  save_with none c active entries = (c, some active)
  save_with (some store) c none entries = (c, none)
  save_with (some store) c (some handle) entries = elim (store c.asked handle entries) [
    | none ↦ (record c { asked = suc c.asked }, none)
    | some refreshed ↦ (record c { asked = suc c.asked }, some (some refreshed))
  ]

  -- `persistRoster`: the config that is active afterwards, unless it fails.
  unfoldable pub persist_roster :
      Coordinator
      → Dict CharacterRosterEntry
      → List Bytes
      → Coordinator × Option (Option PlayerConfigHandle)
  unfolding roster_entries
  persist_roster c roster order =
      save_with cfg.roster_store c c.runtime.active_player_config (roster_entries roster order)

  -- What stops a change of the roster.
  abbrev pub roster_guard : Coordinator → ℕ → Option CoordinationError
  roster_guard c expected =
      if not (expected == c.runtime.revision)
      then some stale_revision
      else if is_some cfg.roster_store && not (is_some c.runtime.active_player_config)
      then some config_required
      else if is_some c.runtime.broadcast
      then some roster_during_broadcast
      else none

  abbrev pub keep_roster :
      Dict CharacterRosterEntry
      → List Bytes
      → Coordinator × Option (Option PlayerConfigHandle)
      → Transition (Option CoordinationError)
  keep_roster roster order (c, none) = refuse c (some save_failed)
  keep_roster roster order (c, some active) = accept (
      with_runtime c (record c.runtime {
        roster_by_id = roster;
        roster_order = order;
        active_player_config = active;
      }))

  abbrev pub add_step : CharacterCreatePayload → Coordinator → Transition (Option CoordinationError)
  add_step payload c =
      let id = cfg.next_id c.asked in
      let entry =
        profile id (trim_space payload.name) payload.intelligence payload.hacker_perk_available in
      let roster = insert id entry c.runtime.roster_by_id in
      let order = c.runtime.roster_order ++ (id ∷ []) in
      guarded (roster_guard c payload.expected_revision) c
        (keep_roster roster order (persist_roster (record c { asked = suc c.asked }) roster order))

  -- `AddCharacter`.
  unfoldable pub add_character :
      CharacterCreatePayload → Coordinator → Coordinator × List Effect × Reply
  unfolding persist_roster insert overseer
  add_character payload c =
      unless_refused (profile_error payload.name payload.intelligence) c
        (overseer cfg (add_step payload) c)

  abbrev pub same_text : CharacterRosterEntry → CharacterUpdatePayload → Bool
  same_text entry payload =
      equal entry.name (trim_space payload.name)
      && leb_ℤ entry.intelligence payload.intelligence
      && leb_ℤ payload.intelligence entry.intelligence
      && (entry.hacker_perk_available || not payload.hacker_perk_available)
      && (payload.hacker_perk_available || not entry.hacker_perk_available)

  abbrev pub update_entry :
      CharacterUpdatePayload
      → Coordinator
      → Option CharacterRosterEntry
      → Transition (Option CoordinationError)
  update_entry payload c none = refuse c (some unknown_character)
  update_entry payload c (some entry) =
      let id = payload.character_id in
      let next =
        profile id (trim_space payload.name) payload.intelligence payload.hacker_perk_available in
      let saved = persist_roster c (insert id next c.runtime.roster_by_id) c.runtime.roster_order in
      let changed = insert id (record next { id = entry.id }) c.runtime.roster_by_id in
      guarded (profile_error payload.name payload.intelligence) c (
        if same_text entry payload
        then refuse c none
        else keep_roster changed c.runtime.roster_order saved)

  abbrev pub update_step :
      CharacterUpdatePayload → Coordinator → Transition (Option CoordinationError)
  update_step payload c =
      guarded (roster_guard c payload.expected_revision) c
        (update_entry payload c (lookup payload.character_id c.runtime.roster_by_id))

  -- `UpdateCharacter`.
  unfoldable pub update_character :
      CharacterUpdatePayload → Coordinator → Coordinator × List Effect × Reply
  unfolding persist_roster lookup insert overseer
  update_character payload c = overseer cfg (update_step payload) c

  -- The loop that leaves one ID out.
  unfoldable pub without : Bytes → List Bytes → List Bytes
  unfolding equal
  without id [] = []
  without id (key ∷ ids) = let rest = without id ids in if equal key id then rest else key ∷ rest

  abbrev pub delete_step :
      CharacterDeletePayload → Coordinator → Transition (Option CoordinationError)
  delete_step payload c =
      let id = payload.character_id in
      let roster = delete id c.runtime.roster_by_id in
      let order = without id c.runtime.roster_order in
      guarded (roster_guard c payload.expected_revision) c (
        if not (has id c.runtime.roster_by_id)
        then refuse c (some unknown_character)
        else keep_roster roster order (persist_roster c roster order))

  -- `DeleteCharacter`.
  unfoldable pub delete_character :
      CharacterDeletePayload → Coordinator → Coordinator × List Effect × Reply
  unfolding persist_roster lookup delete without overseer
  delete_character payload c = overseer cfg (delete_step payload) c
