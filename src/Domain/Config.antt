-- ===== src/Domain/Config.antt =====
-- internal/domain/validate.go: `ValidatePlayerConfig`. Errors are told apart without their paths.
use fallout_terminal.Common.{
  Bool, not, ◌&&◌, ◌||◌, Option, none, some, List, [], ◌∷◌, ℕ, ℤ, pos, leb_ℤ, Bytes, equal, any,
  is_blank, rune_count, ltb, length, if◌then◌else◌,
}
use fallout_terminal.Domain.Coordination.{CharacterRosterEntry}
use fallout_terminal.Domain.Validate.{lacks, max_name_bytes}

abbrev pub max_character_name_runes : ℕ
max_character_name_runes = 80

abbrev pub max_roster_entries : ℕ
max_roster_entries = 1000

-- `ValidateCharacterIntelligence` fails.
abbrev pub bad_intelligence_value : ℤ → Bool
bad_intelligence_value value = not (leb_ℤ (pos 1) value) || not (leb_ℤ value (pos 10))

pub data ConfigError : Type 0 where
  bad_version bad_name no_roster too_many bad_id duplicate_id blank_name long_name : ConfigError
  bad_entry_intelligence : ConfigError

-- The loop over the roster; `ids` are the IDs that it has met.
unfoldable pub roster_error : List Bytes → List CharacterRosterEntry → Option ConfigError
unfolding equal
roster_error ids [] = none
roster_error ids (entry ∷ entries) =
    let rest = roster_error (entry.id ∷ ids) entries in
    if lacks entry.id max_name_bytes
    then some bad_id
    else if any (equal entry.id) ids
    then some duplicate_id
    else if is_blank entry.name
    then some blank_name
    else if ltb max_character_name_runes (rune_count entry.name)
    then some long_name
    else if bad_intelligence_value entry.intelligence
    then some bad_entry_intelligence
    else rest

-- `ValidatePlayerConfig` of a version, a name, and a roster that is nil unless `present`.
unfoldable pub validate_player_config :
    ℤ → Bytes → Bool → List CharacterRosterEntry → Option ConfigError
unfolding roster_error
validate_player_config version name present roster =
    if not (leb_ℤ (pos 1) version && leb_ℤ version (pos 1))
    then some bad_version
    else if lacks name max_name_bytes
    then some bad_name
    else if not present
    then some no_roster
    else if ltb max_roster_entries (length roster)
    then some too_many
    else roster_error [] roster
