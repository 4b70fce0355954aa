-- ===== src/Control/Roster.antt =====
-- internal/control/service.go: the roster in its order.
use fallout_terminal.Common.{
  Bool, not, ◌&&◌, Option, none, some, List, [], ◌∷◌, ◌++◌, Bytes, Dict, equal, lookup, has, keys,
  sorted, any, if◌then◌else◌,
}
use fallout_terminal.Domain.Coordination.{CharacterRosterEntry}

abbrev pub contains : List Bytes → Bytes → Bool
contains ids id = any (equal id) ids

-- The loop over `RosterOrder`; `seen` are the IDs that it has met.
unfoldable pub in_order : Dict CharacterRosterEntry → List Bytes → List Bytes → List Bytes
unfolding lookup equal
in_order roster seen [] = []
in_order roster seen (id ∷ order) =
    let kept = id ∷ in_order roster (id ∷ seen) order in
    let skipped = in_order roster seen order in
    if has id roster && not (contains seen id) then kept else skipped

-- The loop over the map: the keys that `ids` does not hold.
unfoldable pub others : List Bytes → List Bytes → List Bytes
unfolding equal
others ids [] = []
others ids (key ∷ rest) =
    let more = others ids rest in if contains ids key then more else key ∷ more

-- `orderedRosterIDs`.
unfoldable pub ordered_roster_ids : Dict CharacterRosterEntry → List Bytes → List Bytes
unfolding in_order others sorted
ordered_roster_ids roster order =
    let ids = in_order roster [] order in ids ++ sorted (others ids (keys roster))

abbrev pub with_entry :
    Option CharacterRosterEntry → List CharacterRosterEntry → List CharacterRosterEntry
with_entry none entries = entries
with_entry (some entry) entries = entry ∷ entries

unfoldable pub entries_at : Dict CharacterRosterEntry → List Bytes → List CharacterRosterEntry
unfolding lookup
entries_at roster [] = []
entries_at roster (id ∷ ids) = with_entry (lookup id roster) (entries_at roster ids)

-- `rosterEntries`.
unfoldable pub roster_entries : Dict CharacterRosterEntry → List Bytes → List CharacterRosterEntry
unfolding ordered_roster_ids entries_at
roster_entries roster order = entries_at roster (ordered_roster_ids roster order)
