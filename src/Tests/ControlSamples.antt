-- ===== src/Tests/ControlSamples.antt =====
-- A coordinator on its way: two browsers, a roster, a broadcast with a terminal.
use fallout_terminal.Common.{true, false, none, some, [], ◌∷◌, Bytes, pos, decimal}
use fallout_terminal.Domain.Coordination.{CharacterRosterEntry, LogicalSession, LiveBroadcast}
use fallout_terminal.Control.Broadcast.{new_coordinator, new_process_runtime, new_broadcast}
use fallout_terminal.Control.Commands.{PlayerCommand, guess}
use fallout_terminal.Control.Commit.{Catalog, Config, Coordinator}
use fallout_terminal.Control.Operations.{
  Operation, add, attach, start, assign, perform, Reach, created, later,
}
use fallout_terminal.Control.Selection.{CharacterSelection}
use fallout_terminal.Tests.Samples.{source, service, target, runtime, bark_id}

abbrev pub empty_catalog : Catalog
empty_catalog = record {
  lookup_terminal = λ id. none;
  lookup_terminal_transition = λ id command. none;
  lookup_terminal_group = λ id. none;
}

-- Without a store of rosters or groups, and with numbers for IDs.
abbrev pub config : Config
config = record {
  source = source;
  next_id = decimal;
  roster_store = none;
  group_store = none;
  catalog = λ call. empty_catalog;
  request_result_limit = 2;
}

abbrev pub first_session : Bytes
first_session = b'0' ∷ []

abbrev pub second_session : Bytes
second_session = b'2' ∷ []

abbrev pub vault_dweller : Bytes
vault_dweller = b'4' ∷ []

abbrev pub created_coordinator : Coordinator
created_coordinator = new_coordinator service

abbrev pub joining : Operation
joining = attach (b'c' ∷ []) []

abbrev pub joining_too : Operation
joining_too = attach (b'd' ∷ []) []

abbrev pub listing : Operation
listing = add (record {
  name = b'V' ∷ [];
  intelligence = pos 5;
  hacker_perk_available = true;
  expected_revision = 2;
})

abbrev pub assigning : Operation
assigning = assign first_session vault_dweller

-- Two browsers attach, a character is listed, a broadcast starts, and the first gets the character.
abbrev pub on_air : Coordinator
on_air = perform config assigning (
    perform config start (
      perform config listing
        (perform config joining_too (perform config joining created_coordinator))))

pub on_air-Reach : Reach config service on_air
on_air-Reach =
    later (later (later (later (later created joining) joining_too) listing) start) assigning

abbrev pub session_of : Bytes → Bytes → LogicalSession
session_of id connection = record {
  id = id;
  fallback_name = id;
  connection_ids = (connection, tt) ∷ [];
  request_results = [];
  notice = none;
}

abbrev pub player : Bytes
player = b's' ∷ []

abbrev pub guest : Bytes
guest = b'g' ∷ []

abbrev pub hero : Bytes
hero = b'h' ∷ []

abbrev pub spare : Bytes
spare = b'k' ∷ []

abbrev pub entry_of : Bytes → CharacterRosterEntry
entry_of id = record { id = id; name = id; intelligence = pos 5; hacker_perk_available = false }

abbrev pub broadcast_id : Bytes
broadcast_id = b'b' ∷ []

abbrev pub playing : LiveBroadcast
playing = record (new_broadcast broadcast_id) {
  assignments_by_session = (player, hero) ∷ [];
  session_by_character = (hero, player) ∷ [];
  controller_session_id = some player;
  active_terminal_id = some target.terminal_id;
  terminal_runtimes = (target.terminal_id, runtime) ∷ [];
}

-- A player at a terminal, and a guest without a character.
abbrev pub at_terminal : Coordinator
at_terminal = record created_coordinator {
  runtime = record new_process_runtime {
    sessions_by_id =
        (player, session_of player (b'c' ∷ [])) ∷ (guest, session_of guest (b'd' ∷ [])) ∷ [];
    roster_by_id = (hero, entry_of hero) ∷ (spare, entry_of spare) ∷ [];
    roster_order = hero ∷ spare ∷ [];
    broadcast = some playing;
  };
}

abbrev pub guessing : PlayerCommand
guessing = record {
  request_id = b'r' ∷ [];
  broadcast_id = broadcast_id;
  terminal_id = target.terminal_id;
  kind = guess;
  action = [];
  node_id = [];
  target_id = bark_id;
  pattern_id = [];
  presentation = record {
    kind = [];
    context_key = [];
    target_id = [];
    pattern_id = [];
    page_index = 0;
  };
  payload_fingerprint = [];
}

abbrev pub selecting : CharacterSelection
selecting = record {
  connection_id = b'd' ∷ [];
  session_id = guest;
  request_id = b'q' ∷ [];
  broadcast_id = broadcast_id;
  character_id = spare;
  fingerprint = [];
}
