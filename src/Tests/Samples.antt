-- ===== src/Tests/Samples.antt =====
-- A small puzzle, a small tree, and a checkpoint of both.
use fallout_terminal.Common.{
  true, arith, ◌+◌, ◌*◌, ◌%◌, false, [], ◌∷◌, ◌++◌, none, some, pos, Bytes, refl,
}
use fallout_terminal.Domain.Hack.{
  HackState, HackColumn, HackCandidate, HackPatternIdentity, HackPattern,
}
use fallout_terminal.Domain.Runtime.{TerminalTarget, TerminalRuntime, no_selection, active}
use fallout_terminal.Domain.Tree.{
  ContentNode, node, leaf, child, NodeFields, node_folder, node_command, node_entry,
}
use fallout_terminal.Hack.Game.{IsPlayable}
use fallout_terminal.Hack.PatternId.{pattern_id}
use fallout_terminal.Hack.Random.{Random}
use fallout_terminal.Live.Runtime.{Source, Service}
use fallout_terminal.Nav.{default_state, root_id}

abbrev pub mixing : Random
mixing = record {
  answer = λ call limit. pos ((call * call * 7919 + call * 104729 + 12345) * 2654435761 % 1000003);
  calls = 0;
}

abbrev pub generation : Bytes
generation = b'g' ∷ b'1' ∷ []

abbrev pub able : Bytes
able = b'A' ∷ b'B' ∷ b'L' ∷ b'E' ∷ []

abbrev pub bark : Bytes
bark = b'B' ∷ b'A' ∷ b'R' ∷ b'K' ∷ []

abbrev pub able_id : Bytes
able_id = b'w' ∷ b'0' ∷ []

abbrev pub bark_id : Bytes
bark_id = b'w' ∷ b'1' ∷ []

abbrev pub candidate : Bytes → HackCandidate
candidate text = record { text = text }

-- The row `ABLE(.)BARK!`.
abbrev pub column : HackColumn
column = record {
  addresses = (b'0' ∷ []) ∷ [];
  text = able ++ (b'(' ∷ b'.' ∷ b')' ∷ (bark ++ (b'!' ∷ [])));
  words =
      record { id = able_id; start = 0; length = 4 }
      ∷ record { id = bark_id; start = 7; length = 4 }
      ∷ [];
}

abbrev pub small : HackState
small = record {
  generation_id = generation;
  level = pos 1;
  word_length = 4;
  attempts_max = 4;
  attempts_left = 4;
  secret_word = able;
  words_by_id = (able_id, candidate able) ∷ (bark_id, candidate bark) ∷ [];
  used_patterns = [];
  solved = false;
  failed = false;
  log = [];
  columns = column ∷ [];
}

pub small-IsPlayable : IsPlayable small
small-IsPlayable = record {
  has_attempts = omega arith;
  within = omega arith;
  lost_is = refl;
  one_end = refl;
}

abbrev pub brackets : HackPatternIdentity
brackets = record { generation_id = generation; row = 0; start = 4; end = 6 }

abbrev pub brackets_id : Bytes
brackets_id = pattern_id brackets

abbrev pub bracket_pattern : HackPattern
bracket_pattern = record {
  identity = brackets;
  column_index = 0;
  absolute_start = 4;
  absolute_end = 6;
  pair = b'(' ∷ b')' ∷ [];
}

abbrev pub plain_fields : Bytes → Bytes → NodeFields
plain_fields id kind = record {
  id = id;
  kind = kind;
  name = id;
  text = [];
  description = [];
  blocks = none;
  has_children = true;
  state_change = none;
  terminal_transition = none;
  extra = [];
}

abbrev pub entry_id : Bytes
entry_id = b'e' ∷ []

abbrev pub command_id : Bytes
command_id = b'c' ∷ []

abbrev pub inner_id : Bytes
inner_id = b'i' ∷ []

abbrev pub outer_id : Bytes
outer_id = b'o' ∷ []

abbrev pub inner : ContentNode
inner = node (plain_fields inner_id node_folder) leaf

abbrev pub outer : ContentNode
outer = node (plain_fields outer_id node_folder) (
    child (node (plain_fields entry_id node_entry) leaf)
      (child (node (plain_fields command_id node_command) leaf) (child inner leaf)))

abbrev pub tree : ContentNode
tree = node (plain_fields root_id node_folder) (child outer leaf)

abbrev pub target : TerminalTarget
target = record {
  terminal_id = b't' ∷ [];
  terminal_name = [];
  tree = tree;
  command_states =
      (
        command_id,
        record { completed_name = b'd' ∷ []; result_text = b'r' ∷ []; entry_content_change = none },
      )
      ∷ [];
  hack_level = pos 2;
  intro_text = [];
}

abbrev pub source : Source
source = record { sha256 = λ text. text; words = none; next_id = λ n. b'g' ∷ n ∷ [] }

abbrev pub service : Service
service = record { random = mixing; ids_drawn = 0 }

abbrev pub runtime : TerminalRuntime
runtime = record {
  terminal_id = target.terminal_id;
  terminal_name = target.terminal_name;
  tree = tree;
  command_states = target.command_states;
  command_execution = none;
  hack_level = target.hack_level;
  intro_text = target.intro_text;
  nav = default_state;
  hack = some small;
  presentation = record {
    kind = no_selection;
    context_key = [];
    target_id = [];
    pattern_id = [];
    page_index = 0;
  };
  lifecycle = active;
}
