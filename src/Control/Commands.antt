-- ===== src/Control/Commands.antt =====
-- internal/control/service.go: the commands that players send, and what they select.
use fallout_terminal.Common.{
  ℕ, Bool, true, false, not, ◌&&◌, ◌||◌, Option, none, some, List, [], ◌∷◌, Bytes, equal, lookup,
  has, is_some, is_blank, trim_space, leb, length, ◌==◌, decimal, utf8, if◌then◌else◌,
}
use fallout_terminal.Domain.Coordination.{
  CommandApprovalMode, ordinary, state_change, completed_state_change, TerminalReturnPoint,
}
use fallout_terminal.Domain.Runtime.{
  Presentation, PresentationKind, no_selection, menu, page, hacking, TerminalRuntime,
  RuntimeCommand,
}
use fallout_terminal.Domain.Tree.{
  ContentNode, StateChangeConfig, CommandExecutionState, NavState, fields, node_command,
}
use fallout_terminal.Nav.{descend, child_in, direct_child}
use fallout_terminal.Control.Requests.{fingerprint_fields}

pub data RuntimeCommandKind : Type 0 where
  select_character navigate guess activate_pattern presentation : RuntimeCommandKind

-- `ControllerTerminalPresentation` as it comes in: any kind.
pub record SentPresentation : Type 0 where
  pub kind : Bytes
  pub context_key : Bytes
  pub target_id : Bytes
  pub pattern_id : Bytes
  pub page_index : ℕ

-- `RuntimeCommand` as it comes in: any fields.
pub record PlayerCommand : Type 0 where
  pub request_id : Bytes
  pub broadcast_id : Bytes
  pub terminal_id : Bytes
  pub kind : RuntimeCommandKind
  pub action : Bytes
  pub node_id : Bytes
  pub target_id : Bytes
  pub pattern_id : Bytes
  pub presentation : SentPresentation
  pub payload_fingerprint : Bytes

abbrev pub max_action_target_bytes : ℕ
max_action_target_bytes = 256

abbrev pub max_presentation_page_index : ℕ
max_presentation_page_index = 10000

unfoldable pub all_printable : Bytes → Bool
all_printable [] = true
all_printable (c ∷ cs) = leb 0x21 c && leb c 0x7e && all_printable cs

-- `ValidatePublicField` of an action target gives no error. A text whose characters all are
-- printable ASCII is valid UTF-8.
unfoldable pub valid_action_target : Bytes → Bool
unfolding equal trim_space all_printable
valid_action_target value =
    not (equal value [])
    && equal (trim_space value) value
    && leb (length value) max_action_target_bytes
    && all_printable value

abbrev pub is_none : Bytes → Bool
is_none text = equal text []

abbrev pub valid_navigation : PlayerCommand → Bool
valid_navigation command =
    is_none command.target_id
    && is_none command.pattern_id
    && (if equal command.action (utf8 "enter")
          || equal command.action (utf8 "command")
          || equal command.action (utf8 "entry")
        then not (is_blank command.node_id)
        else equal command.action (utf8 "back")
          && (is_none command.node_id || not (is_blank command.node_id)))

abbrev pub valid_selection : SentPresentation → Bool
valid_selection sent =
    if equal sent.kind (utf8 "none")
    then is_none sent.target_id && is_none sent.pattern_id && sent.page_index == 0
    else if equal sent.kind (utf8 "menu")
    then valid_action_target sent.target_id && is_none sent.pattern_id && sent.page_index == 0
    else if equal sent.kind (utf8 "page")
    then is_none sent.target_id
      && is_none sent.pattern_id
      && leb sent.page_index max_presentation_page_index
    else equal sent.kind (utf8 "hacking")
      && sent.page_index == 0
      && (not (is_none sent.target_id)
            && is_none sent.pattern_id
            && valid_action_target sent.target_id
          || not (is_none sent.pattern_id)
            && is_none sent.target_id
            && valid_action_target sent.pattern_id)

abbrev pub valid_kind : RuntimeCommandKind → PlayerCommand → Bool
valid_kind select_character command = false
valid_kind navigate command = valid_navigation command
valid_kind guess command =
    not (is_blank command.target_id)
    && is_none command.action
    && is_none command.node_id
    && is_none command.pattern_id
valid_kind activate_pattern command =
    not (is_blank command.pattern_id)
    && is_none command.action
    && is_none command.node_id
    && is_none command.target_id
valid_kind presentation command =
    is_none command.action
    && is_none command.node_id
    && is_none command.target_id
    && is_none command.pattern_id
    && valid_action_target command.presentation.context_key
    && valid_selection command.presentation

-- `validRuntimeCommand`.
unfoldable pub valid_runtime_command : PlayerCommand → Bool
unfolding equal valid_action_target
valid_runtime_command command =
    not (is_none command.request_id)
    && not (is_none command.broadcast_id)
    && not (is_blank command.terminal_id)
    && valid_kind command.kind command

abbrev pub kind_text : RuntimeCommandKind → Bytes
kind_text select_character = utf8 "select-character"
kind_text navigate = utf8 "navigate"
kind_text guess = utf8 "guess"
kind_text activate_pattern = utf8 "activate-pattern"
kind_text presentation = utf8 "presentation"

-- The fields that `playerActionFingerprint` prints.
abbrev pub action_fields : PlayerCommand → List Bytes
action_fields command =
    kind_text command.kind
    ∷ command.broadcast_id
    ∷ command.terminal_id
    ∷ command.action
    ∷ command.node_id
    ∷ command.target_id
    ∷ command.pattern_id
    ∷ command.presentation.kind
    ∷ command.presentation.context_key
    ∷ command.presentation.target_id
    ∷ command.presentation.pattern_id
    ∷ decimal command.presentation.page_index
    ∷ []

-- `playerActionFingerprint`.
unfoldable pub player_action_fingerprint : PlayerCommand → Bytes
unfolding equal fingerprint_fields
player_action_fingerprint command =
    if equal command.payload_fingerprint []
    then fingerprint_fields (action_fields command)
    else command.payload_fingerprint

abbrev pub presentation_kind : Bytes → PresentationKind
presentation_kind text =
    if equal text (utf8 "menu")
    then menu
    else if equal text (utf8 "page")
    then page
    else if equal text (utf8 "hacking")
    then hacking
    else no_selection

abbrev pub as_presentation : SentPresentation → Presentation
as_presentation sent = record {
  kind = presentation_kind sent.kind;
  context_key = sent.context_key;
  target_id = sent.target_id;
  pattern_id = sent.pattern_id;
  page_index = sent.page_index;
}

abbrev pub command_of_kind : RuntimeCommandKind → PlayerCommand → RuntimeCommand
command_of_kind select_character command = RuntimeCommand.select_character
command_of_kind navigate command = RuntimeCommand.navigate command.action command.node_id
command_of_kind guess command = RuntimeCommand.guess command.target_id
command_of_kind activate_pattern command = RuntimeCommand.activate_pattern command.pattern_id
command_of_kind presentation command = RuntimeCommand.present (as_presentation command.presentation)

-- What the live terminal reads of a command.
unfoldable pub runtime_command : PlayerCommand → RuntimeCommand
unfolding equal
runtime_command command = command_of_kind command.kind command

abbrev pub is_navigation : RuntimeCommandKind → Bytes → PlayerCommand → Bool
is_navigation navigate name command = equal command.action name
is_navigation _ name command = false

abbrev pub is_presentation : RuntimeCommandKind → Bool
is_presentation presentation = true
is_presentation _ = false

abbrev pub command_in : Bytes → Option ContentNode → Option ContentNode
command_in id none = none
command_in id (some folder) = direct_child folder id node_command

abbrev pub command_below : TerminalRuntime → Bytes → List Bytes → Option ContentNode
command_below state id [] = none
command_below state id (root ∷ path) =
    if equal root (fields state.tree).id then command_in id (descend state.tree path) else none

-- The command of this ID in the folder where the players are.
unfoldable pub command_here : TerminalRuntime → Bytes → Option ContentNode
unfolding equal child_in descend
command_here state id = if is_none id then none else command_below state id state.nav.path

-- `selectedAuthoredCommand`.
unfoldable pub selected_authored_command : TerminalRuntime → PlayerCommand → Option ContentNode
unfolding command_here
selected_authored_command state command =
    if is_navigation command.kind (utf8 "command") command
    then command_here state command.node_id
    else none

abbrev pub mode_of : Bool → Option StateChangeConfig → CommandApprovalMode
mode_of completed none = ordinary
mode_of false (some change) = state_change
mode_of true (some change) = completed_state_change

-- `commandApprovalMode`.
unfoldable pub command_approval_mode : TerminalRuntime → ContentNode → CommandApprovalMode
unfolding lookup
command_approval_mode state command =
    mode_of (has (fields command).id state.command_states) (fields command).state_change

abbrev pub name_or : Bytes → Option CommandExecutionState → Bytes
name_or name none = name
name_or name (some completed) = completed.completed_name

-- `displayedCommandName`.
unfoldable pub displayed_command_name : TerminalRuntime → ContentNode → Bytes
unfolding lookup
displayed_command_name state command =
    name_or (fields command).name (lookup (fields command).id state.command_states)

abbrev pub text_or : Option StateChangeConfig → Bytes
text_or none = utf8 "Выполнить команду?"
text_or (some change) = change.confirmation_text

-- `commandConfirmationText`.
abbrev pub command_confirmation_text : ContentNode → Bytes
command_confirmation_text command = text_or (fields command).state_change

abbrev pub is_root_path : List Bytes → Bool
is_root_path (root ∷ []) = equal root (utf8 "root")
is_root_path _ = false

abbrev pub at_root : NavState → Bool
at_root nav =
    equal nav.mode (utf8 "list")
    && is_root_path nav.path
    && not (is_some nav.view_entry_id)
    && not (is_some nav.command_node_id)

abbrev pub is_route : List TerminalReturnPoint → Bool
is_route [] = false
is_route (_ ∷ _) = true

-- `rootReturnRequested`.
unfoldable pub root_return_requested :
    TerminalRuntime → PlayerCommand → List TerminalReturnPoint → Bool
unfolding equal
root_return_requested state command route =
    is_navigation command.kind (utf8 "back") command
    && is_route route
    && at_root state.nav
    && not (is_some state.command_execution)
