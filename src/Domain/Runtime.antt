-- ===== src/Domain/Runtime.antt =====
-- internal/domain/model.go: terminal checkpoints, the commands to them, and their projections.
use fallout_terminal.Common.{ℕ, ℤ, Option, Bytes, Dict}
use fallout_terminal.Domain.Hack.{HackState, PublicHackState}
use fallout_terminal.Domain.Tree.{ContentNode, CommandExecutionState, NavState}

pub data PresentationKind : Type 0 where
  no_selection menu page hacking : PresentationKind

pub record Presentation : Type 0 where
  pub kind : PresentationKind
  pub context_key : Bytes
  pub target_id : Bytes
  pub pattern_id : Bytes
  pub page_index : ℕ

pub data CommandExecutionPhase : Type 0 where
  pending rejected : CommandExecutionPhase

pub record CommandExecution : Type 0 where
  pub phase : CommandExecutionPhase
  pub command_id : Bytes

pub data TerminalLifecycle : Type 0 where
  active suspended : TerminalLifecycle

pub record TerminalTarget : Type 0 where
  pub terminal_id : Bytes
  pub terminal_name : Bytes
  pub tree : ContentNode
  pub command_states : Dict CommandExecutionState
  pub hack_level : ℤ
  pub intro_text : Bytes

pub record TerminalRuntime : Type 0 where
  pub terminal_id : Bytes
  pub terminal_name : Bytes
  pub tree : ContentNode
  pub command_states : Dict CommandExecutionState
  pub command_execution : Option CommandExecution
  pub hack_level : ℤ
  pub intro_text : Bytes
  pub nav : NavState
  pub hack : Option HackState
  pub presentation : Presentation
  pub lifecycle : TerminalLifecycle

-- The kinds of a `RuntimeCommand` with the fields that each reads.
pub data RuntimeCommand : Type 0 where
  select_character : RuntimeCommand
  navigate : Bytes → Bytes → RuntimeCommand
  guess : Bytes → RuntimeCommand
  activate_pattern : Bytes → RuntimeCommand
  present : Presentation → RuntimeCommand

-- `PublicLiveState`, less the route, which the coordinator adds.
pub record PublicLiveState : Type 0 where
  pub terminal_id : Bytes
  pub terminal_name : Bytes
  pub tree : ContentNode
  pub hack_level : ℤ
  pub intro_text : Bytes
  pub nav : NavState
  pub hack : Option PublicHackState
  pub command_execution : Option CommandExecution
  pub presentation : Presentation
