-- ===== src/Live/Presentation.antt =====
-- internal/live/service.go: what the controller has selected, and when that is allowed.
use fallout_terminal.Common.{
  ℕ, Bool, true, false, not, ◌&&◌, ◌||◌, Option, none, some, List, [], ◌∷◌, ◌++◌, Bytes, any, take,
  get_elem?, equal, lookup, leb, ltb, ◌==◌, if◌then◌else◌, utf8, join, length, hex_text,
}
use fallout_terminal.Domain.Hack.{HackState, HackColumn, PublicHackPattern}
use fallout_terminal.Domain.Runtime.{
  Presentation, PresentationKind, no_selection, menu, page, hacking, TerminalRuntime,
}
use fallout_terminal.Domain.Tree.{
  ContentNode, node, Children, leaf, child, NavState, fields, children_of,
}
use fallout_terminal.Hack.Effects.{discover_patterns}
use fallout_terminal.Hack.Play.{parse_filler_target, contains_word}

-- `MaxPresentationPageIndex`.
abbrev pub max_page_index : ℕ
max_page_index = 10000

unfoldable pub active_hack : HackState → Bool
active_hack state = not state.solved && not state.failed

-- The active puzzle, if there is one.
unfoldable pub active_puzzle : Option HackState → Option HackState
unfolding active_hack
active_puzzle none = none
active_puzzle (some h) = if active_hack h then some h else none

-- The first eight bytes of the digest name a puzzle.
unfoldable pub hack_context : (Bytes → Bytes) → HackState → Bytes
unfolding hex_text
hack_context sha256 h = utf8 "hack:" ++ hex_text (take 8 (sha256 h.generation_id))

abbrev pub page_context : Option Bytes → Option Bytes → List Bytes → Bytes × PresentationKind
page_context (some id) command path = (utf8 "entry:" ++ id, page)
page_context none (some id) path = (utf8 "command:" ++ id, page)
page_context none none path = (utf8 "menu:" ++ join (utf8 "/") path, menu)

unfoldable pub nav_context : NavState → Bytes × PresentationKind
nav_context s = page_context s.view_entry_id s.command_node_id s.path

-- `controllerPresentationContext`.
unfoldable pub presentation_context : (Bytes → Bytes) → TerminalRuntime → Bytes × PresentationKind
unfolding active_puzzle hack_context nav_context
presentation_context sha256 state = elim (active_puzzle state.hack) [
  | some h ↦ (hack_context sha256 h, hacking)
  | none ↦ nav_context state.nav
]

-- `findPresentationNode`.
unfoldable mutual
  pub find_node : ContentNode → Bytes → Option ContentNode
  find_node (node f children) id =
      let below = find_node_in children id in
      if equal f.id id then some (node f children) else below

  pub find_node_in : Children → Bytes → Option ContentNode
  find_node_in leaf id = none
  find_node_in (child n rest) id =
      let later = find_node_in rest id in
      elim (find_node n id) [ some found ↦ some found | none ↦ later ]

unfoldable pub last_name : List Bytes → Option Bytes
last_name [] = none
last_name (id ∷ []) = some id
last_name (id ∷ other ∷ ids) = last_name (other ∷ ids)

-- `currentPresentationFolder`.
unfoldable pub presentation_folder : TerminalRuntime → Option ContentNode
unfolding find_node last_name
presentation_folder state = elim (last_name state.nav.path) [
  | none ↦ none
  | some id ↦ find_node state.tree id
]

unfoldable pub has_child : Children → Bytes → Bool
has_child leaf id = false
has_child (child n rest) id = equal (fields n).id id || has_child rest id

abbrev pub is_empty : Bytes → Bool
is_empty text = equal text []

-- A place of the board that no word covers.
abbrev free_place : List HackColumn → Option (ℕ × ℕ) → Bool
free_place columns none = false
free_place columns (some (column_index, character_index)) = elim (get_elem? columns column_index) [
  | none ↦ false
  | some column ↦
      ltb character_index (length column.text) && not (contains_word column.words character_index)
]

-- `validHackPreviewTarget`.
unfoldable pub valid_preview_target : HackState → Bytes → Bool
unfolding active_hack
valid_preview_target h id =
    if active_hack h
    then elim (lookup id h.words_by_id) [
      | some _ ↦ true
      | none ↦ free_place h.columns (parse_filler_target id)
    ]
    else false

unfoldable pub valid_pattern : HackState → Bytes → Bool
valid_pattern h id =
    any (λ (pattern_ : PublicHackPattern). equal pattern_.id id && not pattern_.used)
      (discover_patterns h)

-- What one puzzle lets the controller preview: a word or a place, or else a pattern.
unfoldable pub valid_in_puzzle : Option HackState → Presentation → Bool
unfolding valid_preview_target valid_pattern
valid_in_puzzle none p = false
valid_in_puzzle (some h) p =
    if not (is_empty p.target_id) && is_empty p.pattern_id
    then valid_preview_target h p.target_id
    else if not (is_empty p.pattern_id) && is_empty p.target_id
    then valid_pattern h p.pattern_id
    else false

abbrev pub child_of : Option ContentNode → Bytes → Bool
child_of none id = false
child_of (some folder) id = has_child (children_of folder) id

abbrev pub is_plain : Presentation → Bool
is_plain p = is_empty p.target_id && is_empty p.pattern_id

-- The test of a selection in a context, by the kind of the selection.
unfoldable pub valid_kind :
    PresentationKind → PresentationKind → TerminalRuntime → Presentation → Bool
unfolding has_child presentation_folder valid_in_puzzle
valid_kind no_selection context state p = is_plain p && p.page_index == 0
valid_kind menu menu state p =
    not (is_empty p.target_id)
    && is_empty p.pattern_id
    && p.page_index == 0
    && child_of (presentation_folder state) p.target_id
valid_kind page page state p = is_plain p && leb p.page_index max_page_index
valid_kind hacking hacking state p = p.page_index == 0 && valid_in_puzzle state.hack p
valid_kind _ _ state p = false

-- `validControllerPresentation`.
unfoldable pub valid_presentation : (Bytes → Bytes) → TerminalRuntime → Presentation → Bool
unfolding presentation_context valid_kind
valid_presentation sha256 state p =
    let context = presentation_context sha256 state in
    if is_empty p.context_key || not (equal p.context_key context.0)
    then false
    else valid_kind p.kind context.1 state p

abbrev pub selecting : PresentationKind → Bytes → Bytes → Presentation
selecting kind context_key target_id = record {
  kind = kind;
  context_key = context_key;
  target_id = target_id;
  pattern_id = [];
  page_index = 0;
}

abbrev pub first_child : Bytes → Option ContentNode → Presentation
first_child key none = selecting no_selection key []
first_child key (some (node f leaf)) = selecting no_selection key []
first_child key (some (node f (child n rest))) = selecting menu key (fields n).id

-- What is selected where a context begins.
unfoldable pub default_presentation : Bytes → PresentationKind → Option ContentNode → Presentation
default_presentation key page folder = selecting page key []
default_presentation key menu folder = first_child key folder
default_presentation key _ folder = selecting no_selection key []

-- `revalidateControllerPresentation`.
unfoldable pub revalidate_presentation : (Bytes → Bytes) → TerminalRuntime → TerminalRuntime
unfolding valid_presentation presentation_context presentation_folder default_presentation
revalidate_presentation sha256 state =
    let context = presentation_context sha256 state in
    if equal state.presentation.context_key context.0
      && valid_presentation sha256 state state.presentation
    then state
    else record state {
      presentation = default_presentation context.0 context.1 (presentation_folder state);
    }
