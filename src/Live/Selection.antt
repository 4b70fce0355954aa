-- ===== src/Live/Selection.antt =====
-- internal/live/service.go: the selection that a checkpoint holds is one that its context allows.
use fallout_terminal.Common.{
  true, false, ◌&&◌, Option, none, some, List, [], Bytes, equal, equal_iff, equal_refl, subst, utf8,
  encode_rune, ◌≡◌, refl, sym, ◌∙◌, inl, inr, arith, Bool-cases, Option-cases, ap,
}
use fallout_terminal.Domain.Runtime.{
  Presentation, PresentationKind, no_selection, menu, page, hacking, TerminalRuntime,
  RuntimeCommand,
}
use fallout_terminal.Domain.Tree.{ContentNode, node, leaf, child, fields}
use fallout_terminal.Hack.Random.{Random}
use fallout_terminal.Live.Presentation.{
  active_puzzle, hack_context, nav_context, page_context, presentation_context, presentation_folder,
  has_child, child_of, valid_kind, valid_presentation, default_presentation,
  revalidate_presentation,
}
use fallout_terminal.Live.Runtime.{Source}
use fallout_terminal.Live.Command.{dispatch, apply}

-- The first child of a folder has an ID.
abbrev pub IsFirstNamed : Option ContentNode → Type 0
IsFirstNamed none = Unit
IsFirstNamed (some (node f leaf)) = Unit
IsFirstNamed (some (node f (child n rest))) = equal (fields n).id [] ≡ false

page_context-key :
    (view command : Option Bytes) (path : List Bytes)
    → equal (page_context view command path).0 [] ≡ false
unfolding utf8 encode_rune equal
page_context-key (some id) command path = refl
page_context-key none (some id) path = refl
page_context-key none none path = refl

presentation_context-key :
    (sha256 : Bytes → Bytes) (state : TerminalRuntime)
    → equal (presentation_context sha256 state).0 [] ≡ false
unfolding presentation_context nav_context hack_context utf8 encode_rune equal
presentation_context-key sha256 state = elim (Option-cases (active_puzzle state.hack)) [
  | inl idle ↦
      rw (idle, presentation_context)
        (page_context-key state.nav.view_entry_id state.nav.command_node_id state.nav.path)
  | inr (h, on) ↦ rw (on, presentation_context) refl
]

default_presentation-key :
    (key : Bytes) (kind : PresentationKind) (folder : Option ContentNode)
    → (default_presentation key kind folder).context_key ≡ key
unfolding default_presentation
default_presentation-key key no_selection folder = refl
default_presentation-key key page folder = refl
default_presentation-key key hacking folder = refl
default_presentation-key key menu none = refl
default_presentation-key key menu (some (node f leaf)) = refl
default_presentation-key key menu (some (node f (child n rest))) = refl

menu-valid :
    (key : Bytes) (state : TerminalRuntime) (folder : Option ContentNode)
    → presentation_folder state ≡ folder
    → IsFirstNamed folder
    → valid_kind
        (default_presentation key menu folder).kind
        menu
        state
        (default_presentation key menu folder)
      ≡ true
unfolding default_presentation valid_kind has_child equal
menu-valid key state none e named = refl
menu-valid key state (some (node f leaf)) e named = refl
menu-valid key state (some (node f (child n rest))) e named =
    ground (arith, ap (λ folder. child_of folder (fields n).id) e, named, equal_refl (fields n).id)

default_presentation-valid :
    (key : Bytes) (kind : PresentationKind) (state : TerminalRuntime)
    → IsFirstNamed (presentation_folder state)
    → valid_kind
        (default_presentation key kind (presentation_folder state)).kind
        kind
        state
        (default_presentation key kind (presentation_folder state))
      ≡ true
unfolding default_presentation valid_kind equal
default_presentation-valid key no_selection state named = refl
default_presentation-valid key page state named = refl
default_presentation-valid key hacking state named = refl
default_presentation-valid key menu state named =
    menu-valid key state (presentation_folder state) refl named

valid_presentation-of :
    (sha256 : Bytes → Bytes) (state : TerminalRuntime) (p : Presentation)
    → p.context_key ≡ (presentation_context sha256 state).0
    → valid_kind p.kind (presentation_context sha256 state).1 state p ≡ true
    → valid_presentation sha256 state p ≡ true
unfolding valid_presentation
valid_presentation-of sha256 state p key fits =
    let filled : equal p.context_key [] ≡ false =
      ap (λ k. equal k []) key ∙ presentation_context-key sha256 state in
    let current = (equal_iff p.context_key (presentation_context sha256 state).0).1 key in
    rw (filled, current) fits

-- What is selected does not change the context.
default-valid :
    (sha256 : Bytes → Bytes) (state : TerminalRuntime)
    → IsFirstNamed (presentation_folder state)
    → let p =
        default_presentation
          (presentation_context sha256 state).0
          (presentation_context sha256 state).1
          (presentation_folder state) in
      valid_presentation sha256 (record state { presentation = p }) p ≡ true
unfolding presentation_context presentation_folder
default-valid sha256 state named =
    let context = presentation_context sha256 state in
    let p = default_presentation context.0 context.1 (presentation_folder state) in
    let next : TerminalRuntime = record state { presentation = p } in
    valid_presentation-of sha256 next p
      (default_presentation-key context.0 context.1 (presentation_folder state))
      (default_presentation-valid context.0 context.1 next named)

-- After revalidation, the selection is one that the checkpoint's context allows, if the first child
-- of the folder that the players see has an ID.
pub revalidate_presentation-valid :
    (sha256 : Bytes → Bytes) (state : TerminalRuntime)
    → IsFirstNamed (presentation_folder state)
    → valid_presentation sha256
        (revalidate_presentation sha256 state)
        (revalidate_presentation sha256 state).presentation
      ≡ true
unfolding revalidate_presentation
revalidate_presentation-valid sha256 state named =
    let context = presentation_context sha256 state in
    elim (Bool-cases (
      equal state.presentation.context_key context.0
      && valid_presentation sha256 state state.presentation)) [
        | inl kept ↦ rw kept (ground (arith, kept))
        | inr replaced ↦ rw replaced (default-valid sha256 state named)
      ]

revalidated_folder :
    (sha256 : Bytes → Bytes) (state : TerminalRuntime)
    → presentation_folder (revalidate_presentation sha256 state) ≡ presentation_folder state
unfolding revalidate_presentation presentation_folder
revalidated_folder sha256 state =
    elim (Bool-cases (
      equal state.presentation.context_key (presentation_context sha256 state).0
      && valid_presentation sha256 state state.presentation)) [
        | inl kept ↦ rw kept refl
        | inr replaced ↦ rw replaced refl
      ]

apply_accepted :
    (source : Source) (state : TerminalRuntime) (command : RuntimeCommand) (r : Random)
    → (apply source state command r).1 ≡ true
    → (apply source state command r).0
      ≡ revalidate_presentation source.sha256
          (dispatch source state.command_execution state command r).0
unfolding apply
apply_accepted source state command r h =
    elim (Bool-cases (dispatch source state.command_execution state command r).1) [
      | inl accepted ↦ rw accepted refl
      | inr refused ↦ ground (arith, h, refused)
    ]

-- A command that is accepted leaves a selection that the context allows, if the first child of the
-- folder that the players then see has an ID.
pub apply-valid :
    (source : Source) (state : TerminalRuntime) (command : RuntimeCommand) (r : Random)
    → IsFirstNamed (presentation_folder (apply source state command r).0)
    → (apply source state command r).1 ≡ true
    → valid_presentation source.sha256
        (apply source state command r).0
        (apply source state command r).0.presentation
      ≡ true
apply-valid source state command r named accepted =
    let done = dispatch source state.command_execution state command r in
    let e = apply_accepted source state command r accepted in
    let seen =
      subst IsFirstNamed (ap presentation_folder e ∙ revalidated_folder source.sha256 done.0)
        named in
    subst (λ t. valid_presentation source.sha256 t t.presentation ≡ true) (sym e)
      (revalidate_presentation-valid source.sha256 done.0 seen)
