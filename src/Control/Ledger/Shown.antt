-- ===== src/Control/Ledger/Shown.antt =====
-- The ledgers that a runtime shows, and that showing the terminal changes none.
use fallout_terminal.Common.{
  Option, none, some, Bytes, lookup, is_some, ◌≡◌, inl, inr, Option-cases,
}
use fallout_terminal.Domain.Coordination.{LiveBroadcast, ProcessRuntime}
use fallout_terminal.Domain.Runtime.{TerminalRuntime}
use fallout_terminal.Live.Runtime.{Source}
use fallout_terminal.Control.Commit.Kept.{IsStable}
use fallout_terminal.Control.Ledger.{Ledger, assignments, owners, controller}
use fallout_terminal.Control.Live.{
  live_terminal, put_at, put_in, put_active, project_active_terminal,
}

-- Who has what, and who is in control, is as the ledger says.
abbrev pub ShownIn : Ledger → Option LiveBroadcast → Type 0
ShownIn l b =
    (is_some b ≡ l.on)
    × ((s : Bytes) → lookup s (assignments b) ≡ l.character_of s)
    × ((c : Bytes) → lookup c (owners b) ≡ l.owner_of c)
    × (controller b ≡ l.in_control)

abbrev pub Shows : Ledger → ProcessRuntime → Type 0
Shows l r = ShownIn l r.broadcast

module _ (l : Ledger) where
  put_at-shown :
      (id : Option Bytes) (b : LiveBroadcast) (state : TerminalRuntime)
      → ShownIn l (some b)
      → ShownIn l (some (put_at id b state))
  put_at-shown none b state h = h
  put_at-shown (some id) b state h = h

  put_in-shown :
      (b : Option LiveBroadcast) (state : TerminalRuntime)
      → ShownIn l b
      → ShownIn l (put_in b state)
  put_in-shown none state h = h
  put_in-shown (some b) state h = put_at-shown b.active_terminal_id b state h

  put_active-Shows :
      (r : ProcessRuntime) (state : TerminalRuntime) → Shows l r → Shows l (put_active r state)
  unfolding put_active
  put_active-Shows r state h = put_in-shown r.broadcast state h

  pub project_active_terminal-Shows :
      (source : Source) (r : ProcessRuntime)
      → Shows l r
      → Shows l (project_active_terminal source r).0
  unfolding project_active_terminal
  project_active_terminal-Shows source r h = elim (Option-cases (live_terminal r)) [
    | inl idle ↦ rw (idle, project_active_terminal) h
    | inr (state, on) ↦ rw (on, project_active_terminal) (put_active-Shows r _ h)
  ]

  pub Shows-IsStable : (source : Source) → IsStable source (Shows l)
  Shows-IsStable source = (project_active_terminal-Shows source, λ r n h. h)
