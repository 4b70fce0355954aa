-- ===== src/Control/Links.antt =====
-- What holds of the claims at any time, and that showing the terminal keeps it.
pub mod Roster
pub mod Overseer
pub mod Players
pub mod Sessions
pub mod Terminals
pub mod Switch
pub mod Navigation
pub mod Actions
pub mod Reach
use fallout_terminal.Common.{
  ℕ, Bool, true, false, Option, none, some, Bytes, List, Dict, has, lookup, insert, has-insert, ◌≡◌,
  ◌⊎◌, inl, inr, refl, arith, Option-cases, Bool-cases, if-either,
}
use fallout_terminal.Domain.Coordination.{
  LiveBroadcast, LogicalSession, CharacterRosterEntry, ProcessRuntime,
}
use fallout_terminal.Domain.Runtime.{TerminalRuntime}
use fallout_terminal.Live.Runtime.{Source}
use fallout_terminal.Control.Answers.{CoordinationError, Reply, guarded, unless_refused, overseer}
use fallout_terminal.Control.Claims.Bound.{IsBoundIn, IsBound-more}
use fallout_terminal.Control.Commit.{Config, Coordinator, Transition, Effect}
use fallout_terminal.Control.Commit.Kept.{Ends, IsStable, commit-kept}
use fallout_terminal.Control.Live.{
  live_terminal, put_at, put_in, put_active, project_active_terminal,
}

abbrev pub LinksIn : Dict LogicalSession → Dict CharacterRosterEntry → Option LiveBroadcast → Type 0
LinksIn sessions roster none = Unit
LinksIn sessions roster (some b) = IsBoundIn (λ s. has s sessions) (λ c. has c roster) b

-- During a broadcast, the claims are one partial bijection of recognized sessions and characters of
-- the roster, and the session in control has a character.
abbrev pub IsLinked : ProcessRuntime → Type 0
IsLinked r = LinksIn r.sessions_by_id r.roster_by_id r.broadcast

put_at-links :
    (sessions : Dict LogicalSession) (roster : Dict CharacterRosterEntry) (id : Option Bytes)
    (b : LiveBroadcast) (state : TerminalRuntime)
    → LinksIn sessions roster (some b)
    → LinksIn sessions roster (some (put_at id b state))
put_at-links sessions roster none b state h = h
put_at-links sessions roster (some id) b state h = h

put_in-links :
    (sessions : Dict LogicalSession) (roster : Dict CharacterRosterEntry) (b : Option LiveBroadcast)
    (state : TerminalRuntime)
    → LinksIn sessions roster b
    → LinksIn sessions roster (put_in b state)
put_in-links sessions roster none state h = h
put_in-links sessions roster (some b) state h =
    put_at-links sessions roster b.active_terminal_id b state h

pub put_active-IsLinked :
    (r : ProcessRuntime) (state : TerminalRuntime) → IsLinked r → IsLinked (put_active r state)
unfolding put_active
put_active-IsLinked r state h = put_in-links r.sessions_by_id r.roster_by_id r.broadcast state h

project_active_terminal-IsLinked :
    (source : Source) (r : ProcessRuntime)
    → IsLinked r
    → IsLinked (project_active_terminal source r).0
unfolding project_active_terminal
project_active_terminal-IsLinked source r h = elim (Option-cases (live_terminal r)) [
  | inl idle ↦ rw (idle, project_active_terminal) h
  | inr (state, on) ↦ rw (on, project_active_terminal) (put_active-IsLinked r _ h)
]

pub IsLinked-IsStable : (source : Source) → IsStable source IsLinked
IsLinked-IsStable source = (project_active_terminal-IsLinked source, λ r n h. h)

-- An operation of the Overseer keeps the links that its transaction ends with.
pub overseer-IsLinked :
    (cfg : Config) (apply : Coordinator → Transition (Option CoordinationError)) (c : Coordinator)
    → IsLinked c.runtime
    → Ends IsLinked (apply c)
    → IsLinked (overseer cfg apply c).0.runtime
unfolding overseer
overseer-IsLinked cfg apply c h e =
    commit-kept cfg IsLinked (IsLinked-IsStable cfg.source) apply c h e

-- What is only refused, or kept behind guards.
pub guarded-Ends :
    (P : ProcessRuntime → Type 0) (error : Option CoordinationError) (c : Coordinator)
    (t : Transition (Option CoordinationError))
    → (error ≡ none → Ends P t)
    → Ends P (guarded error c t)
guarded-Ends P none c t h = h refl
guarded-Ends P (some error) c t h = inr (refl, refl)

pub unless_refused-kept :
    (P : ProcessRuntime → Type 0) (error : Option CoordinationError) (c : Coordinator)
    (done : Coordinator × List Effect × Reply)
    → P c.runtime
    → P done.0.runtime
    → P (unless_refused error c done).0.runtime
unless_refused-kept P none c done h kept = kept
unless_refused-kept P (some error) c done h kept = h

-- Sessions that are recognized stay so.
pub LinksIn-more :
    (old new : Dict LogicalSession) (roster : Dict CharacterRosterEntry) (b : Option LiveBroadcast)
    → ((s : Bytes) → has s old ≡ true → has s new ≡ true)
    → LinksIn old roster b
    → LinksIn new roster b
LinksIn-more old new roster none more h = h
LinksIn-more old new roster (some b) more h = IsBound-more b more (λ c e. e) h

pub LinksIn-insert :
    (id : Bytes) (session : LogicalSession) (sessions : Dict LogicalSession)
    (roster : Dict CharacterRosterEntry) (b : Option LiveBroadcast)
    → LinksIn sessions roster b
    → LinksIn (insert id session sessions) roster b
LinksIn-insert id session sessions roster b h =
    LinksIn-more sessions (insert id session sessions) roster b
      (λ s e. ground (arith, has-insert id s session sessions, e)) h
