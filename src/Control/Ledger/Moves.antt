-- ===== src/Control/Ledger/Moves.antt =====
-- A character is released, and passed on: the ledgers that come of it.
use fallout_terminal.Common.{
  Bool, true, false, not, ◌&&◌, Option, none, some, Bytes, has, lookup, equal, lookup-insert,
  lookup-delete, ◌≡◌, refl, sym, ap, ◌∙◌, subst, inl, inr, arith, if-cases, if◌then◌else◌, delete,
  is_some,
}
use fallout_terminal.Domain.Coordination.{LiveBroadcast}
use fallout_terminal.Control.Assignment.{
  claim, release, release_claim, with_broadcast, release_step, vacate, move, move_step,
}
use fallout_terminal.Control.Claims.{session_assigned, character_owner, clear_controller_if_session}
use fallout_terminal.Control.Claims.Bound.{owner_lookup, assigned_has, unassigned_lookup}
use fallout_terminal.Control.Answers.{CoordinationError, no_broadcast, refuse, accept}
use fallout_terminal.Control.Answers.Settles.{Decides, refuse-Decides, accepted-Decides}
use fallout_terminal.Control.Commit.{Coordinator, Transition}
use fallout_terminal.Control.Commit.Kept.{Leads}
use fallout_terminal.Control.Ledger.{
  Ledger, ledger_of, hold, given_up, leave, drop_claim, releasing, moving, can_release, can_move,
}
use fallout_terminal.Control.Ledger.Shown.{ShownIn, Shows}
use fallout_terminal.Control.Links.{LinksIn}
use fallout_terminal.Control.Ledger.Assigns.{
  shown_as_is, unless, when, known_in, connected_in, listed_in,
}

given_up-cleared :
    (b : LiveBroadcast) (s : Bytes)
    → (clear_controller_if_session b s).controller_session_id ≡ given_up b.controller_session_id s
unfolding clear_controller_if_session
given_up-cleared b s = ground arith

cleared-maps :
    (b : LiveBroadcast) (s : Bytes)
    → ((clear_controller_if_session b s).assignments_by_session ≡ b.assignments_by_session)
      × ((clear_controller_if_session b s).session_by_character ≡ b.session_by_character)
unfolding clear_controller_if_session
cleared-maps b s = (ground arith, ground arith)

released-shown :
    (s d : Bytes) (b : LiveBroadcast)
    → ShownIn (drop_claim s (some d) (ledger_of (some b))) (some (release b s d))
unfolding release
released-shown s d b =
    let left = record b {
      assignments_by_session = delete s b.assignments_by_session;
      session_by_character = delete d b.session_by_character;
    } in
    let (by_session, by_character) = cleared-maps left s in
    (
      refl,
      λ t. ap (lookup t) by_session ∙ lookup-delete s t b.assignments_by_session,
      λ e. ap (lookup e) by_character ∙ lookup-delete d e b.session_by_character,
      given_up-cleared left s,
    )

module _ (s : Bytes) (c : Coordinator) where
  abbrev pub released_ledger : Option LiveBroadcast → Ledger
  released_ledger b =
      releasing (known_in c.runtime) (connected_in c.runtime) (listed_in c.runtime) s (ledger_of b)

  abbrev pub releases : Option LiveBroadcast → Bool
  releases b =
      can_release (known_in c.runtime) (connected_in c.runtime) (listed_in c.runtime) s
        (ledger_of b)

  pub release_step-Leads :
      (b : Option LiveBroadcast)
      → c.runtime.broadcast ≡ b
      → Leads (Shows (released_ledger b)) c.runtime (release_step s c b)
        × Decides (releases b) c (release_step s c b)
  release_step-Leads none e =
      let kept = subst (ShownIn (released_ledger none)) (sym e) (shown_as_is none) in
      ((inr kept, kept), refuse-Decides false c (some no_broadcast) refl)
  release_step-Leads (some b) e =
      if-cases
        (λ t.
          Leads (Shows (released_ledger (some b))) c.runtime t × Decides (releases (some b)) c t)
        (not (has s c.runtime.sessions_by_id))
        (λ unknown.
          let kept = subst (ShownIn (released_ledger (some b))) (sym e) (
            unless (has s c.runtime.sessions_by_id)
              (drop_claim s (lookup s b.assignments_by_session) (ledger_of (some b))) (some b)
              (ground (arith, unknown))) in
          ((inr kept, kept), refuse-Decides (releases (some b)) c _ (ground (arith, unknown))))
        (λ known. go (lookup s b.assignments_by_session) (ground (arith, known)))
    where
      go :
          (found : Option Bytes)
          → has s c.runtime.sessions_by_id ≡ true
          → Leads
              (Shows (
                if has s c.runtime.sessions_by_id
                then drop_claim s found (ledger_of (some b))
                else ledger_of (some b)))
              c.runtime
              (release_claim s c b found)
            × Decides
                (has s c.runtime.sessions_by_id && is_some found)
                c
                (release_claim s c b found)
      go none known =
          let kept =
            subst
              (ShownIn
                (if has s c.runtime.sessions_by_id then ledger_of (some b) else ledger_of (some b)))
              (sym e)
              (when (has s c.runtime.sessions_by_id) (ledger_of (some b)) (ledger_of (some b))
                (some b) known (shown_as_is (some b))) in
          (
            (inr kept, kept),
            refuse-Decides (has s c.runtime.sessions_by_id && false) c _ (ground (arith, known)),
          )
      go (some d) known = (
        (
          inl refl,
          when (has s c.runtime.sessions_by_id) (drop_claim s (some d) (ledger_of (some b)))
              (ledger_of (some b)) (some (release b s d)) known (released-shown s d b),
        ),
        accepted-Decides (has s c.runtime.sessions_by_id && true) c
            (accept (with_broadcast c (release b s d))) (ground (arith, known)) refl refl,
      )

vacated-shown :
    (from : Option Bytes) (b : LiveBroadcast)
    → ShownIn (leave from (ledger_of (some b))) (some (vacate b from))
unfolding clear_controller_if_session
vacated-shown none b = shown_as_is (some b)
vacated-shown (some s) b =
    let left = record b { assignments_by_session = delete s b.assignments_by_session } in
    let (by_session, by_character) = cleared-maps left s in
    (
      refl,
      λ t. ap (lookup t) by_session ∙ lookup-delete s t b.assignments_by_session,
      λ e. ap (lookup e) by_character,
      given_up-cleared left s,
    )

-- A claim on top of what a broadcast shows.
claim-shown :
    (s d : Bytes) (l : Ledger) (b : LiveBroadcast)
    → ShownIn l (some b)
    → ShownIn (hold s d l) (some (claim b s d))
unfolding claim
claim-shown s d l b (on, characters, holders, control) = (
  on,
  λ t.
      lookup-insert s t d b.assignments_by_session
      ∙ ap (λ (o : Option Bytes). if equal s t then some d else o) (characters t),
  λ e.
      lookup-insert d e s b.session_by_character
      ∙ ap (λ (o : Option Bytes). if equal d e then some s else o) (holders e),
  control,
)

moved-shown :
    (d to : Bytes) (b : LiveBroadcast)
    → ShownIn (hold to d (leave (character_owner b d) (ledger_of (some b)))) (some (move b d to))
unfolding move
moved-shown d to b =
    claim-shown to d (leave (character_owner b d) (ledger_of (some b)))
      (vacate b (character_owner b d)) (vacated-shown (character_owner b d) b)

module _ (d to : Bytes) (c : Coordinator) where
  abbrev pub moved_ledger : Option LiveBroadcast → Ledger
  moved_ledger b =
      moving (known_in c.runtime) (connected_in c.runtime) (listed_in c.runtime) d to (ledger_of b)

  abbrev pub moves : Option LiveBroadcast → Bool
  moves b =
      can_move (known_in c.runtime) (connected_in c.runtime) (listed_in c.runtime) d to
        (ledger_of b)

  abbrev may_move : LiveBroadcast → Bool
  may_move b =
      has d c.runtime.roster_by_id
      && has to c.runtime.sessions_by_id
      && not (has to b.assignments_by_session)

  abbrev passed_ledger : LiveBroadcast → Option Bytes → Ledger
  passed_ledger b from = hold to d (leave from (ledger_of (some b)))

  pub move_step-Leads :
      (b : Option LiveBroadcast)
      → c.runtime.broadcast ≡ b
      → LinksIn c.runtime.sessions_by_id c.runtime.roster_by_id b
      → Leads (Shows (moved_ledger b)) c.runtime (move_step d to c b)
        × Decides (moves b) c (move_step d to c b)
  move_step-Leads none e h =
      let kept = subst (ShownIn (moved_ledger none)) (sym e) (shown_as_is none) in
      ((inr kept, kept), refuse-Decides false c (some no_broadcast) refl)
  move_step-Leads (some b) e h =
      let l = moved_ledger (some b) in
      let P : Transition (Option CoordinationError) → Type 0 =
        λ t. Leads (Shows l) c.runtime t × Decides (moves (some b)) c t in
      let from = lookup d b.session_by_character in
      let refused : (error : Option CoordinationError) → may_move b ≡ false → P (refuse c error) =
        λ error t.
          let kept =
            subst (ShownIn l) (sym e) (unless (may_move b) (passed_ledger b from) (some b) t) in
          ((inr kept, kept), refuse-Decides (may_move b) c error t) in
      if-cases P (not (has d c.runtime.roster_by_id)) (λ t. refused _ (ground (arith, t)))
        (λ listed.
          if-cases P (not (has to c.runtime.sessions_by_id)) (λ t. refused _ (ground (arith, t)))
            (λ known.
              if-cases P (session_assigned b to)
                (λ t. refused _ (ground (arith, assigned_has b h to t)))
                (λ free.
                  let may : may_move b ≡ true =
                    ground (arith, listed, known, unassigned_lookup b to free) in
                  (
                    (
                      inl refl,
                      when (may_move b) (passed_ledger b from) (ledger_of (some b))
                          (some (move b d to)) may
                          (subst (λ o. ShownIn (passed_ledger b o) (some (move b d to)))
                            (owner_lookup b h d) (moved-shown d to b)),
                    ),
                    accepted-Decides (may_move b) c _ may refl refl,
                  ))))
