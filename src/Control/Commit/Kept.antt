-- ===== src/Control/Commit/Kept.antt =====
-- What a transaction keeps: a property of the runtime that its end has, or its start.
use fallout_terminal.Common.{
  ℕ, true, false, Option, none, some, List, [], ◌∷◌, Bytes, ◌≡◌, ◌⊎◌, inl, inr, refl, sym, subst,
  Option-cases, if-either,
}
use fallout_terminal.Domain.Coordination.{LiveBroadcast, ProcessRuntime}
use fallout_terminal.Domain.Snapshots.{CompoundUpdate, RoutedLiveState}
use fallout_terminal.Live.Runtime.{Source}
use fallout_terminal.Control.Claims.{session_assigned}
use fallout_terminal.Control.Live.{project_active_terminal}
use fallout_terminal.Control.Snapshots.{player_snapshot, sorted_session_ids}
use fallout_terminal.Control.Commit.{
  Config, Coordinator, Transition, Effect, compound_update, compound_updates, shown_update,
  terminal_update, settled, commit,
}

-- A transaction ends well for `P` if it is refused, or at a working copy with `P`.
abbrev pub Ends {ℓ} : {A : Type ℓ} → (ProcessRuntime → Type 0) → Transition A → Type 0
Ends P t = P t.working.runtime ⊎ ((t.accepted ≡ false) × (t.persist ≡ false))

module _ (source : Source) where
  shown_update-runtime :
      (u : CompoundUpdate) (p : ProcessRuntime × Option RoutedLiveState)
      → (shown_update source u p).0 ≡ p.0
  shown_update-runtime u (r, none) = refl
  shown_update-runtime u (r, some state) = refl

  -- The runtimes that the publication of updates can lead to.
  abbrev pub IsStable : (ProcessRuntime → Type 0) → Type 0
  IsStable P =
      ((r : ProcessRuntime) → P r → P (project_active_terminal source r).0)
      × ((r : ProcessRuntime) (n : ℕ) → P r → P (record r { revision = n }))

  module _ (P : ProcessRuntime → Type 0)
      (shown : (r : ProcessRuntime) → P r → P (project_active_terminal source r).0) where
    terminal_update-kept :
        (b : Option LiveBroadcast) (session : Bytes) (r : ProcessRuntime) (u : CompoundUpdate)
        → P r
        → P (terminal_update source b session r u).0
    terminal_update-kept none session r u h = h
    terminal_update-kept (some b) session r u h =
        if-either (λ (done : ProcessRuntime × CompoundUpdate). P done.0)
          (session_assigned b session)
          (subst P (sym (shown_update-runtime u (project_active_terminal source r))) (shown r h)) h

    compound_update-kept :
        (r : ProcessRuntime) (session : Bytes) → P r → P (compound_update source r session).0
    unfolding compound_update
    compound_update-kept r session h = elim (Option-cases (player_snapshot r session)) [
      | inl unknown ↦ rw (unknown, compound_update) h
      | inr (state, e) ↦ rw (e, compound_update) (terminal_update-kept r.broadcast session r _ h)
    ]

    pub compound_updates-kept :
        (r : ProcessRuntime) (sessions : List Bytes)
        → P r
        → P (compound_updates source r sessions).0
    unfolding compound_updates
    compound_updates-kept r [] h = h
    compound_updates-kept r (session ∷ sessions) h =
        compound_updates-kept (compound_update source r session).0 sessions
          (compound_update-kept r session h)

-- A transaction that leads to `P`: its working copy has it, and its start too unless it is accepted.
abbrev pub Leads {ℓ} :
    {A : Type ℓ} → (ProcessRuntime → Type 0) → ProcessRuntime → Transition A → Type 0
Leads P start t = ((t.accepted ≡ true) ⊎ P start) × P t.working.runtime

module _ {ℓ} {A : Type ℓ} (cfg : Config) (P : ProcessRuntime → Type 0)
    (stable : IsStable cfg.source P) where
  settled-kept : (r : ProcessRuntime) (t : Transition A) → P r → Ends P t → P (settled r t)
  settled-kept r t h (inl e) =
      if-either P t.accepted (stable.1 t.working.runtime _ e)
        (if-either P t.persist (stable.1 t.working.runtime _ e) h)
  settled-kept r t h (inr (refused, dropped)) = rw (refused, dropped) h

  -- A commit keeps what its transaction ends with.
  pub commit-kept :
      (apply : Coordinator → Transition A) (c : Coordinator)
      → P c.runtime
      → Ends P (apply c)
      → P (commit cfg apply c).0.runtime
  unfolding commit
  commit-kept apply c h e =
      let r = settled c.runtime (apply c) in
      if-either (λ (done : ProcessRuntime × List Effect). P done.0) (apply c).accepted
        (compound_updates-kept cfg.source P stable.0 r (sorted_session_ids r)
          (settled-kept c.runtime (apply c) h e))
        (settled-kept c.runtime (apply c) h e)

  settled-leads : (r : ProcessRuntime) (t : Transition A) → Leads P r t → P (settled r t)
  settled-leads r t (inl agreed, e) = rw agreed (stable.1 t.working.runtime _ e)
  settled-leads r t (inr h, e) = settled-kept r t h (inl e)

  -- A commit leads where its transaction does.
  pub commit-leads :
      (apply : Coordinator → Transition A) (c : Coordinator)
      → Leads P c.runtime (apply c)
      → P (commit cfg apply c).0.runtime
  unfolding commit
  commit-leads apply c e =
      let r = settled c.runtime (apply c) in
      let led = settled-leads c.runtime (apply c) e in
      if-either (λ (done : ProcessRuntime × List Effect). P done.0) (apply c).accepted
        (compound_updates-kept cfg.source P stable.0 r (sorted_session_ids r) led) led
