-- ===== src/Control/Commit/Revisions.antt =====
-- What a transaction publishes, and at which revision.
use fallout_terminal.Common.{
  ℕ, false, Option, none, some, List, Bytes, All, ◌≡◌, ◌≢◌, ◌⊎◌, inl, inr, refl, ◌∙◌, Option-cases,
  Bool-cases, if-either, if◌then◌else◌,
}
use fallout_terminal.Domain.Coordination.{ActionResult, ProcessRuntime}
use fallout_terminal.Domain.Snapshots.{MasterCoordinationState, PlayerState, CompoundUpdate}
use fallout_terminal.Live.Runtime.{Source}
use fallout_terminal.Control.Commit.{
  Config, Coordinator, Transition, Effect, compound_updates, updates, settled, commit,
  next_revision,
}
use fallout_terminal.Control.Commit.Kept.{compound_updates-kept}
use fallout_terminal.Control.Live.{live_terminal, put_active, project_active_terminal}
use fallout_terminal.Control.Snapshots.{sorted_session_ids}

abbrev pub MasterAt : ℕ → Option MasterCoordinationState → Type 0
MasterAt n none = Unit
MasterAt n (some state) = state.revision ≡ n

abbrev pub PlayerAt : ℕ → Option PlayerState → Type 0
PlayerAt n none = Unit
PlayerAt n (some state) = state.revision ≡ n

abbrev pub UpdateAt : ℕ → Option CompoundUpdate → Type 0
UpdateAt n none = Unit
UpdateAt n (some update) = update.revision ≡ n

-- A result has the revision, or one of its own from before.
abbrev pub ResultAt : ℕ → Option ActionResult → Type 0
ResultAt n none = Unit
ResultAt n (some result) = (result.revision ≡ n) ⊎ (result.revision ≢ 0)

-- All that an effect carries is of the revision.
pub record EffectAt (n : ℕ) (e : Effect) : Type 0 where
  pub envelope : e.revision ≡ n
  pub master : MasterAt n e.master
  pub player : PlayerAt n e.player
  pub update : UpdateAt n e.update
  pub result : ResultAt n e.result

abbrev pub At : ℕ → List Effect → Type 0
At n = All (EffectAt n)

module _ (source : Source) where
  pub project_active_terminal-revision :
      (r : ProcessRuntime) → (project_active_terminal source r).0.revision ≡ r.revision
  unfolding project_active_terminal put_active
  project_active_terminal-revision r = elim (Option-cases (live_terminal r)) [
    | inl idle ↦ rw (idle, project_active_terminal) refl
    | inr (state, on) ↦ rw (on, project_active_terminal) refl
  ]

  updates-revision :
      (r : ProcessRuntime) (sessions : List Bytes)
      → (compound_updates source r sessions).0.revision ≡ r.revision
  updates-revision r sessions =
      compound_updates-kept source (λ (s : ProcessRuntime). s.revision ≡ r.revision)
        (λ s e. project_active_terminal-revision s ∙ e) r sessions refl

-- The effects that hold no update.
abbrev pub HaveNoUpdate : List Effect → Type 0
HaveNoUpdate = All (λ (e : Effect). e.update ≡ none)

module _ {ℓ} {A : Type ℓ} (cfg : Config) where
  settled-revision :
      (r : ProcessRuntime) (t : Transition A)
      → (settled r t).revision ≡ (if t.accepted then next_revision r.revision else r.revision)
  settled-revision r t = elim (Bool-cases t.accepted) [
    | inl agreed ↦ rw agreed refl
    | inr refused ↦
        rw refused (if-either (λ (s : ProcessRuntime). s.revision ≡ r.revision) t.persist refl refl)
  ]

  updated-revision :
      (t : Transition A) (r : ProcessRuntime) → (updates cfg t r).0.revision ≡ r.revision
  updated-revision t r =
      if-either (λ (done : ProcessRuntime × List Effect). done.0.revision ≡ r.revision) t.accepted
        (updates-revision cfg.source r (sorted_session_ids r)) refl

  module _ (apply : Coordinator → Transition A) (c : Coordinator) where
    -- A transaction that is accepted counts the revision up by one, modulo 2^64; any other leaves it.
    pub commit-revision :
        (commit cfg apply c).0.runtime.revision
        ≡ (if (apply c).accepted then next_revision c.runtime.revision else c.runtime.revision)
    unfolding commit
    commit-revision =
        updated-revision (apply c) (settled c.runtime (apply c))
        ∙ settled-revision c.runtime (apply c)

    -- A transaction that is neither accepted nor kept leaves the runtime as it was.
    pub commit_refused :
        (apply c).accepted ≡ false
        → (apply c).persist ≡ false
        → (commit cfg apply c).0.runtime ≡ c.runtime
    unfolding commit
    commit_refused refused dropped = rw (refused, dropped) refl
