-- ===== src/Common/Maps.antt =====
-- Go maps with text keys, as association lists that hold a key once.
use mathlib.Core.Bool.{Bool, true, false, ◌||◌}
use mathlib.Core.List.{List, [], ◌∷◌}
use mathlib.Core.Option.{Option, none, some}
use mathlib.Core.Logic.{inl, inr}
use mathlib.Core.Path.{◌≡◌, refl, subst}
use native.Mathlib.Omega.{arith}
use fallout_terminal.Common.Strings.{Bytes, equal, equal_iff}
use fallout_terminal.Common.Tests.{if◌then◌else◌, Bool-cases}

abbrev pub Dict {ℓ} : Type ℓ → Type ℓ
Dict V = List (Bytes × V)

abbrev pub is_some {ℓ} : {A : Type ℓ} → Option A → Bool
is_some none = false
is_some (some a) = true

module _ {ℓ} {V : Type ℓ} where
  unfoldable pub lookup : Bytes → Dict V → Option V
  lookup k [] = none
  lookup k ((j, v) ∷ m) = if equal j k then some v else lookup k m

  -- `m[k] = v`.
  unfoldable pub insert : Bytes → V → Dict V → Dict V
  insert k v [] = (k, v) ∷ []
  insert k v ((j, w) ∷ m) = if equal j k then (k, v) ∷ m else (j, w) ∷ insert k v m

  -- `delete(m, k)`.
  unfoldable pub delete : Bytes → Dict V → Dict V
  delete k [] = []
  delete k ((j, w) ∷ m) = if equal j k then delete k m else (j, w) ∷ delete k m

  -- `_, exists := m[k]`.
  abbrev pub has : Bytes → Dict V → Bool
  has k m = is_some (lookup k m)

  pub lookup-insert :
      (k j : Bytes) (v : V) (m : Dict V)
      → lookup j (insert k v m) ≡ (if equal k j then some v else lookup j m)
  unfolding lookup insert
  lookup-insert k j v [] = refl
  lookup-insert k j v ((i, w) ∷ m) =
      ground (arith, equal_iff k j, equal_iff i k, equal_iff i j, lookup-insert k j v m)

  pub lookup-delete :
      (k j : Bytes) (m : Dict V) → lookup j (delete k m) ≡ (if equal k j then none else lookup j m)
  unfolding lookup delete
  lookup-delete k j [] = ground arith
  lookup-delete k j ((i, w) ∷ m) =
      ground (arith, equal_iff k j, equal_iff i k, equal_iff i j, lookup-delete k j m)

module _ {V : Type 0} where
  -- Each key stands once.
  abbrev pub IsOnce : Dict V → Type 0
  IsOnce [] = Unit
  IsOnce ((k, v) ∷ m) = (lookup k m ≡ none) × IsOnce m

  pub insert-IsOnce : (k : Bytes) (v : V) (m : Dict V) → IsOnce m → IsOnce (insert k v m)
  unfolding insert lookup
  insert-IsOnce k v [] once = (refl, tt)
  insert-IsOnce k v ((j, w) ∷ m) once = elim (Bool-cases (equal j k)) [
    | inl same ↦
        let e : j ≡ k = (equal_iff j k).0 same in
        rw same (subst (λ i. lookup i m ≡ none) e once.0, once.1)
    | inr other ↦ rw other (
      ground (arith, lookup-insert k j v m, equal_iff k j, equal_iff j k, once.0, other),
      insert-IsOnce k v m once.1,
    )
  ]

  pub delete-IsOnce : (k : Bytes) (m : Dict V) → IsOnce m → IsOnce (delete k m)
  unfolding delete
  delete-IsOnce k [] once = once
  delete-IsOnce k ((j, w) ∷ m) once = elim (Bool-cases (equal j k)) [
    | inl same ↦ rw same (delete-IsOnce k m once.1)
    | inr other ↦ rw other (ground (arith, lookup-delete k j m, once.0), delete-IsOnce k m once.1)
  ]

  pub has-insert :
      (k j : Bytes) (v : V) (m : Dict V) → has j (insert k v m) ≡ (equal k j || has j m)
  has-insert k j v m = ground (arith, lookup-insert k j v m)
