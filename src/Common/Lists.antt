-- ===== src/Common/Lists.antt =====
-- Lists measured and indexed by native numbers, under the library's names.
use Prim.Native.Nat.{ℕ, zero, suc, ◌+◌, ◌-◌, ◌<◌, min}
use mathlib.Core.Path.{◌≡◌, refl, sym, ap, subst}
use mathlib.Core.Logic.{◌≢◌, ◌⊎◌, inl, inr}
use mathlib.Core.Bool.{Bool, false, ◌||◌}
use mathlib.Core.List.{List, [], ◌∷◌, ◌++◌, map}
use mathlib.Core.Option.{Option, none, some}
use native.Mathlib.Omega.{arith}

module _ {ℓ} {A : Type ℓ} where
  abbrev pub length : List A → ℕ
  length [] = 0
  length (x ∷ xs) = suc (length xs)

  abbrev pub get_elem? : List A → ℕ → Option A
  get_elem? [] i = none
  get_elem? (x ∷ xs) zero = some x
  get_elem? (x ∷ xs) (suc i) = get_elem? xs i

  abbrev pub get_or : List A → ℕ → A → A
  get_or [] i d = d
  get_or (x ∷ xs) zero d = x
  get_or (x ∷ xs) (suc i) d = get_or xs i d

  -- A write out of bounds changes nothing.
  abbrev pub set : List A → ℕ → A → List A
  set [] i v = []
  set (x ∷ xs) zero v = v ∷ xs
  set (x ∷ xs) (suc i) v = x ∷ set xs i v

  abbrev pub take : ℕ → List A → List A
  take zero xs = []
  take (suc n) [] = []
  take (suc n) (x ∷ xs) = x ∷ take n xs

  abbrev pub drop : ℕ → List A → List A
  drop zero xs = xs
  drop (suc n) [] = []
  drop (suc n) (x ∷ xs) = drop n xs

  abbrev pub replicate : ℕ → A → List A
  replicate zero a = []
  replicate (suc n) a = a ∷ replicate n a

  -- `append(xs[:i], xs[i+1:]...)`.
  abbrev pub remove_at : ℕ → List A → List A
  remove_at i [] = []
  remove_at zero (x ∷ xs) = xs
  remove_at (suc i) (x ∷ xs) = x ∷ remove_at i xs

  abbrev pub any : (A → Bool) → List A → Bool
  any p [] = false
  any p (x ∷ xs) = p x || any p xs

  -- `P` holds of each element.
  abbrev pub All {κ} : (A → Type κ) → List A → Type κ
  All P [] = Unit
  All P (x ∷ xs) = P x × All P xs

  pub length-append : (xs ys : List A) → length (xs ++ ys) ≡ length xs + length ys
  length-append [] ys = omega arith
  length-append (x ∷ xs) ys = omega (arith, length-append xs ys)

  pub length-set : (xs : List A) (i : ℕ) (v : A) → length (set xs i v) ≡ length xs
  length-set [] i v = refl
  length-set (x ∷ xs) zero v = refl
  length-set (x ∷ xs) (suc i) v = ap suc (length-set xs i v)

  pub length-take : (n : ℕ) (xs : List A) → length (take n xs) ≡ min n (length xs)
  length-take zero xs = omega arith
  length-take (suc n) [] = omega arith
  length-take (suc n) (x ∷ xs) = omega (arith, length-take n xs)

  pub length-drop : (n : ℕ) (xs : List A) → length (drop n xs) ≡ length xs - n
  length-drop zero xs = omega arith
  length-drop (suc n) [] = omega arith
  length-drop (suc n) (x ∷ xs) = omega (arith, length-drop n xs)

  pub length-replicate : (n : ℕ) (a : A) → length (replicate n a) ≡ n
  length-replicate zero a = refl
  length-replicate (suc n) a = ap suc (length-replicate n a)

  pub length-remove_at :
      (i : ℕ) (xs : List A) → i < length xs → length (remove_at i xs) + 1 ≡ length xs
  length-remove_at i [] h = absurd (omega arith)
  length-remove_at zero (x ∷ xs) h = omega arith
  length-remove_at (suc i) (x ∷ xs) h = omega (arith, length-remove_at i xs (omega arith))

  pub get_elem?-set_self :
      (xs : List A) (i : ℕ) (v : A) → i < length xs → get_elem? (set xs i v) i ≡ some v
  get_elem?-set_self [] i v h = elim h [ ]
  get_elem?-set_self (x ∷ xs) zero v h = refl
  get_elem?-set_self (x ∷ xs) (suc i) v h = get_elem?-set_self xs i v (omega arith)

  pub get_elem?-set_ne :
      (xs : List A) (i j : ℕ) (v : A) → i ≢ j → get_elem? (set xs i v) j ≡ get_elem? xs j
  get_elem?-set_ne [] i j v h = refl
  get_elem?-set_ne (x ∷ xs) zero zero v h = absurd (h refl)
  get_elem?-set_ne (x ∷ xs) zero (suc j) v h = refl
  get_elem?-set_ne (x ∷ xs) (suc i) zero v h = refl
  get_elem?-set_ne (x ∷ xs) (suc i) (suc j) v h = get_elem?-set_ne xs i j v (λ e. h (ap suc e))

  pub take-append-drop : (n : ℕ) (xs : List A) → take n xs ++ drop n xs ≡ xs
  take-append-drop zero xs = refl
  take-append-drop (suc n) [] = refl
  take-append-drop (suc n) (x ∷ xs) = rw (take-append-drop n xs)

module _ {ℓ κ} {A : Type ℓ} where
  pub All-append :
      (P : A → Type κ) (front back : List A) → All P front → All P back → All P (front ++ back)
  All-append P [] back none_in h = h
  All-append P (x ∷ front) back (first, rest) h = (first, All-append P front back rest h)

  pub All-remove_at : (P : A → Type κ) (i : ℕ) (xs : List A) → All P xs → All P (remove_at i xs)
  All-remove_at P i [] h = h
  All-remove_at P zero (x ∷ xs) h = h.1
  All-remove_at P (suc i) (x ∷ xs) h = (h.0, All-remove_at P i xs h.1)

  pub All-get_elem? :
      (P : A → Type κ) (i : ℕ) (xs : List A) {a : A} → All P xs → get_elem? xs i ≡ some a → P a
  All-get_elem? P i [] h e = cc
  All-get_elem? P zero (x ∷ xs) h e = ground (arith, h.0)
  All-get_elem? P (suc i) (x ∷ xs) h e = All-get_elem? P i xs h.1 e

  pub length-map : {B : Type κ} (f : A → B) (xs : List A) → length (map f xs) ≡ length xs
  length-map f [] = refl
  length-map f (x ∷ xs) = ap suc (length-map f xs)

module _ {A : Type 0} where
  -- `a` stands in the list.
  abbrev pub In : A → List A → Type 0
  In a [] = ⊥
  In a (x ∷ xs) = (a ≡ x) ⊎ In a xs

  pub In-append_left : (a : A) (xs ys : List A) → In a xs → In a (xs ++ ys)
  In-append_left a [] ys h = elim h [ ]
  In-append_left a (x ∷ xs) ys (inl e) = inl e
  In-append_left a (x ∷ xs) ys (inr h) = inr (In-append_left a xs ys h)

  pub In-append_right : (a : A) (xs ys : List A) → In a ys → In a (xs ++ ys)
  In-append_right a [] ys h = h
  In-append_right a (x ∷ xs) ys h = inr (In-append_right a xs ys h)

  pub In-append : (a : A) (xs ys : List A) → In a (xs ++ ys) → In a xs ⊎ In a ys
  In-append a [] ys h = inr h
  In-append a (x ∷ xs) ys (inl e) = inl (inl e)
  In-append a (x ∷ xs) ys (inr h) = elim (In-append a xs ys h) [
    | inl l ↦ inl (inr l)
    | inr r ↦ inr r
  ]

  pub All-In {κ} : (P : A → Type κ) (a : A) (xs : List A) → All P xs → In a xs → P a
  All-In P a [] h m = elim m [ ]
  All-In P a (x ∷ xs) h (inl e) = subst P (sym e) h.0
  All-In P a (x ∷ xs) h (inr m) = All-In P a xs h.1 m

  pub All-of_In {κ} : (P : A → Type κ) (xs : List A) → ((a : A) → In a xs → P a) → All P xs
  All-of_In P [] h = tt
  All-of_In P (x ∷ xs) h = (h x (inl refl), All-of_In P xs (λ a m. h a (inr m)))

pub In-map : {A B : Type 0} (f : A → B) (a : A) (xs : List A) → In a xs → In (f a) (map f xs)
In-map f a [] h = elim h [ ]
In-map f a (x ∷ xs) (inl e) = inl (ap f e)
In-map f a (x ∷ xs) (inr h) = inr (In-map f a xs h)

pub In-map_inv :
    {A B : Type 0} (f : A → B) (b : B) (xs : List A)
    → In b (map f xs)
    → (a : A) × In a xs × (b ≡ f a)
In-map_inv f b [] h = elim h [ ]
In-map_inv f b (x ∷ xs) (inl e) = (x, inl refl, e)
In-map_inv f b (x ∷ xs) (inr h) = let (a, m, e) = In-map_inv f b xs h in (a, inr m, e)

pub All-get_or {ℓ κ} :
    {A : Type ℓ} (P : A → Type κ) (i : ℕ) (xs : List A) (d : A)
    → All P xs
    → i < length xs
    → P (get_or xs i d)
All-get_or P i [] d h lt = absurd (omega arith)
All-get_or P zero (x ∷ xs) d h lt = h.0
All-get_or P (suc i) (x ∷ xs) d h lt = All-get_or P i xs d h.1 (omega arith)

module _ {A : Type 0} where
  -- No element stands twice.
  abbrev pub AllDistinct : List A → Type 0
  AllDistinct [] = Unit
  AllDistinct (x ∷ xs) = (¬ In x xs) × AllDistinct xs

  pub In-remove_at : (i : ℕ) (a : A) (xs : List A) → In a (remove_at i xs) → In a xs
  In-remove_at i a [] h = h
  In-remove_at zero a (x ∷ xs) h = inr h
  In-remove_at (suc i) a (x ∷ xs) (inl e) = inl e
  In-remove_at (suc i) a (x ∷ xs) (inr h) = inr (In-remove_at i a xs h)

  pub In-get_or : (i : ℕ) (xs : List A) (d : A) → i < length xs → In (get_or xs i d) xs
  In-get_or i [] d h = absurd (omega arith)
  In-get_or zero (x ∷ xs) d h = inl refl
  In-get_or (suc i) (x ∷ xs) d h = inr (In-get_or i xs d (omega arith))

  pub AllDistinct-remove_at : (i : ℕ) (xs : List A) → AllDistinct xs → AllDistinct (remove_at i xs)
  AllDistinct-remove_at i [] h = h
  AllDistinct-remove_at zero (x ∷ xs) h = h.1
  AllDistinct-remove_at (suc i) (x ∷ xs) h =
      ((λ m. h.0 (In-remove_at i x xs m)), AllDistinct-remove_at i xs h.1)

  -- What is taken out is not left over.
  pub get_or-not-In :
      (i : ℕ) (xs : List A) (d : A)
      → AllDistinct xs
      → i < length xs
      → ¬ In (get_or xs i d) (remove_at i xs)
  get_or-not-In i [] d h lt m = absurd (omega arith)
  get_or-not-In zero (x ∷ xs) d h lt m = h.0 m
  get_or-not-In (suc i) (x ∷ xs) d h lt (inl e) =
      h.0 (subst (λ a. In a xs) e (In-get_or i xs d (omega arith)))
  get_or-not-In (suc i) (x ∷ xs) d h lt (inr m) = get_or-not-In i xs d h.1 (omega arith) m

  pub AllDistinct-append :
      (xs : List A) (a : A) → AllDistinct xs → ¬ In a xs → AllDistinct (xs ++ (a ∷ []))
  AllDistinct-append [] a h n = ((λ m. m), tt)
  AllDistinct-append (x ∷ xs) a h n = (
    (λ m. elim (In-append x xs (a ∷ []) m) [
      | inl l ↦ h.0 l
      | inr r ↦ elim r [ inl e ↦ n (inl (sym e)) | inr z ↦ z ]
    ]),
    AllDistinct-append xs a h.1 (λ m. n (inr m)),
  )
