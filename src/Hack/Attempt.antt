-- ===== src/Hack/Attempt.antt =====
-- Steps of board generation: each draws from the random source and may fail.
use mathlib.Core.Option.{some-injective, none-ne-some}
use fallout_terminal.Common.{ℕ, ◌<◌, ◌≡◌, refl, Option, none, some, inl, inr, ◌⊎◌, subst}
use fallout_terminal.Hack.Random.Laws.{safe_intn-lt}
use fallout_terminal.Hack.Random.{Random, safe_intn}

abbrev pub Attempt {ℓ} : Type ℓ → Type ℓ
Attempt A = Random → Option A × Random

unfoldable pub succeed {ℓ} : {A : Type ℓ} → A → Attempt A
succeed a r = (some a, r)

unfoldable pub give_up {ℓ} : {A : Type ℓ} → Attempt A
give_up r = (none, r)

infixl 5 ◌>>=◌
unfoldable pub ◌>>=◌ {ℓ κ} : {A : Type ℓ} {B : Type κ} → Attempt A → (A → Attempt B) → Attempt B
◌>>=◌ m f r = let done = m r in elim done.0 [ none ↦ (none, done.1) | some a ↦ f a done.1 ]

-- `safeIntn`, which does not fail.
unfoldable pub draw : ℕ → Attempt ℕ
draw limit r = let drawn = safe_intn r limit in (some drawn.0, drawn.1)

-- `first || second`.
unfoldable pub or_else {ℓ} : {A : Type ℓ} → Attempt A → Attempt A → Attempt A
or_else first second r =
    let done = first r in elim done.0 [ some a ↦ (some a, done.1) | none ↦ second done.1 ]

-- Whatever is drawn, a result has the property.
pub record Ensures {ℓ κ} {A : Type ℓ} (P : A → Type κ) (m : Attempt A) : Type (ℓ ⊔ κ) where
  pub holds : (r : Random) (a : A) → (m r).0 ≡ some a → P a

bind-cases {ℓ κ} :
    {A : Type ℓ} {B : Type κ} (o : Option A) (r : Random) (f : A → Attempt B) (b : B)
    → (elim o as (λ _. Option B × Random) [ none ↦ (none, r) | some a ↦ f a r ]).0 ≡ some b
    → (a : A) × (o ≡ some a) × ((f a r).0 ≡ some b)
bind-cases none r f b e = cc
bind-cases (some a) r f b e = (a, refl, e)

pub Ensures-bind {ℓ κ ι μ} :
    {A : Type ℓ} {B : Type κ} (P : A → Type ι) (Q : B → Type μ) (m : Attempt A) (f : A → Attempt B)
    → Ensures P m
    → ((a : A) → P a → Ensures Q (f a))
    → Ensures Q (m >>= f)
unfolding ◌>>=◌
Ensures-bind P Q m f h k = record {
  holds = λ r b e.
      let (a, found, later) = bind-cases (m r).0 (m r).1 f b e in
      (k a (h.holds r a found)).holds (m r).1 b later;
}

or_else-cases {ℓ} :
    {A : Type ℓ} (o : Option A) (r : Random) (second : Attempt A) (a : A)
    → (elim o as (λ _. Option A × Random) [ some a ↦ (some a, r) | none ↦ second r ]).0 ≡ some a
    → (o ≡ some a) ⊎ ((second r).0 ≡ some a)
or_else-cases none r second a e = inr e
or_else-cases (some b) r second a e = inl e

pub Ensures-or_else {ℓ κ} :
    {A : Type ℓ} (P : A → Type κ) (first second : Attempt A)
    → Ensures P first
    → Ensures P second
    → Ensures P (or_else first second)
unfolding or_else
Ensures-or_else P first second h k = record {
  holds = λ r a e. elim (or_else-cases (first r).0 (first r).1 second a e) [
    | inl found ↦ h.holds r a found
    | inr found ↦ k.holds (first r).1 a found
  ];
}

pub Ensures-succeed {ℓ κ} : {A : Type ℓ} (P : A → Type κ) (a : A) → P a → Ensures P (succeed a)
unfolding succeed
Ensures-succeed P a h = record { holds = λ r b e. subst P (some-injective a b e) h }

pub Ensures-give_up {ℓ κ} : {A : Type ℓ} (P : A → Type κ) → Ensures P (give_up {A = A})
unfolding give_up
Ensures-give_up P = record { holds = λ r a e. absurd (none-ne-some a e) }

pub Ensures-weaken {ℓ κ ι} :
    {A : Type ℓ} (P : A → Type κ) (Q : A → Type ι) (m : Attempt A)
    → ((a : A) → P a → Q a)
    → Ensures P m
    → Ensures Q m
Ensures-weaken P Q m f h = record { holds = λ r a e. f a (h.holds r a e) }

-- Of a step about which nothing is claimed.
pub Ensures-any {ℓ} : {A : Type ℓ} (m : Attempt A) → Ensures (λ _. Unit {0}) m
Ensures-any m = record { holds = λ r a e. tt }

pub draw-lt : (limit : ℕ) → 0 < limit → Ensures (λ n. n < limit) (draw limit)
unfolding draw
draw-lt limit h = record {
  holds = λ r n e. subst (λ k. k < limit) (some-injective _ n e) (safe_intn-lt r limit h);
}
