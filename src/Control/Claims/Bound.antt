-- ===== src/Control/Claims/Bound.antt =====
-- The claims as one partial bijection of sessions and characters.
use fallout_terminal.Common.{
  Bool, true, false, Option, none, some, [], ◌∷◌, Bytes, Dict, equal, equal_iff, equal_refl, lookup,
  insert, delete, has, is_some, lookup-insert, lookup-delete, IsOnce, insert-IsOnce, delete-IsOnce,
  ◌≡◌, ◌⊎◌, inl, inr, arith, Option-cases,
}
use fallout_terminal.Domain.Coordination.{LiveBroadcast}
use fallout_terminal.Control.Claims.{
  key_of, session_assigned, character_owner, clear_controller_if_session,
}

-- What holds of the claims of a broadcast. The two maps are inverse to each other, they speak of
-- sessions that are known and of characters of the roster, and the session in control has one.
pub record IsBound (known rostered : Bytes → Bool) (by_session by_character : Dict Bytes)
    (controller : Option Bytes) : Type 0 where
  pub assigned : (s c : Bytes) → lookup s by_session ≡ some c → lookup c by_character ≡ some s
  pub owned : (s c : Bytes) → lookup c by_character ≡ some s → lookup s by_session ≡ some c
  pub recognized : (s c : Bytes) → lookup s by_session ≡ some c → known s ≡ true
  pub listed : (s c : Bytes) → lookup s by_session ≡ some c → rostered c ≡ true
  pub controlling : (s : Bytes) → controller ≡ some s → has s by_session ≡ true
  pub once : IsOnce by_session
  pub once_back : IsOnce by_character

abbrev pub IsBoundIn : (known rostered : Bytes → Bool) → LiveBroadcast → Type 0
IsBoundIn known rostered b =
    IsBound known rostered b.assignments_by_session b.session_by_character b.controller_session_id

key_of-lookup :
    (v k : Bytes) (m : Dict Bytes) → IsOnce m → key_of v m ≡ some k → lookup k m ≡ some v
unfolding key_of lookup
key_of-lookup v k [] once e = cc
key_of-lookup v k ((j, w) ∷ m) once e =
    ground (arith, equal_iff w v, equal_iff j k, key_of-lookup v k m once.1, once.0)

-- More sessions are known, and more characters listed.
pub IsBound-more :
    {known rostered known' rostered' : Bytes → Bool} (b : LiveBroadcast)
    → ((s : Bytes) → known s ≡ true → known' s ≡ true)
    → ((c : Bytes) → rostered c ≡ true → rostered' c ≡ true)
    → IsBoundIn known rostered b
    → IsBoundIn known' rostered' b
IsBound-more b more listed bound = record {
  assigned = bound.assigned;
  owned = bound.owned;
  controlling = bound.controlling;
  once = bound.once;
  once_back = bound.once_back;
  recognized = λ s c e. more s (bound.recognized s c e);
  listed = λ s c e. listed c (bound.listed s c e);
}

module _ {known rostered : Bytes → Bool} (b : LiveBroadcast)
    (bound : IsBoundIn known rostered b) where
  -- Under the invariant, the owner of a character is the one that its map names.
  pub owner_lookup : (c : Bytes) → character_owner b c ≡ lookup c b.session_by_character
  unfolding character_owner
  owner_lookup c = elim (Option-cases (lookup c b.session_by_character)) [
    | inr (s, e) ↦ rw e
    | inl free ↦ elim (Option-cases (key_of c b.assignments_by_session)) [
      | inl none_of ↦ rw (free, none_of)
      | inr (k, e) ↦
          let back = bound.assigned k c (key_of-lookup c k b.assignments_by_session bound.once e) in
          cc
    ]
  ]

  -- Under the invariant, a session that counts as assigned has a character.
  pub assigned_has :
      (s : Bytes) → session_assigned b s ≡ true → has s b.assignments_by_session ≡ true
  unfolding session_assigned
  assigned_has s e = elim (Option-cases (key_of s b.session_by_character)) [
    | inl none_of ↦ ground (arith, e, none_of)
    | inr (c, found) ↦
        let back =
          bound.owned s c (key_of-lookup s c b.session_by_character bound.once_back found) in
        rw back
  ]

  -- A new claim of both sides that are free.
  pub claim-IsBound :
      (s c : Bytes) (controller : Option Bytes)
      → known s ≡ true
      → rostered c ≡ true
      → lookup s b.assignments_by_session ≡ none
      → lookup c b.session_by_character ≡ none
      → ((t : Bytes) → controller ≡ some t → (b.controller_session_id ≡ some t) ⊎ (t ≡ s))
      → IsBound known rostered
          (insert s c b.assignments_by_session)
          (insert c s b.session_by_character)
          controller
  claim-IsBound s c controller is_known is_listed free vacant keeps = record {
    assigned = λ t d e. ground (
      arith,
      lookup-insert s t c b.assignments_by_session,
      lookup-insert c d s b.session_by_character,
      equal_iff s t,
      equal_iff c d,
      bound.assigned t d,
    );
    owned = λ t d e. ground (
      arith,
      lookup-insert s t c b.assignments_by_session,
      lookup-insert c d s b.session_by_character,
      equal_iff s t,
      equal_iff c d,
      bound.owned t d,
      bound.assigned t d,
    );
    recognized = λ t d e. ground (
      arith,
      lookup-insert s t c b.assignments_by_session,
      equal_iff s t,
      is_known,
      bound.recognized t d,
    );
    listed = λ t d e. ground (
      arith,
      lookup-insert s t c b.assignments_by_session,
      equal_iff s t,
      is_listed,
      bound.listed t d,
    );
    controlling = λ t e. ground (
      arith,
      lookup-insert s t c b.assignments_by_session,
      equal_iff s t,
      keeps t e,
      bound.controlling t,
    );
    once = insert-IsOnce s c b.assignments_by_session bound.once;
    once_back = insert-IsOnce c s b.session_by_character bound.once_back;
  }

  -- A claim that is taken away on both sides.
  pub release-IsBound :
      (s c : Bytes) (controller : Option Bytes)
      → lookup s b.assignments_by_session ≡ some c
      → ((t : Bytes)
          → controller ≡ some t
          → (b.controller_session_id ≡ some t) × (equal s t ≡ false))
      → IsBound known rostered
          (delete s b.assignments_by_session)
          (delete c b.session_by_character)
          controller
  release-IsBound s c controller had keeps = record {
    assigned = λ t d e. ground (
      arith,
      lookup-delete s t b.assignments_by_session,
      lookup-delete c d b.session_by_character,
      equal_iff s t,
      equal_iff c d,
      bound.assigned t d,
      bound.assigned s c,
    );
    owned = λ t d e. ground (
      arith,
      lookup-delete s t b.assignments_by_session,
      lookup-delete c d b.session_by_character,
      equal_iff s t,
      equal_iff c d,
      bound.owned t d,
    );
    recognized =
        λ t d e. ground (arith, lookup-delete s t b.assignments_by_session, bound.recognized t d);
    listed = λ t d e. ground (arith, lookup-delete s t b.assignments_by_session, bound.listed t d);
    controlling = λ t e.
        ground (arith, lookup-delete s t b.assignments_by_session, keeps t e, bound.controlling t);
    once = delete-IsOnce s b.assignments_by_session bound.once;
    once_back = delete-IsOnce c b.session_by_character bound.once_back;
  }

  -- A claim that passes from its owner to a session that had none.
  pub move-IsBound :
      (from to c : Bytes) (controller : Option Bytes)
      → lookup c b.session_by_character ≡ some from
      → known to ≡ true
      → lookup to b.assignments_by_session ≡ none
      → ((t : Bytes)
          → controller ≡ some t
          → (b.controller_session_id ≡ some t) × (equal from t ≡ false))
      → IsBound known rostered
          (insert to c (delete from b.assignments_by_session))
          (insert c to b.session_by_character)
          controller
  move-IsBound from to c controller had is_known free keeps = record {
    assigned = λ t d e. ground (
      arith,
      lookup-insert to t c (delete from b.assignments_by_session),
      lookup-delete from t b.assignments_by_session,
      lookup-insert c d to b.session_by_character,
      equal_iff to t,
      equal_iff from t,
      equal_iff c d,
      bound.assigned t d,
    );
    owned = λ t d e. ground (
      arith,
      lookup-insert to t c (delete from b.assignments_by_session),
      lookup-delete from t b.assignments_by_session,
      lookup-insert c d to b.session_by_character,
      equal_iff to t,
      equal_iff from t,
      equal_iff c d,
      bound.owned t d,
      bound.owned from c,
      had,
    );
    recognized = λ t d e. ground (
      arith,
      lookup-insert to t c (delete from b.assignments_by_session),
      lookup-delete from t b.assignments_by_session,
      equal_iff to t,
      is_known,
      bound.recognized t d,
    );
    listed = λ t d e. ground (
      arith,
      lookup-insert to t c (delete from b.assignments_by_session),
      lookup-delete from t b.assignments_by_session,
      equal_iff to t,
      bound.listed t d,
      bound.listed from c,
      bound.owned from c,
      had,
    );
    controlling = λ t e. ground (
      arith,
      lookup-insert to t c (delete from b.assignments_by_session),
      lookup-delete from t b.assignments_by_session,
      keeps t e,
      bound.controlling t,
    );
    once =
        insert-IsOnce to c (delete from b.assignments_by_session)
          (delete-IsOnce from b.assignments_by_session bound.once);
    once_back = insert-IsOnce c to b.session_by_character bound.once_back;
  }

pub unassigned_lookup :
    (b : LiveBroadcast) (s : Bytes)
    → session_assigned b s ≡ false
    → lookup s b.assignments_by_session ≡ none
unfolding session_assigned
unassigned_lookup b s e = ground arith

pub unclaimed_lookup :
    (b : LiveBroadcast) (c : Bytes)
    → is_some (character_owner b c) ≡ false
    → lookup c b.session_by_character ≡ none
unfolding character_owner
unclaimed_lookup b c e = ground arith

-- Control goes only from the session that loses its claim.
pub cleared_controller :
    (b : LiveBroadcast) (s t : Bytes)
    → (clear_controller_if_session b s).controller_session_id ≡ some t
    → (b.controller_session_id ≡ some t) × (equal s t ≡ false)
unfolding clear_controller_if_session
cleared_controller b s t e = ground (arith, equal_iff s t, equal_refl s)
