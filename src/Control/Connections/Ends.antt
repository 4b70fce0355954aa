-- ===== src/Control/Connections/Ends.antt =====
-- The loops of `AttachSubscriptionAndRegister` end.
use fallout_terminal.Common.{
  ℕ, zero, suc, ◌+◌, ◌≤◌, ◌<◌, true, false, ◌||◌, Option, none, some, List, [], ◌∷◌, ◌++◌, Bytes,
  Dict, equal, lookup, any, utf8, decimal, decimal_injective, length, keys, ◌≡◌, refl, ap, subst,
  inl, inr, arith, Option-cases, if-either, if-cases, some_unused, AreDifferent,
  AreDifferent-within, ℕ_discrete, sym,
}
use fallout_terminal.Domain.Coordination.{LogicalSession}
use fallout_terminal.Control.Commit.{Config, Coordinator}
use fallout_terminal.Control.Connections.{
  fallback_names, player_name, free_name, next_fallback_name, unique_id, unique_rounds,
  enter_session, enter_with, enter_as, enter, attach_to, attach_known, attach_step,
  attach_subscription, remove_connection_from_others,
}

-- What a common front leaves is the same.
append_injective : (front s t : Bytes) → front ++ s ≡ front ++ t → s ≡ t
append_injective [] s t e = e
append_injective (c ∷ front) s t e = append_injective front s t (cc)

player_name_injective : (i j : ℕ) → player_name i ≡ player_name j → i ≡ j
player_name_injective i j e =
    decimal_injective i j (append_injective (utf8 "PLAYER ") (decimal i) (decimal j) e)

length-fallback_names :
    (sessions : Dict LogicalSession) → length (fallback_names sessions) ≡ length sessions
unfolding fallback_names
length-fallback_names [] = refl
length-fallback_names ((id, session) ∷ sessions) = ap suc (length-fallback_names sessions)

-- A name that is found and not used.
abbrev pub IsUnused : List Bytes → Option Bytes → Type 0
IsUnused used none = ⊥
IsUnused used (some name) = any (equal name) used ≡ false

after_start :
    (f : ℕ → Bytes) (start i : ℕ) (used : List Bytes)
    → start ≤ i
    → any (equal (f i)) used ≡ false
    → any (equal (f start)) used ≡ true
    → suc start ≤ i
after_start f start i used from free taken = elim (ℕ_discrete start i) [
  | yes e ↦ absurd (cc)
  | no other ↦ omega arith
]

-- The loop stops at the latest at a name that is not used.
free_name-IsUnused :
    (n start i : ℕ) (used : List Bytes)
    → start ≤ i
    → i < start + n
    → any (equal (player_name i)) used ≡ false
    → IsUnused used (free_name n used start)
unfolding free_name
free_name-IsUnused zero start i used from to free = absurd (omega arith)
free_name-IsUnused (suc n) start i used from to free =
    if-cases (IsUnused used) (any (equal (player_name start)) used)
      (λ taken.
        free_name-IsUnused n (suc start) i used
          (after_start player_name start i used from free taken) (omega arith) free)
      (λ here. here)

-- `nextFallbackName` finds a name, and no session has it.
pub next_fallback_name-IsUnused :
    (sessions : Dict LogicalSession)
    → IsUnused (fallback_names sessions) (next_fallback_name sessions)
unfolding next_fallback_name
next_fallback_name-IsUnused sessions =
    let (i, from, to, free) =
      some_unused player_name (suc (length sessions)) 1 (fallback_names sessions)
        (λ i j i_from i_to j_from j_to e. player_name_injective i j e)
        (omega (arith, length-fallback_names sessions)) in
    free_name-IsUnused (suc (length sessions)) 1 i (fallback_names sessions) from to free

-- An ID that is found: it is neither blank nor used, and comes after at most `n` calls.
abbrev pub IsNew : List Bytes → ℕ → ℕ → Option (Bytes × ℕ) → Type 0
IsNew used start n none = ⊥
IsNew used start n (some (id, asked)) =
    (any (equal id) ([] ∷ used) ≡ false) × (start ≤ asked) × (asked ≤ start + n)

IsNew-later :
    (used : List Bytes) (start n : ℕ) (made : Option (Bytes × ℕ))
    → IsNew used (suc start) n made
    → IsNew used start (suc n) made
IsNew-later used start n none h = h
IsNew-later used start n (some (id, asked)) (new, from, to) = (new, omega arith, omega arith)

unique_id-finds :
    (next_id : ℕ → Bytes) (n start i : ℕ) (used : List Bytes)
    → start ≤ i
    → i < start + n
    → any (equal (next_id i)) ([] ∷ used) ≡ false
    → IsNew used start n (unique_id next_id n used start)
unfolding unique_id
unique_id-finds next_id zero start i used from to free = absurd (omega arith)
unique_id-finds next_id (suc n) start i used from to free =
    if-cases (IsNew used start (suc n))
      (equal (next_id start) [] || any (equal (next_id start)) used)
      (λ taken. IsNew-later used start n (unique_id next_id n used (suc start)) (
        unique_id-finds next_id n (suc start) i used
          (after_start next_id start i ([] ∷ used) from free taken) (omega arith) free))
      (λ here. (here, omega arith, omega arith))

unique_id-IsNew :
    (next_id : ℕ → Bytes) (used : List Bytes) (asked : ℕ)
    → AreDifferent next_id asked (suc (suc (length used)))
    → IsNew used asked
        (suc (suc (length used)))
        (unique_id next_id (suc (suc (length used))) used asked)
unique_id-IsNew next_id used asked different =
    let (i, from, to, free) =
      some_unused next_id (suc (suc (length used))) asked ([] ∷ used) different (omega arith) in
    unique_id-finds next_id (suc (suc (length used))) asked i used from to free

length-keys : {V : Type 0} (m : Dict V) → length (keys m) ≡ length m
length-keys [] = refl
length-keys ((k, v) ∷ m) = ap suc (length-keys m)

fresh_id :
    {V : Type 0} (next_id : ℕ → Bytes) (m : Dict V) (asked : ℕ)
    → AreDifferent next_id asked (unique_rounds m)
    → IsNew (keys m) asked (unique_rounds m) (unique_id next_id (unique_rounds m) (keys m) asked)
fresh_id next_id m asked different =
    subst (λ n. IsNew (keys m) asked (suc (suc n)) (unique_id next_id (suc (suc n)) (keys m) asked))
      (length-keys m)
      (unique_id-IsNew next_id (keys m) asked
        (subst (λ n. AreDifferent next_id asked (suc (suc n))) (sym (length-keys m)) different))

-- The calls of the ID source that an entry makes at most.
abbrev pub entry_rounds : Coordinator → ℕ
entry_rounds c =
    unique_rounds c.runtime.sessions_by_id + unique_rounds c.runtime.session_id_by_browser_token

-- A call that ends.
abbrev pub HasEnded {ℓ} : {A : Type ℓ} → Option A → Type 0
HasEnded none = ⊥
HasEnded (some a) = Unit

module _ (cfg : Config) (connection : Bytes) where
  enter_session-ends :
      (c : Coordinator) (id handle : Bytes) (used : List Bytes) (name : Option Bytes)
      → IsUnused used name
      → HasEnded (enter_session cfg connection c id handle name)
  enter_session-ends c id handle used none h = h
  enter_session-ends c id handle used (some name) h = tt

  enter_with-ends :
      (c : Coordinator) (id : Bytes) (made : Option (Bytes × ℕ)) (used : List Bytes) (start n : ℕ)
      → IsNew used start n made
      → HasEnded (enter_with cfg connection c id made)
  enter_with-ends c id none used start n h = h
  enter_with-ends c id (some (handle, asked)) used start n h =
      let others = (remove_connection_from_others connection id c.runtime.sessions_by_id).0 in
      enter_session-ends (record c { asked = asked }) id handle (fallback_names others)
        (next_fallback_name others) (next_fallback_name-IsUnused others)

  enter_as-ends :
      (c : Coordinator) (made : Option (Bytes × ℕ)) (used : List Bytes)
      → AreDifferent cfg.next_id c.asked (entry_rounds c)
      → IsNew used c.asked (unique_rounds c.runtime.sessions_by_id) made
      → HasEnded (enter_as cfg connection c made)
  enter_as-ends c none used different h = h
  enter_as-ends c (some (id, asked)) used different (new, from, to) =
      let tokens = c.runtime.session_id_by_browser_token in
      enter_with-ends c id (unique_id cfg.next_id (unique_rounds tokens) (keys tokens) asked)
        (keys tokens) asked (unique_rounds tokens)
        (fresh_id cfg.next_id tokens asked (
          AreDifferent-within cfg.next_id c.asked (entry_rounds c) asked (unique_rounds tokens) from
            (omega arith) different))

  enter-ends :
      (c : Coordinator)
      → AreDifferent cfg.next_id c.asked (entry_rounds c)
      → HasEnded (enter cfg connection c)
  enter-ends c different =
      let sessions = c.runtime.sessions_by_id in
      enter_as-ends c (unique_id cfg.next_id (unique_rounds sessions) (keys sessions) c.asked)
        (keys sessions) different
        (fresh_id cfg.next_id sessions c.asked (
          AreDifferent-within cfg.next_id c.asked (entry_rounds c) c.asked (unique_rounds sessions)
            (omega arith) (omega arith) different))

  attach_to-ends :
      (handle : Bytes) (c : Coordinator) (id : Bytes) (session : Option LogicalSession)
      → AreDifferent cfg.next_id c.asked (entry_rounds c)
      → HasEnded (attach_to cfg connection handle c id session)
  attach_to-ends handle c id none different = enter-ends c different
  attach_to-ends handle c id (some session) different = tt

  attach_known-ends :
      (handle : Bytes) (c : Coordinator) (id : Option Bytes)
      → AreDifferent cfg.next_id c.asked (entry_rounds c)
      → HasEnded (attach_known cfg connection handle c id)
  attach_known-ends handle c none different = enter-ends c different
  attach_known-ends handle c (some id) different =
      if-either HasEnded (equal handle []) (enter-ends c different)
        (attach_to-ends handle c id (lookup id c.runtime.sessions_by_id) different)

  attach_step-ends :
      (handle : Bytes) (c : Coordinator)
      → AreDifferent cfg.next_id c.asked (entry_rounds c)
      → HasEnded (attach_step cfg connection handle c)
  unfolding attach_step
  attach_step-ends handle c different =
      attach_known-ends handle c (lookup handle c.runtime.session_id_by_browser_token) different

-- The loops that look for a session ID, a browser token and a fallback name end, so that the call
-- answers, whatever the sessions and the tokens are, if the next IDs differ from each other: as many
-- of them as there are sessions and tokens, and four more.
pub attach_subscription-HasEnded :
    (cfg : Config) (connection handle : Bytes) (c : Coordinator)
    → AreDifferent cfg.next_id c.asked (entry_rounds c)
    → HasEnded (attach_subscription cfg connection handle c)
unfolding attach_subscription
attach_subscription-HasEnded cfg connection handle c different =
    let ended = attach_step-ends cfg connection handle c different in
    elim (Option-cases (attach_step cfg connection handle c)) [
      | inl stuck ↦ absurd (subst HasEnded stuck ended)
      | inr (t, e) ↦ rw (e, attach_subscription) (if-either HasEnded (equal connection []) tt tt)
    ]
