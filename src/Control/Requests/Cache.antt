-- ===== src/Control/Requests/Cache.antt =====
-- The cache of answered requests holds a new answer, and no more of them than its limit.
use fallout_terminal.Common.{
  ℕ, suc, ◌≤◌, ◌<◌, true, false, not, ◌&&◌, ◌||◌, Option, none, some, All, keys, before_irreflexive,
  before_trans, before_split, [], ◌∷◌, Bytes, Dict, equal, equal_iff, lookup, insert, delete, has,
  before, length, leb, lookup-insert, lookup-delete, ◌≡◌, ◌⊎◌, inl, inr, refl, sym, subst, arith,
  Bool-cases, if-either, if-cases, if◌then◌else◌,
}
use fallout_terminal.Domain.Coordination.{RequestResultRecord}
use fallout_terminal.Control.Claims.{is_value}
use fallout_terminal.Control.Requests.{smallest_from, store_in}

module _ {V : Type 0} where
  length-insert :
      (k : Bytes) (v : V) (m : Dict V)
      → length (insert k v m) ≡ (if has k m then length m else suc (length m))
  unfolding insert lookup
  length-insert k v [] = refl
  length-insert k v ((j, w) ∷ m) = ground (arith, length-insert k v m)

  length-delete : (k : Bytes) (m : Dict V) → length (delete k m) ≤ length m
  unfolding delete
  length-delete k [] = omega arith
  length-delete k ((j, w) ∷ m) = ground (arith, length-delete k m)

  length-delete-has : (k : Bytes) (m : Dict V) → has k m ≡ true → length (delete k m) < length m
  unfolding delete lookup
  length-delete-has k [] h = absurd (ground arith)
  length-delete-has k ((j, w) ∷ m) h = elim (Bool-cases (equal j k)) [
    | inl same ↦ ground (arith, same, length-delete k m)
    | inr other ↦ ground (arith, other, length-delete-has k m (ground (arith, other, h)))
  ]

has_cons :
    (x k : Bytes) (v : RequestResultRecord) (cache : Dict RequestResultRecord)
    → has x cache ≡ true
    → has x ((k, v) ∷ cache) ≡ true
unfolding lookup
has_cons x k v cache h = ground (arith, h)

has_head :
    (x k : Bytes) (v : RequestResultRecord) (cache : Dict RequestResultRecord)
    → x ≡ k
    → has x ((k, v) ∷ cache) ≡ true
unfolding lookup
has_head x k v cache e = ground (arith, equal_iff k x, e)

-- The text that the loop ends with is the one that it starts with, or a key.
smallest_from-either :
    (evict : Bytes) (cache : Dict RequestResultRecord)
    → (smallest_from evict cache ≡ evict) ⊎ (has (smallest_from evict cache) cache ≡ true)
unfolding smallest_from
smallest_from-either evict [] = inl refl
smallest_from-either evict ((k, v) ∷ cache) =
    if-either
      (λ (start : Bytes).
        (smallest_from start cache ≡ evict)
        ⊎ (has (smallest_from start cache) ((k, v) ∷ cache) ≡ true))
      (equal evict [] || before k evict)
      (elim (smallest_from-either k cache) [
        | inl e ↦ inr (has_head (smallest_from k cache) k v cache e)
        | inr h ↦ inr (has_cons (smallest_from k cache) k v cache h)
      ])
      (elim (smallest_from-either evict cache) [
        | inl e ↦ inl e
        | inr h ↦ inr (has_cons (smallest_from evict cache) k v cache h)
      ])

-- Of a cache that holds something, the loop finds a key.
has-smallest_from :
    (cache : Dict RequestResultRecord)
    → 1 ≤ length cache
    → has (smallest_from [] cache) cache ≡ true
unfolding smallest_from equal
has-smallest_from [] h = absurd (omega arith)
has-smallest_from ((k, v) ∷ cache) h = elim (smallest_from-either k cache) [
  | inl e ↦ has_head (smallest_from k cache) k v cache e
  | inr m ↦ has_cons (smallest_from k cache) k v cache m
]

-- No answer is kept under a blank key.
abbrev pub HasNoBlank : Dict RequestResultRecord → Type 0
HasNoBlank cache = All (λ k. equal k [] ≡ false) (keys cache)

-- A key of the cache that no other is before.
abbrev pub IsLeast : Bytes → Dict RequestResultRecord → Type 0
IsLeast k cache = (has k cache ≡ true) × All (λ j. before j k ≡ false) (keys cache)

-- The key that makes room for the answer to a request, if one has to.
abbrev pub MakesRoom : ℕ → Bytes → Dict RequestResultRecord → Option Bytes → Type 0
MakesRoom limit request cache none = (has request cache ≡ true) ⊎ (length cache < limit)
MakesRoom limit request cache (some k) =
    (has request cache ≡ false) × (limit ≤ length cache) × IsLeast k cache

has_room :
    (limit : ℕ) (request : Bytes) (cache : Dict RequestResultRecord)
    → (not (has request cache) && leb limit (length cache)) ≡ false
    → MakesRoom limit request cache none
has_room limit request cache room = elim (Bool-cases (has request cache)) [
  | inl known ↦ inl known
  | inr new ↦ inr (ground (arith, room, new))
]

-- Neither the text nor a key is before the other text.
abbrev IsBelow : Bytes → Dict RequestResultRecord → Bytes → Type 0
IsBelow evict cache m = (before evict m ≡ false) × All (λ j. before j m ≡ false) (keys cache)

smallest_from-step :
    (evict k : Bytes) (v : RequestResultRecord) (cache : Dict RequestResultRecord)
    → smallest_from evict ((k, v) ∷ cache)
      ≡ smallest_from (if equal evict [] || before k evict then k else evict) cache
unfolding smallest_from
smallest_from-step evict k v cache = refl

-- What the loop ends with is before neither the text that it starts with nor a key.
smallest_from-IsBelow :
    (evict : Bytes) (cache : Dict RequestResultRecord)
    → equal evict [] ≡ false
    → HasNoBlank cache
    → IsBelow evict cache (smallest_from evict cache)
unfolding smallest_from
smallest_from-IsBelow evict [] named all = (before_irreflexive evict, tt)
smallest_from-IsBelow evict ((k, v) ∷ cache) named (here, all) =
    let P = IsBelow evict ((k, v) ∷ cache) in
    subst P (sym (smallest_from-step evict k v cache)) (
      if-cases (λ (start : Bytes). P (smallest_from start cache)) (equal evict [] || before k evict)
        (λ lower.
          let (first, rest) = smallest_from-IsBelow k cache here all in
          (
            ground (arith, named, lower, first, before_trans k evict (smallest_from k cache)),
            (first, rest),
          ))
        (λ higher.
          let (first, rest) = smallest_from-IsBelow evict cache named all in
          (
            first,
            (ground (arith, higher, first, before_split k evict (smallest_from evict cache)), rest),
          )))

smallest_from-IsLeast :
    (cache : Dict RequestResultRecord)
    → 1 ≤ length cache
    → HasNoBlank cache
    → IsLeast (smallest_from [] cache) cache
unfolding smallest_from equal
smallest_from-IsLeast [] h named = absurd (omega arith)
smallest_from-IsLeast ((k, v) ∷ cache) h (here, all) =
    (has-smallest_from ((k, v) ∷ cache) h, smallest_from-IsBelow k cache here all)

module _ (limit : ℕ) (request : Bytes) (entry : RequestResultRecord)
    (cache : Dict RequestResultRecord) where
  -- A cache with at most as many answers as the limit, which is at least one, has no more of them
  -- after an answer is stored.
  pub length-store_in :
      1 ≤ limit → length cache ≤ limit → length (store_in limit request entry cache) ≤ limit
  unfolding store_in
  length-store_in positive bounded =
      if-cases (λ (kept : Dict RequestResultRecord). length (insert request entry kept) ≤ limit)
        (not (has request cache) && leb limit (length cache))
        (λ full.
          let some_key = has-smallest_from cache (ground arith) in
          ground (
            arith,
            length-insert request entry (delete (smallest_from [] cache) cache),
            length-delete-has (smallest_from [] cache) cache some_key,
            bounded,
          ))
        (λ room. ground (arith, length-insert request entry cache, room, bounded))

  pub lookup-store_in_any :
      (other : Bytes)
      → lookup other (store_in limit request entry cache) ≡ (
          if equal request other
          then some entry
          else if not (has request cache)
              && leb limit (length cache)
              && equal (smallest_from [] cache) other
          then none
          else lookup other cache)
  unfolding store_in
  lookup-store_in_any other =
      if-cases
        (λ (kept : Dict RequestResultRecord). lookup other (insert request entry kept) ≡ (
          if equal request other
          then some entry
          else if not (has request cache)
              && leb limit (length cache)
              && equal (smallest_from [] cache) other
          then none
          else lookup other cache))
        (not (has request cache) && leb limit (length cache))
        (λ full. ground (
          arith,
          full,
          lookup-insert request other entry (delete (smallest_from [] cache) cache),
          lookup-delete (smallest_from [] cache) other cache,
        ))
        (λ room. ground (arith, room, lookup-insert request other entry cache))

  -- The new answer is found under its request. Any other stays, but one: if the cache is full and the
  -- request is new to it, the answer goes whose key is before all others. This holds where the limit
  -- is at least one and no answer is kept under a blank key.
  pub lookup-store_in :
      1 ≤ limit
      → HasNoBlank cache
      → (other : Bytes)
      → (gone : Option Bytes) × MakesRoom limit request cache gone
        × (lookup other (store_in limit request entry cache) ≡ (
            if equal request other
            then some entry
            else if is_value gone other
            then none
            else lookup other cache))
  lookup-store_in positive named other =
      elim (Bool-cases (not (has request cache) && leb limit (length cache))) [
        | inl full ↦ (
          some (smallest_from [] cache),
          (
            ground (arith, full),
            ground (arith, full),
            smallest_from-IsLeast cache (ground (arith, full)) named,
          ),
          ground (arith, full, lookup-store_in_any other),
        )
        | inr room ↦ (
          none,
          has_room limit request cache room,
          ground (arith, room, lookup-store_in_any other),
        )
      ]
