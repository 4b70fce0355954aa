-- ===== src/Hack/WordBank/Picks.antt =====
-- `PickWords`: different words of the bank, and as many as there are.
use Prim.Native.Nat.{min}
use fallout_terminal.Common.{
  ℕ, zero, suc, ◌≤◌, Bool, true, not, ◌&&◌, List, [], ◌∷◌, ◌++◌, Bytes, leb, ◌==◌, length,
  length-remove_at, remove_at, All, All-of_In, All-In, In, In-get_or, In-remove_at, AllDistinct,
  AllDistinct-append, AllDistinct-remove_at, get_or-not-In, ◌≡◌, inl, inr, refl, sym, subst, arith,
  Bool-cases, equal, utf8, split, ℕ_discrete, and-eq-true, leb→le,
}
use fallout_terminal.Hack.Random.Laws.{safe_intn-lt}
use fallout_terminal.Hack.Random.{Random, safe_intn}
use fallout_terminal.Hack.Vocabulary.{vocabulary}
use fallout_terminal.Hack.WordBank.Laws.{IsWord, is_candidate-IsWord, seen_in-false, IsChoice}
use fallout_terminal.Hack.WordBank.{
  bucket_onto, word_bucket, pick_from, pick_words, is_candidate, to_upper, seen_in,
}

length-pick_from :
    (count : ℕ) (pool : List Bytes) (r : Random)
    → length (pick_from count pool r).0 ≡ min count (length pool)
unfolding pick_from
length-pick_from zero pool r = omega arith
length-pick_from (suc count) [] r = omega arith
length-pick_from (suc count) (word ∷ pool) r =
    let drawn = safe_intn r (length (word ∷ pool)) in
    omega (
      arith,
      length-pick_from count (remove_at drawn.0 (word ∷ pool)) drawn.1,
      length-remove_at drawn.0 (word ∷ pool) (safe_intn-lt r (length (word ∷ pool)) (omega arith)),
    )

In-pick_from :
    (count : ℕ) (pool : List Bytes) (r : Random) (w : Bytes)
    → In w (pick_from count pool r).0
    → In w pool
unfolding pick_from
In-pick_from zero pool r w m = elim m [ ]
In-pick_from (suc count) [] r w m = elim m [ ]
In-pick_from (suc count) (word ∷ pool) r w (inl e) =
    subst (λ a. In a (word ∷ pool)) (sym e)
      (In-get_or (safe_intn r (length (word ∷ pool))).0 (word ∷ pool) []
        (safe_intn-lt r (length (word ∷ pool)) (omega arith)))
In-pick_from (suc count) (word ∷ pool) r w (inr m) =
    let drawn = safe_intn r (length (word ∷ pool)) in
    In-remove_at drawn.0 w (word ∷ pool)
      (In-pick_from count (remove_at drawn.0 (word ∷ pool)) drawn.1 w m)

pick_from-AllDistinct :
    (count : ℕ) (pool : List Bytes) (r : Random)
    → AllDistinct pool
    → AllDistinct (pick_from count pool r).0
unfolding pick_from
pick_from-AllDistinct zero pool r h = tt
pick_from-AllDistinct (suc count) [] r h = tt
pick_from-AllDistinct (suc count) (word ∷ pool) r h =
    let drawn = safe_intn r (length (word ∷ pool)) in
    let rest = remove_at drawn.0 (word ∷ pool) in
    (
      (λ m.
          get_or-not-In drawn.0 (word ∷ pool) [] h
            (safe_intn-lt r (length (word ∷ pool)) (omega arith))
            (In-pick_from count rest drawn.1 _ m)),
      pick_from-AllDistinct count rest drawn.1 (AllDistinct-remove_at drawn.0 (word ∷ pool) h),
    )

bucket_onto-AllDistinct :
    (kept : List Bytes) (size : ℕ) (raws : List Bytes)
    → AllDistinct kept
    → AllDistinct (bucket_onto kept size raws)
unfolding bucket_onto
bucket_onto-AllDistinct kept size [] h = h
bucket_onto-AllDistinct kept size (raw ∷ raws) h =
    let word = to_upper raw in
    elim (Bool-cases (length word == size && not (seen_in word kept))) [
      | inl new_ ↦ rw new_ (
          bucket_onto-AllDistinct (kept ++ (word ∷ [])) size raws
            (AllDistinct-append kept word h (seen_in-false word kept (ground arith))))
      | inr old ↦ rw old (bucket_onto-AllDistinct kept size raws h)
    ]

word_bucket-AllDistinct : (words : List Bytes) (size : ℕ) → AllDistinct (word_bucket words size)
unfolding word_bucket
word_bucket-AllDistinct words size = elim (Bool-cases (leb 4 size && leb size 8)) [
  | inl supported ↦ rw supported (bucket_onto-AllDistinct [] size words tt)
  | inr other ↦ rw other tt
]

all_candidates : ℕ → List Bytes → Bool
all_candidates size [] = true
all_candidates size (word ∷ words) = is_candidate size word && all_candidates size words

all_candidates-IsWord :
    (size : ℕ) (words : List Bytes) → all_candidates size words ≡ true → All (IsWord size) words
unfolding all_candidates
all_candidates-IsWord size [] h = tt
all_candidates-IsWord size (word ∷ words) h =
    (is_candidate-IsWord size word (ground arith), all_candidates-IsWord size words (ground arith))

-- What the bank offers for one length: words only, and enough for every board.
suffices : ℕ → Bool
suffices size =
    all_candidates size (word_bucket vocabulary size)
    && leb 16 (length (word_bucket vocabulary size))

suffices_each :
    (suffices 4 ≡ true)
    × (suffices 5 ≡ true)
    × (suffices 6 ≡ true)
    × (suffices 7 ≡ true)
    × (suffices 8 ≡ true)
unfolding suffices all_candidates word_bucket is_candidate utf8 split equal
suffices_each = (refl, refl, refl, refl, refl)

suffices_all : (size : ℕ) → 4 ≤ size → size ≤ 8 → suffices size ≡ true
suffices_all size low high = elim (ℕ_discrete size 4) [
  | yes e ↦ rw e suffices_each.0
  | no n4 ↦ elim (ℕ_discrete size 5) [
    | yes e ↦ rw e suffices_each.1
    | no n5 ↦ elim (ℕ_discrete size 6) [
      | yes e ↦ rw e suffices_each.2
      | no n6 ↦ elim (ℕ_discrete size 7) [
        | yes e ↦ rw e suffices_each.3
        | no n7 ↦ let last : size ≡ 8 = omega arith in rw last suffices_each.4
      ]
    ]
  ]
]

suffices-parts :
    (size : ℕ)
    → suffices size ≡ true
    → (all_candidates size (word_bucket vocabulary size) ≡ true)
      × (leb 16 (length (word_bucket vocabulary size)) ≡ true)
unfolding suffices
suffices-parts size h = and-eq-true (all_candidates size (word_bucket vocabulary size)) _ h

-- For the lengths of the levels and up to 16 words, the bank gives exactly as many words as are
-- asked for, all different, of the asked number of letters.
pub pick_words_fills :
    (size count : ℕ) (r : Random)
    → 4 ≤ size
    → size ≤ 8
    → count ≤ 16
    → IsChoice size count (pick_words size count r).0 × (length (pick_words size count r).0 ≡ count)
unfolding pick_words
pick_words_fills size count r low high few =
    let pool = word_bucket vocabulary size in
    let (words, enough) = suffices-parts size (suffices_all size low high) in
    let exact : length (pick_from count pool r).0 ≡ count =
      omega (arith, length-pick_from count pool r, leb→le 16 (length pool) enough) in
    (
      record {
        are_words = All-of_In _ (pick_from count pool r).0 (λ w m.
            All-In (IsWord size) w pool (all_candidates-IsWord size pool words)
              (In-pick_from count pool r w m));
        distinct = pick_from-AllDistinct count pool r (word_bucket-AllDistinct vocabulary size);
        at_most = omega (arith, exact);
      },
      exact,
    )
