-- ===== src/Hack/WordBank/Taken.antt =====
-- internal/hack/hack.go: which words of the input `normalizeCandidates` takes.
use fallout_terminal.Common.{
  ℕ, ◌<◌, true, false, not, ◌||◌, List, [], ◌∷◌, ◌++◌, Bytes, ◌==◌, length, any, equal, equal_iff,
  All, All-append, All-of_In, In, In-append_left, In-append_right, ◌≡◌, ◌⊎◌, inl, inr, refl, arith,
  Bool-cases, if-cases,
}
use fallout_terminal.Hack.Scan.{is_ascii_alpha}
use fallout_terminal.Hack.WordBank.{
  to_upper, seen_in, is_candidate, normalize_onto, normalize_candidates,
}
use fallout_terminal.Hack.WordBank.Laws.{IsWord, IsChoice, normalize_candidates-IsChoice}

-- A word of the input in capital letters.
pub record IsFrom (input : List Bytes) (word : Bytes) : Type 0 where
  pub raw : Bytes
  pub stands : In raw input
  pub upper : to_upper raw ≡ word

-- A word of the input that is no word of the asked length, or is among the candidates.
abbrev pub IsHandled : ℕ → List Bytes → Bytes → Type 0
IsHandled size words raw = (¬ IsWord size (to_upper raw)) ⊎ In (to_upper raw) words

-- The candidates that the input gives.
pub record IsNormalized (input : List Bytes) (size count : ℕ) (words : List Bytes) : Type 0 where
  pub choice : IsChoice size count words
  pub taken : All (IsFrom input) words
  pub enough : (length words ≡ count) ⊎ All (IsHandled size words) input

no_other :
    (word : Bytes)
    → All (λ c. is_ascii_alpha c ≡ true) word
    → any (λ c. not (is_ascii_alpha c)) word ≡ false
no_other [] h = refl
no_other (c ∷ word) h = ground (arith, h.0, no_other word h.1)

IsWord-is_candidate : (size : ℕ) (word : Bytes) → IsWord size word → is_candidate size word ≡ true
unfolding is_candidate
IsWord-is_candidate size word w = ground (arith, w.size_is, no_other word w.letters)

seen_in-In : (word : Bytes) (words : List Bytes) → seen_in word words ≡ true → In word words
unfolding seen_in
seen_in-In word [] h = absurd (ground arith)
seen_in-In word (w ∷ words) h = elim (Bool-cases (equal word w)) [
  | inl same ↦ inl ((equal_iff word w).0 same)
  | inr other ↦ inr (seen_in-In word words (ground (arith, h, other)))
]

normalize_onto-All :
    (P : Bytes → Type 0) (result : List Bytes) (size count : ℕ) (raws : List Bytes)
    → All P result
    → All (λ raw. P (to_upper raw)) raws
    → All P (normalize_onto result size count raws)
unfolding normalize_onto
normalize_onto-All P result size count [] h rest = h
normalize_onto-All P result size count (raw ∷ raws) h (here, rest) =
    let word = to_upper raw in
    let longer = All-append P result (word ∷ []) h (here, tt) in
    elim (Bool-cases (not (is_candidate size word) || seen_in word result)) [
      | inl skipped ↦ rw skipped (normalize_onto-All P result size count raws h rest)
      | inr taken ↦ elim (Bool-cases (length (result ++ (word ∷ [])) == count)) [
        | inl full ↦ rw (taken, full) longer
        | inr more ↦
            rw (taken, more)
              (normalize_onto-All P (result ++ (word ∷ [])) size count raws longer rest)
      ]
    ]

-- What the loop has done when it ends before it has enough words.
abbrev HasAll : ℕ → List Bytes → List Bytes → List Bytes → Type 0
HasAll size words result raws =
    ((w : Bytes) → In w result → In w words) × All (IsHandled size words) raws

normalize_onto-HasAll :
    (result : List Bytes) (size count : ℕ) (raws : List Bytes)
    → (length (normalize_onto result size count raws) ≡ count)
      ⊎ HasAll size (normalize_onto result size count raws) result raws
unfolding normalize_onto
normalize_onto-HasAll result size count [] = inr ((λ w m. m), tt)
normalize_onto-HasAll result size count (raw ∷ raws) =
    let word = to_upper raw in
    let longer = result ++ (word ∷ []) in
    let P : List Bytes → Type 0 =
      λ words. (length words ≡ count) ⊎ HasAll size words result (raw ∷ raws) in
    if-cases P (not (is_candidate size word) || seen_in word result)
      (λ skipped. elim (normalize_onto-HasAll result size count raws) [
        | inl enough ↦ inl enough
        | inr (kept, all) ↦
            let handled : IsHandled size (normalize_onto result size count raws) raw =
              elim (Bool-cases (seen_in word result)) [
                | inl seen ↦ inr (kept word (seen_in-In word result seen))
                | inr new ↦
                    inl
                      (λ w. absurd (ground (arith, skipped, new, IsWord-is_candidate size word w)))
              ] in
            inr (kept, (handled, all))
      ])
      (λ taken.
        if-cases P (length longer == count) (λ full. inl (ground (arith, full)))
          (λ more. elim (normalize_onto-HasAll longer size count raws) [
            | inl enough ↦ inl enough
            | inr (kept, all) ↦ inr (
              (λ w m. kept w (In-append_left w result (word ∷ []) m)),
              (inr (kept word (In-append_right word result (word ∷ []) (inl refl))), all),
            )
          ]))

-- Whatever a word source returns, at most `count` candidates, where that is above zero, come of it:
-- all different, of the asked number of letters, and each of them a word of it in capital letters;
-- and there are `count` of them, or every word of it with the asked number of letters is among them.
pub normalize_candidates-IsNormalized :
    (input : List Bytes) (size count : ℕ)
    → 0 < count
    → IsNormalized input size count (normalize_candidates input size count)
unfolding normalize_candidates
normalize_candidates-IsNormalized input size count h = record {
  choice = normalize_candidates-IsChoice input size count h;
  taken = normalize_onto-All (IsFrom input) [] size count input tt (
      All-of_In (λ raw. IsFrom input (to_upper raw)) input
        (λ raw m. record { raw = raw; stands = m; upper = refl }));
  enough = elim (normalize_onto-HasAll [] size count input) [
    | inl enough ↦ inl enough
    | inr (kept, all) ↦ inr all
  ];
}
