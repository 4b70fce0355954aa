-- ===== src/Hack/WordBank/Laws.antt =====
-- The candidates of a board: distinct words of capital letters, of the asked length.
use fallout_terminal.Common.{
  ℕ, ◌≤◌, ◌<◌, true, false, not, ◌||◌, List, [], ◌∷◌, ◌++◌, Bytes, ◌==◌, length, length-append, any,
  equal_iff, All, All-append, In, AllDistinct, AllDistinct-append, ◌≡◌, inl, inr, arith, Bool-cases,
}
use fallout_terminal.Hack.Scan.{is_ascii_alpha}
use fallout_terminal.Hack.WordBank.{
  to_upper, seen_in, is_candidate, normalize_onto, normalize_candidates, supplement_candidates,
}

pub seen_in-false :
    (word : Bytes) (words : List Bytes) → seen_in word words ≡ false → ¬ In word words
unfolding seen_in
seen_in-false word [] h m = elim m [ ]
seen_in-false word (w ∷ words) h (inl e) = ground (arith, (equal_iff word w).1 e)
seen_in-false word (w ∷ words) h (inr m) = seen_in-false word words (ground arith) m

-- A word of `size` ASCII letters.
pub record IsWord (size : ℕ) (word : Bytes) : Type 0 where
  pub size_is : length word ≡ size
  pub letters : All (λ c. is_ascii_alpha c ≡ true) word

All-letters :
    (word : Bytes)
    → any (λ c. not (is_ascii_alpha c)) word ≡ false
    → All (λ c. is_ascii_alpha c ≡ true) word
All-letters [] h = tt
All-letters (c ∷ word) h = (ground arith, All-letters word (ground arith))

pub is_candidate-IsWord :
    (size : ℕ) (word : Bytes) → is_candidate size word ≡ true → IsWord size word
unfolding is_candidate
is_candidate-IsWord size word h = record {
  size_is = ground arith;
  letters = All-letters word (ground arith);
}

-- What holds of a choice of candidates.
pub record IsChoice (size count : ℕ) (words : List Bytes) : Type 0 where
  pub are_words : All (IsWord size) words
  pub distinct : AllDistinct words
  pub at_most : length words ≤ count

IsChoice-concat :
    (size count : ℕ) (words : List Bytes) (word : Bytes)
    → IsChoice size count words
    → IsWord size word
    → seen_in word words ≡ false
    → length words < count
    → IsChoice size count (words ++ (word ∷ []))
IsChoice-concat size count words word h w fresh room = record {
  are_words = All-append _ words (word ∷ []) h.are_words (w, tt);
  distinct = AllDistinct-append words word h.distinct (seen_in-false word words fresh);
  at_most = omega (arith, length-append words (word ∷ []));
}

normalize_onto-IsChoice :
    (result : List Bytes) (size count : ℕ) (raws : List Bytes)
    → length result < count
    → IsChoice size count result
    → IsChoice size count (normalize_onto result size count raws)
unfolding normalize_onto
normalize_onto-IsChoice result size count [] room h = h
normalize_onto-IsChoice result size count (raw ∷ raws) room h =
    let word = to_upper raw in
    elim (Bool-cases (not (is_candidate size word) || seen_in word result)) [
      | inl skipped ↦ rw skipped (normalize_onto-IsChoice result size count raws room h)
      | inr taken ↦
          let longer =
            IsChoice-concat size count result word h (is_candidate-IsWord size word (ground arith))
              (ground arith) room in
          elim (Bool-cases (length (result ++ (word ∷ [])) == count)) [
            | inl full ↦ rw (taken, full) longer
            | inr more ↦
                rw (taken, more)
                  (normalize_onto-IsChoice (result ++ (word ∷ [])) size count raws
                    (ground (arith, longer.at_most)) longer)
          ]
    ]

pub normalize_candidates-IsChoice :
    (input : List Bytes) (size count : ℕ)
    → 0 < count
    → IsChoice size count (normalize_candidates input size count)
unfolding normalize_candidates
normalize_candidates-IsChoice input size count h =
    normalize_onto-IsChoice [] size count input h
      (record { are_words = tt; distinct = tt; at_most = omega arith })

-- A choice of candidates that is filled up with words of the same length from a second source is
-- still a choice: all different, and not more than were asked for.
pub supplement_candidates-IsChoice :
    (result fallback : List Bytes) (size count : ℕ)
    → IsChoice size count result
    → All (IsWord size) fallback
    → IsChoice size count (supplement_candidates result fallback count)
unfolding supplement_candidates
supplement_candidates-IsChoice result [] size count h w = h
supplement_candidates-IsChoice result (word ∷ fallback) size count h w =
    elim (Bool-cases (length result == count)) [
      | inl full ↦ rw full h
      | inr more ↦ elim (Bool-cases (seen_in word result)) [
        | inl old ↦ rw (more, old) (supplement_candidates-IsChoice result fallback size count h w.1)
        | inr new_ ↦
            rw (more, new_)
              (supplement_candidates-IsChoice (result ++ (word ∷ [])) fallback size count
                (IsChoice-concat size count result word h w.0 new_ (ground (arith, h.at_most))) w.1)
      ]
    ]
