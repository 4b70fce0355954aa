-- ===== src/Hack/Spans/Keep.antt =====
-- Spans and decoys go where nothing is placed, and keep the words.
use fallout_terminal.Common.{
  ℕ, zero, suc, ◌+◌, ◌-◌, ◌<◌, Bool, true, false, not, ◌||◌, Option, none, some, List, [], ◌∷◌,
  ◌++◌, Bytes, ltb, ◌==◌, length, length-append, get_or, replicate, length-replicate, ◌≡◌, inl, inr,
  refl, sym, subst, ap, ◌∙◌, arith, Bool-cases,
}
use fallout_terminal.Domain.Hack.{HackWord}
use fallout_terminal.Hack.Attempt.{Ensures}
use fallout_terminal.Hack.Builder.Extends.{
  IsTaken, any_used-not-IsTaken, Keeps, Extends-overwrite, Extends-trans, overwrite_outside,
}
use fallout_terminal.Hack.Builder.{Builder, mark}
use fallout_terminal.Hack.Random.Laws.{choose-accept, first_from-accept}
use fallout_terminal.Hack.Random.{Random, safe_intn, first_from, choose}
use fallout_terminal.Hack.Scan.{board_row_width}
use fallout_terminal.Hack.Spans.{
  put, surrounds, surround, surround_first, word_at, place_interrupted_span, can_place_pattern,
  draw_filler, put_pattern, pattern_start, place_pattern, is_free, place_delimiter_decoy,
}

-- The builder differs in free places only.
pub record IsUpdate (b c : Builder) : Type 0 where
  pub keeps : Keeps b c
  pub same_prefix : c.prefix ≡ b.prefix
  pub same_words : c.words ≡ b.words
  pub same_next : c.next_id ≡ b.next_id

get_or-not-IsTaken : (used : List Bool) (i : ℕ) → get_or used i true ≡ false → ¬ IsTaken used i
get_or-not-IsTaken [] i h t = cc
get_or-not-IsTaken (u ∷ used) zero h t = ground (arith, t)
get_or-not-IsTaken (u ∷ used) (suc i) h t = get_or-not-IsTaken used i h t

put-Keeps : (b : Builder) (index c : ℕ) → ¬ IsTaken b.used index → Keeps b (put b index c)
put-Keeps b index c free =
    Extends-overwrite b.chars b.used index (c ∷ []) (true ∷ []) refl
      (λ j low high. subst (λ i. ¬ IsTaken b.used i) (omega arith) free)

surround-IsUpdate :
    (pair : Bytes) (b : Builder) (w : HackWord)
    → surrounds b w ≡ true
    → IsUpdate b (surround pair b w)
unfolding surround surrounds
surround-IsUpdate pair b w ok =
    let end = w.start + w.length in
    let first = put b (w.start - 1) (get_or pair 0 0) in
    let free_start : ¬ IsTaken b.used (w.start - 1) =
      get_or-not-IsTaken b.used (w.start - 1) (ground arith) in
    let free_end : ¬ IsTaken b.used end = get_or-not-IsTaken b.used end (ground arith) in
    let elsewhere : w.start - 1 < end = ground arith in
    record {
      keeps = Extends-trans (put-Keeps b (w.start - 1) (get_or pair 0 0) free_start) (
          put-Keeps first end (get_or pair 1 0) (λ t. free_end (
            sym (overwrite_outside b.used (w.start - 1) (true ∷ []) end (inr (omega arith))) ∙ t)));
      same_prefix = refl;
      same_words = refl;
      same_next = refl;
    }

surround_found :
    (pair : Bytes) (b : Builder) (word_at : ℕ → HackWord) (found : Option ℕ) (c : Builder)
    → ((i : ℕ) → found ≡ some i → surrounds b (word_at i) ≡ true)
    → (elim found as (λ _. Option Builder) [
      | none ↦ none
      | some i ↦ some (surround pair b (word_at i))
    ])
      ≡ some c
    → IsUpdate b c
surround_found pair b word_at none c ok e = cc
surround_found pair b word_at (some i) c ok e =
    subst (IsUpdate b) (ground arith) (surround-IsUpdate pair b (word_at i) (ok i refl))

place_interrupted_span-IsUpdate' :
    (pair : Bytes) (b : Builder) (r : Random) (c : Builder)
    → (place_interrupted_span pair b r).0 ≡ some c
    → IsUpdate b c
unfolding place_interrupted_span surround_first
place_interrupted_span-IsUpdate' pair b r c e =
    elim (Bool-cases (not (length pair == 2) || length b.words == 0)) [
      | inl refused ↦ ground (arith, refused)
      | inr tried ↦
          surround_found pair b (word_at b (safe_intn r (length b.words)).0)
            (first_from (length b.words) 0 _) c
            (λ i found. first_from-accept (length b.words) 0 _ i found) (rw tried at e)
    ]

length-draw_filler : (n : ℕ) (r : Random) → length (draw_filler n r).0 ≡ n
unfolding draw_filler
length-draw_filler zero r = refl
length-draw_filler (suc n) r = ap suc (length-draw_filler n _)

put_pattern-IsUpdate :
    (b : Builder) (start : ℕ) (pair interior : Bytes)
    → can_place_pattern b start (length interior + 2) ≡ true
    → IsUpdate b (put_pattern b start pair interior)
unfolding put_pattern mark can_place_pattern
put_pattern-IsUpdate b start pair interior ok =
    let size = length-append interior (get_or pair 1 0 ∷ []) in
    record {
      keeps =
          Extends-overwrite b.chars b.used start
            (get_or pair 0 0 ∷ (interior ++ (get_or pair 1 0 ∷ [])))
            (replicate (length interior + 2) true)
            (omega (arith, size, length-replicate (length interior + 2) true))
            (λ j low high.
              any_used-not-IsTaken b.used start (start + (length interior + 2)) j (ground arith) low
                (omega (arith, size)));
      same_prefix = refl;
      same_words = refl;
      same_next = refl;
    }

pattern_found :
    (pair : Bytes) (size per_row : ℕ) (b : Builder) (found : Option ℕ) (r : Random) (c : Builder)
    → ((i : ℕ) → found ≡ some i → can_place_pattern b (pattern_start per_row i) (size + 2) ≡ true)
    → (elim found as (λ _. Option Builder × Random) [
      | none ↦ (none, r)
      | some i ↦ (
        some (put_pattern b (pattern_start per_row i) pair (draw_filler size r).0),
        (draw_filler size r).1,
      )
    ]).0
      ≡ some c
    → IsUpdate b c
pattern_found pair size per_row b none r c ok e = cc
pattern_found pair size per_row b (some i) r c ok e = subst (IsUpdate b) (ground arith) (
    put_pattern-IsUpdate b (pattern_start per_row i) pair (draw_filler size r).0
      (rw (length-draw_filler size r) (ok i refl)))

place_pattern-IsUpdate' :
    (pair : Bytes) (size : ℕ) (b : Builder) (r : Random) (c : Builder)
    → (place_pattern pair size b r).0 ≡ some c
    → IsUpdate b c
unfolding place_pattern
place_pattern-IsUpdate' pair size b r c e =
    elim (Bool-cases (not (length pair == 2) || ltb board_row_width (size + 2))) [
      | inl refused ↦ ground (arith, refused)
      | inr tried ↦
          pattern_found pair size (board_row_width - (size + 2) + 1) b (choose _ _ r).0
            (choose _ _ r).1 c (λ i found. choose-accept _ _ r i found) (rw tried at e)
    ]

decoy_found :
    (delimiter : ℕ) (b : Builder) (found : Option ℕ) (c : Builder)
    → ((i : ℕ) → found ≡ some i → is_free b i ≡ true)
    → (elim found as (λ _. Option Builder) [ none ↦ none | some i ↦ some (put b i delimiter) ])
      ≡ some c
    → IsUpdate b c
unfolding is_free
decoy_found delimiter b none c ok e = cc
decoy_found delimiter b (some i) c ok e = subst (IsUpdate b) (ground arith) (record {
  keeps = put-Keeps b i delimiter (get_or-not-IsTaken b.used i (ground (arith, ok i refl)));
  same_prefix = refl;
  same_words = refl;
  same_next = refl;
})

place_delimiter_decoy-IsUpdate' :
    (delimiter : ℕ) (b : Builder) (r : Random) (c : Builder)
    → (place_delimiter_decoy delimiter b r).0 ≡ some c
    → IsUpdate b c
unfolding place_delimiter_decoy
place_delimiter_decoy-IsUpdate' delimiter b r c e =
    decoy_found delimiter b (choose (length b.used) (is_free b) r).0 c
      (λ i found. choose-accept _ _ r i found) e

-- The brackets around a word go to free places.
pub place_interrupted_span-IsUpdate :
    (pair : Bytes) (b : Builder) → Ensures (IsUpdate b) (place_interrupted_span pair b)
place_interrupted_span-IsUpdate pair b = record { holds = place_interrupted_span-IsUpdate' pair b }

-- A bracket span goes to free places.
pub place_pattern-IsUpdate :
    (pair : Bytes) (size : ℕ) (b : Builder) → Ensures (IsUpdate b) (place_pattern pair size b)
place_pattern-IsUpdate pair size b = record { holds = place_pattern-IsUpdate' pair size b }

-- A decoy goes to a free place.
pub place_delimiter_decoy-IsUpdate :
    (delimiter : ℕ) (b : Builder) → Ensures (IsUpdate b) (place_delimiter_decoy delimiter b)
place_delimiter_decoy-IsUpdate delimiter b = record {
  holds = place_delimiter_decoy-IsUpdate' delimiter b;
}
