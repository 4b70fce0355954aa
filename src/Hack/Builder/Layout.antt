-- ===== src/Hack/Builder/Layout.antt =====
-- The layout of a column under construction: words read as their candidates and stand apart.
use native.Mathlib.Decide.{dec_le}
use fallout_terminal.Common.{
  ℕ, ◌+◌, ◌-◌, ◌≤◌, ◌<◌, min, max, Bool, true, some, List, [], ◌∷◌, ◌++◌, Bytes, Dict, length,
  get_elem?, All, decimal, lookup, insert, lookup-insert, equal_iff, ◌≡◌, ◌≢◌, ◌⊎◌, inl, inr, sym,
  subst, ◌∙◌, arith,
}
use fallout_terminal.Domain.Hack.{HackWord, HackCandidate}
use fallout_terminal.Hack.Builder.Extends.{IsTaken, any_used-not-IsTaken, Extends, Keeps}
use fallout_terminal.Hack.Builder.{Builder, column_chars, word_gap, can_place}

-- The letters of `text` stand at the places of the word, and the places are taken.
pub record Shows (chars : Bytes) (used : List Bool) (w : HackWord) (text : Bytes) : Type 0 where
  pub size_is : length text ≡ w.length
  pub nonempty : 0 < w.length
  pub in_column : w.start + w.length ≤ column_chars
  pub taken : (k : ℕ) → k < w.length → IsTaken used (w.start + k)
  pub letters : (k : ℕ) → k < w.length → get_elem? chars (w.start + k) ≡ get_elem? text k

pub Shows-Extends :
    {c1 c2 : Bytes} {u1 u2 : List Bool} {w : HackWord} {text : Bytes}
    → Extends c1 c2 u1 u2
    → Shows c1 u1 w text
    → Shows c2 u2 w text
Shows-Extends {w = w} x h = record {
  size_is = h.size_is;
  nonempty = h.nonempty;
  in_column = h.in_column;
  taken = λ k lt. x.still_taken (w.start + k) (h.taken k lt);
  letters = λ k lt. x.still_there (w.start + k) (h.taken k lt) ∙ h.letters k lt;
}

-- The word has an ID that the builder has given, and reads as the candidate of that ID.
pub record IsPlaced (words : Dict HackCandidate) (prefix : Bytes) (next : ℕ) (chars : Bytes)
    (used : List Bool) (w : HackWord) : Type 0 where
  pub number : ℕ
  pub candidate : HackCandidate
  pub id_is : w.id ≡ prefix ++ decimal number
  pub given : number < next
  pub known : lookup w.id words ≡ some candidate
  pub shows : Shows chars used w candidate.text

-- At least `word_gap` places lie between two words.
abbrev pub IsApart : HackWord → HackWord → Type 0
IsApart v w = (v.start + v.length + word_gap ≤ w.start) ⊎ (w.start + w.length + word_gap ≤ v.start)

abbrev pub AllApart : List HackWord → Type 0
AllApart [] = Unit
AllApart (w ∷ ws) = All (IsApart w) ws × AllApart ws

pub record IsLaidOut (words : Dict HackCandidate) (b : Builder) : Type 0 where
  pub chars_size : length b.chars ≡ column_chars
  pub used_size : length b.used ≡ column_chars
  pub placed : All (IsPlaced words b.prefix b.next_id b.chars b.used) b.words
  pub apart : AllApart b.words

pub All-weaken :
    (P Q : HackWord → Type 0) (ws : List HackWord)
    → ((w : HackWord) → P w → Q w)
    → All P ws
    → All Q ws
All-weaken P Q [] f h = tt
All-weaken P Q (w ∷ ws) f h = (f w h.0, All-weaken P Q ws f h.1)

-- A change that keeps what is placed, and no word, keeps the layout.
pub Keeps-IsLaidOut :
    {words : Dict HackCandidate} {b c : Builder}
    → Keeps b c
    → c.prefix ≡ b.prefix
    → c.words ≡ b.words
    → c.next_id ≡ b.next_id
    → IsLaidOut words b
    → IsLaidOut words c
Keeps-IsLaidOut {words} {b} {c} keeps e f n h = record {
  chars_size = keeps.same_chars_size ∙ h.chars_size;
  used_size = keeps.same_used_size ∙ h.used_size;
  placed = subst (All (IsPlaced words c.prefix c.next_id c.chars c.used)) (sym f) (
      All-weaken _ _ b.words
        (λ w p. record {
          number = p.number;
          candidate = p.candidate;
          id_is = rw e p.id_is;
          given = omega arith;
          known = p.known;
          shows = Shows-Extends keeps p.shows;
        })
        h.placed);
  apart = subst AllApart (sym f) h.apart;
}

-- A candidate under an ID that the builder has not given does not change the layout.
pub insert-IsLaidOut :
    {words : Dict HackCandidate} {b : Builder} (id : Bytes) (v : HackCandidate)
    → ((k : ℕ) → k < b.next_id → b.prefix ++ decimal k ≢ id)
    → IsLaidOut words b
    → IsLaidOut (insert id v words) b
insert-IsLaidOut {words} {b} id v fresh h = record {
  chars_size = h.chars_size;
  used_size = h.used_size;
  placed =
      All-weaken _ _ b.words
        (λ w p. record {
          number = p.number;
          candidate = p.candidate;
          id_is = p.id_is;
          given = p.given;
          known = keeps_old w p;
          shows = p.shows;
        })
        h.placed;
  apart = h.apart;
}
  where
    keeps_old :
        (w : HackWord) (p : IsPlaced words b.prefix b.next_id b.chars b.used w)
        → lookup w.id (insert id v words) ≡ some p.candidate
    keeps_old w p = ground (
      arith,
      lookup-insert id w.id v words,
      equal_iff id w.id,
      fresh p.number p.given,
      p.id_is,
      p.known,
    )

-- The places around a word that may be put at `start` are free.
pub can_place-free :
    (b : Builder) (start size i : ℕ)
    → can_place b start size ≡ true
    → start - word_gap ≤ i
    → i < start + size + word_gap
    → i < length b.chars
    → ¬ IsTaken b.used i
unfolding can_place
can_place-free b start size i ok low high on =
    any_used-not-IsTaken b.used (start - word_gap) (min (length b.chars) (start + size + word_gap))
      i (ground arith) low (omega arith)

pub can_place_bounds :
    (b : Builder) (start size : ℕ)
    → can_place b start size ≡ true
    → (0 < size) × (start + size ≤ length b.chars)
unfolding can_place
can_place_bounds b start size ok = ground arith

-- A word that is there stands apart from one that may be placed.
pub Shows-IsApart :
    (b : Builder) (start size : ℕ) (v w : HackWord) (text : Bytes)
    → length b.chars ≡ column_chars
    → can_place b start size ≡ true
    → w.start ≡ start
    → w.length ≡ size
    → Shows b.chars b.used v text
    → IsApart v w
Shows-IsApart b start size v w text on ok e f h =
    elim (dec_le (v.start + v.length + word_gap) w.start) [
      | yes before ↦ inl before
      | no not_before ↦ elim (dec_le (w.start + w.length + word_gap) v.start) [
        | yes behind ↦ inr behind
        | no not_behind ↦ absurd (
            can_place-free b start size (max v.start (start - word_gap)) ok (omega arith)
              (omega (arith, can_place_bounds b start size ok))
              (omega (arith, h.in_column, h.nonempty))
              (subst (IsTaken b.used) (omega (arith, h.nonempty))
                (h.taken (max v.start (start - word_gap) - v.start) (omega (arith, h.nonempty)))))
      ]
    ]
