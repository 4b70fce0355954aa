-- ===== src/Hack/Builder/Words.antt =====
-- Placing a word keeps the layout.
use mathlib.Core.List.{append_cancel_left}
use fallout_terminal.Common.{
  ℕ, ◌+◌, ◌<◌, true, List, [], ◌∷◌, ◌++◌, Bytes, Dict, length, replicate, length-replicate, All,
  All-append, decimal, decimal_injective, insert, lookup-insert, equal_refl, ◌≡◌, ◌≢◌, refl, ◌∙◌,
  arith,
}
use fallout_terminal.Domain.Hack.{HackWord, HackCandidate}
use fallout_terminal.Hack.Builder.Extends.{
  Keeps, Extends-overwrite, overwrite_inside, get_elem?-replicate,
}
use fallout_terminal.Hack.Builder.Layout.{
  Shows, Shows-Extends, IsApart, AllApart, IsLaidOut, insert-IsLaidOut, All-weaken, can_place-free,
  can_place_bounds, Shows-IsApart,
}
use fallout_terminal.Hack.Builder.{Builder, column_chars, can_place, mark, put_word}

AllApart-append :
    (ws : List HackWord) (w : HackWord)
    → AllApart ws
    → All (λ v. IsApart v w) ws
    → AllApart (ws ++ (w ∷ []))
AllApart-append [] w h a = (tt, tt)
AllApart-append (v ∷ ws) w h a =
    (All-append _ ws (w ∷ []) h.0 (a.0, tt), AllApart-append ws w h.1 a.1)

abbrev pub new_id : Builder → Bytes
new_id b = b.prefix ++ decimal b.next_id

abbrev pub new_word : Builder → Bytes → ℕ → HackWord
new_word b text start = record {
  id = b.prefix ++ decimal b.next_id;
  start = start;
  length = length text;
}

put_word-Keeps :
    (b : Builder) (text : Bytes) (start : ℕ)
    → length b.chars ≡ column_chars
    → can_place b start (length text) ≡ true
    → Keeps b (put_word b text start)
unfolding put_word mark
put_word-Keeps b text start on ok =
    Extends-overwrite b.chars b.used start text (replicate (length text) true)
      (length-replicate (length text) true)
      (λ j low high.
        can_place-free b start (length text) j ok (omega arith) (omega arith)
          (omega (arith, can_place_bounds b start (length text) ok)))

put_word-Shows :
    (b : Builder) (text : Bytes) (start : ℕ)
    → length b.chars ≡ column_chars
    → length b.used ≡ column_chars
    → can_place b start (length text) ≡ true
    → Shows (put_word b text start).chars (put_word b text start).used (new_word b text start) text
unfolding put_word mark
put_word-Shows b text start on same ok =
    let (some_letters, room) = can_place_bounds b start (length text) ok in
    record {
      size_is = refl;
      nonempty = some_letters;
      in_column = omega arith;
      taken = λ k lt.
          overwrite_inside b.used start (replicate (length text) true) (start + k) k refl
            (omega (arith, length-replicate (length text) true))
            (omega (arith, length-replicate (length text) true))
          ∙ get_elem?-replicate (length text) k true lt;
      letters = λ k lt. overwrite_inside b.chars start text (start + k) k refl lt room;
    }

pub own_ids_differ : (prefix : Bytes) (k n : ℕ) → k < n → prefix ++ decimal k ≢ prefix ++ decimal n
own_ids_differ prefix k n lt e =
    absurd (omega (arith, decimal_injective k n (append_cancel_left prefix _ _ e)))

-- A word that goes where `can_place` allows it, under an ID of its own, leaves a column laid out that
-- was: each word reads as its candidate, and words stand apart by the gap.
pub put_word-IsLaidOut :
    (words : Dict HackCandidate) (b : Builder) (text : Bytes) (start : ℕ)
    → can_place b start (length text) ≡ true
    → IsLaidOut words b
    → IsLaidOut (insert (new_id b) (record { text = text }) words) (put_word b text start)
unfolding put_word
put_word-IsLaidOut words b text start ok h =
    let keeps = put_word-Keeps b text start h.chars_size ok in
    let kept =
      insert-IsLaidOut (new_id b) (record { text = text })
        (λ k lt. own_ids_differ b.prefix k b.next_id lt) h in
    record {
      chars_size = keeps.same_chars_size ∙ h.chars_size;
      used_size = keeps.same_used_size ∙ h.used_size;
      placed =
          All-append _ b.words (new_word b text start ∷ [])
            (All-weaken _ _ b.words
              (λ w p. record {
                number = p.number;
                candidate = p.candidate;
                id_is = p.id_is;
                given = omega (arith, p.given);
                known = p.known;
                shows = Shows-Extends keeps p.shows;
              })
              kept.placed)
            (
              record {
                number = b.next_id;
                candidate = record { text = text };
                id_is = refl;
                given = omega arith;
                known = rw (lookup-insert (new_id b) (new_id b) _ words, equal_refl (new_id b));
                shows = put_word-Shows b text start h.chars_size h.used_size ok;
              },
              tt,
            );
      apart = AllApart-append b.words (new_word b text start) h.apart (
          All-weaken _ _ b.words
            (λ v p.
              Shows-IsApart b start (length text) v (new_word b text start) p.candidate.text
                h.chars_size ok refl refl p.shows)
            h.placed);
    }
