-- ===== src/Hack/Generate/Candidates.antt =====
-- All candidates are placed, each under an ID of its own.
use fallout_terminal.Common.{
  ℕ, ◌+◌, ◌%◌, Bool, true, false, some, List, [], ◌∷◌, ◌++◌, negsuc, Bytes, Dict, ◌==◌, decimal,
  lookup, insert, lookup-insert, equal_iff, equal_refl, All, All-append, All-In, In, In-append_left,
  In-append_right, ◌≡◌, ◌≢◌, ◌⊎◌, inl, inr, refl, sym, subst, ◌∙◌, arith,
}
use mathlib.Core.List.{append-nil, append_assoc}
use fallout_terminal.Domain.Hack.{HackWord, HackCandidate}
use fallout_terminal.Hack.Attempt.{Ensures, Ensures-bind, Ensures-succeed, Ensures-weaken}
use fallout_terminal.Hack.Builder.Layout.{IsLaidOut, IsPlaced, insert-IsLaidOut}
use fallout_terminal.Hack.Builder.Words.{new_id, new_word, own_ids_differ, put_word-IsLaidOut}
use fallout_terminal.Hack.Builder.{Builder, place, put_word}
use fallout_terminal.Hack.Generate.Layout.{
  IsCovered, IsSound, IsPlacement, place-IsPlacement, prefixes_differ,
}
use fallout_terminal.Hack.Generate.{Builders, pick, put_back, place_candidates}

lookup-insert_ne :
    (words : Dict HackCandidate) (id j : Bytes) (v : HackCandidate)
    → j ≢ id
    → lookup j (insert id v words) ≡ lookup j words
lookup-insert_ne words id j v ne =
    ground (arith, lookup-insert id j v words, equal_iff id j, λ (e : id ≡ j). ne (sym e))

-- A word placed on one builder, seen from both.
record IsPlacedBeside (words later : Dict HackCandidate) (b c o : Builder) (text : Bytes)
    : Type 0 where
  laid : IsLaidOut later c
  laid_other : IsLaidOut later o
  same_prefix : c.prefix ≡ b.prefix
  still_known : (w : HackWord) → In w b.words ⊎ In w o.words → lookup w.id later ≡ lookup w.id words
  still_in : (w : HackWord) → In w b.words → In w c.words
  word : HackWord
  word_in : In word c.words
  word_known : lookup word.id later ≡ some (record { text = text })

put_word-IsPlacedBeside :
    (words : Dict HackCandidate) (b o : Builder) (text : Bytes) (placed : Bytes × Builder)
    → IsLaidOut words b
    → IsLaidOut words o
    → ((k n : ℕ) → o.prefix ++ decimal k ≢ b.prefix ++ decimal n)
    → IsPlacement b text placed
    → IsPlacedBeside words (insert placed.0 (record { text = text }) words) b placed.1 o text
unfolding put_word
put_word-IsPlacedBeside words b o text (id, c) hb ho differ p =
    subst (λ i. IsPlacedBeside words (insert i (record { text = text }) words) b c o text)
      (sym p.id_is)
      (subst
        (λ d. IsPlacedBeside words (insert (new_id b) (record { text = text }) words) b d o text)
        (sym p.builder_is)
        (record {
          laid = put_word-IsLaidOut words b text p.start p.allowed hb;
          laid_other =
              insert-IsLaidOut (new_id b) (record { text = text }) (λ k lt. differ k b.next_id) ho;
          same_prefix = refl;
          still_known = known;
          still_in = λ w m. In-append_left w b.words (new_word b text p.start ∷ []) m;
          word = new_word b text p.start;
          word_in =
              In-append_right (new_word b text p.start) b.words (new_word b text p.start ∷ [])
                (inl refl);
          word_known = rw (lookup-insert (new_id b) (new_id b) _ words, equal_refl (new_id b));
        }))
  where
    known :
        (w : HackWord)
        → In w b.words ⊎ In w o.words
        → lookup w.id (insert (new_id b) (record { text = text }) words) ≡ lookup w.id words
    known w (inl m) =
        let q = All-In (IsPlaced words b.prefix b.next_id b.chars b.used) w b.words hb.placed m in
        lookup-insert_ne words (new_id b) w.id _
          (λ e. own_ids_differ b.prefix q.number b.next_id q.given (sym q.id_is ∙ e))
    known w (inr m) =
        let q = All-In (IsPlaced words o.prefix o.next_id o.chars o.used) w o.words ho.placed m in
        lookup-insert_ne words (new_id b) w.id _ (λ e. differ q.number b.next_id (sym q.id_is ∙ e))

-- The state of the loop: sound columns in which the texts so far are covered.
pub record IsCovering (scope : Bytes) (texts : List Bytes) (bs : Builders)
    (words : Dict HackCandidate) : Type 0 where
  pub sound : IsSound scope bs words
  pub covered : All (IsCovered bs words) texts

All-IsCovered :
    (bs cs : Builders) (words later : Dict HackCandidate) (texts : List Bytes)
    → ((w : HackWord) → In w bs.column_a.words → In w cs.column_a.words)
    → ((w : HackWord) → In w bs.column_b.words → In w cs.column_b.words)
    → ((w : HackWord)
        → In w bs.column_a.words ⊎ In w bs.column_b.words
        → lookup w.id later ≡ lookup w.id words)
    → All (IsCovered bs words) texts
    → All (IsCovered cs later) texts
All-IsCovered bs cs words later [] fa fb known h = tt
All-IsCovered bs cs words later (text ∷ texts) fa fb known (c, h) = (
  record {
    word = c.word;
    in_column = elim c.in_column [ inl m ↦ inl (fa c.word m) | inr m ↦ inr (fb c.word m) ];
    known = known c.word c.in_column ∙ c.known;
  },
  All-IsCovered bs cs words later texts fa fb known h,
)

swap {ℓ} : {A B : Type ℓ} → A ⊎ B → B ⊎ A
swap (inl a) = inr a
swap (inr b) = inl b

place_one :
    (scope : Bytes) (texts : List Bytes) (text : Bytes) (a : Bool) (bs : Builders)
    (words : Dict HackCandidate) (placed : Bytes × Builder)
    → IsCovering scope texts bs words
    → IsPlacement (pick a bs) text placed
    → IsCovering scope
        (texts ++ (text ∷ []))
        (put_back a bs placed.1)
        (insert placed.0 (record { text = text }) words)
place_one scope texts text true bs words placed h p =
    let s =
      put_word-IsPlacedBeside words bs.column_a bs.column_b text placed h.sound.laid_a
        h.sound.laid_b
        (λ k n e.
          prefixes_differ scope (decimal n) (decimal k)
            (rw (h.sound.prefix_a, h.sound.prefix_b) at (sym e)))
        p in
    record {
      sound = record {
        laid_a = s.laid;
        laid_b = s.laid_other;
        prefix_a = s.same_prefix ∙ h.sound.prefix_a;
        prefix_b = h.sound.prefix_b;
      };
      covered =
          All-append _ texts (text ∷ [])
            (All-IsCovered bs (put_back true bs placed.1) words _ texts s.still_in (λ w m. m)
              s.still_known h.covered)
            (record { word = s.word; in_column = inl s.word_in; known = s.word_known }, tt);
    }
place_one scope texts text false bs words placed h p =
    let s =
      put_word-IsPlacedBeside words bs.column_b bs.column_a text placed h.sound.laid_b
        h.sound.laid_a
        (λ k n e.
          prefixes_differ scope (decimal k) (decimal n)
            (rw (h.sound.prefix_a, h.sound.prefix_b) at e))
        p in
    record {
      sound = record {
        laid_a = s.laid_other;
        laid_b = s.laid;
        prefix_a = h.sound.prefix_a;
        prefix_b = s.same_prefix ∙ h.sound.prefix_b;
      };
      covered =
          All-append _ texts (text ∷ [])
            (All-IsCovered bs (put_back false bs placed.1) words _ texts (λ w m. m) s.still_in
              (λ w m. s.still_known w (swap m)) h.covered)
            (record { word = s.word; in_column = inr s.word_in; known = s.word_known }, tt);
    }

-- Placing the candidates covers all of them.
pub place_candidates-IsCovering :
    (scope : Bytes) (done texts : List Bytes) (index : ℕ) (bs : Builders)
    (words : Dict HackCandidate)
    → IsCovering scope done bs words
    → Ensures
        (λ (out : Builders × Dict HackCandidate). IsCovering scope (done ++ texts) out.0 out.1)
        (place_candidates texts index bs words)
unfolding place_candidates
place_candidates-IsCovering scope done [] index bs words h =
    Ensures-succeed _ (bs, words)
      (subst (λ texts. IsCovering scope texts bs words) (sym (append-nil done)) h)
place_candidates-IsCovering scope done (text ∷ texts) index bs words h =
    let a = index % 2 == 0 in
    Ensures-bind (IsPlacement (pick a bs) text) _ (place (pick a bs) text (negsuc 0)) _
      (place-IsPlacement (pick a bs) text 0)
      λ placed p.
        Ensures-weaken _ _ _
          (λ out.
            subst (λ all_. IsCovering scope all_ out.0 out.1) (append_assoc done (text ∷ []) texts))
          (place_candidates-IsCovering scope (done ++ (text ∷ [])) texts (index + 1)
            (put_back a bs placed.1) (insert placed.0 (record { text = text }) words)
            (place_one scope done text a bs words placed h p))
