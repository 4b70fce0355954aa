-- ===== src/Hack/Generate/Layout.antt =====
-- The two columns under construction stay laid out through an attempt.
use mathlib.Core.List.{append_assoc, append_cancel_left}
use fallout_terminal.Common.{
  ℕ, zero, suc, ◌+◌, ◌%◌, Bool, true, false, not, Option, none, some, [], ◌∷◌, ◌++◌, negsuc, Bytes,
  Dict, ◌==◌, length, get_or, lookup, In, ◌≡◌, ◌≢◌, ◌⊎◌, inl, inr, refl, sym, ap, ◌∙◌, arith,
  Bool-cases,
}
use fallout_terminal.Domain.Hack.{HackWord, HackCandidate}
use fallout_terminal.Hack.Attempt.{
  Attempt, Ensures, Ensures-bind, Ensures-or_else, Ensures-succeed, Ensures-any, Ensures-weaken,
  draw,
}
use fallout_terminal.Hack.Builder.Layout.{IsLaidOut, Keeps-IsLaidOut}
use fallout_terminal.Hack.Builder.Words.{new_id}
use fallout_terminal.Hack.Builder.{Builder, can_place, place_at, random_start, place, put_word}
use fallout_terminal.Hack.Generate.{
  Builders, pick, put_back, on_builder, on_either, place_interrupted_candidate_span, place_patterns,
  place_decoys, interior_length, pair_at, delimiter_closers,
}
use fallout_terminal.Hack.Spans.{place_pattern, place_delimiter_decoy}
use fallout_terminal.Hack.Spans.Keep.{
  IsUpdate, place_interrupted_span-IsUpdate, place_pattern-IsUpdate, place_delimiter_decoy-IsUpdate,
}

abbrev pub a_prefix : Bytes → Bytes
a_prefix scope = scope ++ (b'-' ∷ b'A' ∷ [])

abbrev pub b_prefix : Bytes → Bytes
b_prefix scope = scope ++ (b'-' ∷ b'B' ∷ [])

-- A candidate's text is the text of a word of one of the columns.
pub record IsCovered (bs : Builders) (words : Dict HackCandidate) (text : Bytes) : Type 0 where
  pub word : HackWord
  pub in_column : In word bs.column_a.words ⊎ In word bs.column_b.words
  pub known : lookup word.id words ≡ some (record { text = text })

-- Both columns are laid out, and give IDs that differ.
pub record IsSound (scope : Bytes) (bs : Builders) (words : Dict HackCandidate) : Type 0 where
  pub laid_a : IsLaidOut words bs.column_a
  pub laid_b : IsLaidOut words bs.column_b
  pub prefix_a : bs.column_a.prefix ≡ a_prefix scope
  pub prefix_b : bs.column_b.prefix ≡ b_prefix scope

pub prefixes_differ : (scope d e : Bytes) → a_prefix scope ++ d ≢ b_prefix scope ++ e
prefixes_differ scope d e same =
    let tails =
      append_cancel_left scope _ _ (sym (append_assoc scope _ d) ∙ same ∙ append_assoc scope _ e) in
    absurd (omega (arith, ap (λ (l : Bytes). get_or l 1 0) tails))

-- What `place` returns when it succeeds.
pub record IsPlacement (b : Builder) (text : Bytes) (placed : Bytes × Builder) : Type 0 where
  pub start : ℕ
  pub allowed : can_place b start (length text) ≡ true
  pub id_is : placed.0 ≡ new_id b
  pub builder_is : placed.1 ≡ put_word b text start

place_at-IsPlacement :
    (b : Builder) (text : Bytes) (start : ℕ) (placed : Bytes × Builder)
    → place_at b text start ≡ some placed
    → IsPlacement b text placed
unfolding place_at
place_at-IsPlacement b text start placed e = elim (Bool-cases (can_place b start (length text))) [
  | inl ok ↦ record {
    start = start;
    allowed = ok;
    id_is = ground (arith, ok);
    builder_is = ground (arith, ok);
  }
  | inr refused ↦ ground (arith, refused)
]

found-IsPlacement :
    (b : Builder) (text : Bytes) (found : Option ℕ) (placed : Bytes × Builder)
    → (elim found as (λ _. Option (Bytes × Builder)) [
      | none ↦ none
      | some start ↦ place_at b text start
    ])
      ≡ some placed
    → IsPlacement b text placed
found-IsPlacement b text none placed e = cc
found-IsPlacement b text (some start) placed e = place_at-IsPlacement b text start placed e

pub place-IsPlacement :
    (b : Builder) (text : Bytes) (n : ℕ) → Ensures (IsPlacement b text) (place b text (negsuc n))
unfolding place
place-IsPlacement b text n = record {
  holds = λ r placed e. found-IsPlacement b text (random_start b (length text) r).0 placed e;
}

update-IsLaidOut :
    {words : Dict HackCandidate} {b c : Builder}
    → IsUpdate b c
    → IsLaidOut words b
    → IsLaidOut words c
update-IsLaidOut u h = Keeps-IsLaidOut u.keeps u.same_prefix u.same_words u.same_next h

-- What an operation on the builders must keep: the layout, and the words of the columns.
pub record IsKept (scope : Bytes) (words : Dict HackCandidate) (bs cs : Builders) : Type 0 where
  pub sound : IsSound scope cs words
  pub same_a : cs.column_a.words ≡ bs.column_a.words
  pub same_b : cs.column_b.words ≡ bs.column_b.words

put_back-IsKept :
    (scope : Bytes) (words : Dict HackCandidate) (a : Bool) (bs : Builders) (c : Builder)
    → IsSound scope bs words
    → IsUpdate (pick a bs) c
    → IsKept scope words bs (put_back a bs c)
put_back-IsKept scope words true bs c h u = record {
  sound = record {
    laid_a = update-IsLaidOut u h.laid_a;
    laid_b = h.laid_b;
    prefix_a = u.same_prefix ∙ h.prefix_a;
    prefix_b = h.prefix_b;
  };
  same_a = u.same_words;
  same_b = refl;
}
put_back-IsKept scope words false bs c h u = record {
  sound = record {
    laid_a = h.laid_a;
    laid_b = update-IsLaidOut u h.laid_b;
    prefix_a = h.prefix_a;
    prefix_b = u.same_prefix ∙ h.prefix_b;
  };
  same_a = refl;
  same_b = u.same_words;
}

module _ (scope : Bytes) (words : Dict HackCandidate) where
  on_builder-IsKept :
      (operation : Builder → Attempt Builder) (a : Bool) (bs : Builders)
      → ((b : Builder) → Ensures (IsUpdate b) (operation b))
      → IsSound scope bs words
      → Ensures (IsKept scope words bs) (on_builder operation a bs)
  unfolding on_builder
  on_builder-IsKept operation a bs ok h =
      Ensures-bind (IsUpdate (pick a bs)) _ (operation (pick a bs)) _ (ok (pick a bs))
        (λ c u. Ensures-succeed _ (put_back a bs c) (put_back-IsKept scope words a bs c h u))

  pub on_either-IsKept :
      (first second : Builder → Attempt Builder) (a : Bool) (bs : Builders)
      → ((b : Builder) → Ensures (IsUpdate b) (first b))
      → ((b : Builder) → Ensures (IsUpdate b) (second b))
      → IsSound scope bs words
      → Ensures (IsKept scope words bs) (on_either first second a bs)
  unfolding on_either
  on_either-IsKept first second a bs ok_first ok_second h =
      Ensures-or_else _ (on_builder first a bs) (on_builder second (not a) bs)
        (on_builder-IsKept first a bs ok_first h) (on_builder-IsKept second (not a) bs ok_second h)

  IsKept-trans :
      {bs cs ds : Builders}
      → IsKept scope words bs cs
      → IsKept scope words cs ds
      → IsKept scope words bs ds
  IsKept-trans p q = record {
    sound = q.sound;
    same_a = q.same_a ∙ p.same_a;
    same_b = q.same_b ∙ p.same_b;
  }

  IsKept-refl : {bs : Builders} → IsSound scope bs words → IsKept scope words bs bs
  IsKept-refl h = record { sound = h; same_a = refl; same_b = refl }

  pub place_interrupted_candidate_span-IsKept :
      (bs : Builders)
      → IsSound scope bs words
      → Ensures (IsKept scope words bs) (place_interrupted_candidate_span bs)
  unfolding place_interrupted_candidate_span
  place_interrupted_candidate_span-IsKept bs h =
      Ensures-bind (λ _. Unit {0}) _ (draw 2) _ (Ensures-any _)
        λ start _.
          Ensures-bind (λ _. Unit {0}) _ (draw 4) _ (Ensures-any _)
            λ offset _.
              on_either-IsKept _ _ (start == 0) bs
                (place_interrupted_span-IsUpdate (pair_at offset))
                (place_interrupted_span-IsUpdate (pair_at (offset + 1))) h

  pub place_patterns-IsKept :
      (n index offset : ℕ) (bs : Builders)
      → IsSound scope bs words
      → Ensures (IsKept scope words bs) (place_patterns n index offset bs)
  unfolding place_patterns
  place_patterns-IsKept zero index offset bs h = Ensures-succeed _ bs (IsKept-refl h)
  place_patterns-IsKept (suc n) index offset bs h =
      Ensures-bind (λ _. Unit {0}) _ (interior_length index) _ (Ensures-any _)
        λ interior _.
          Ensures-bind (IsKept scope words bs) _
            (on_either (place_pattern (pair_at (offset + index)) interior)
              (place_pattern (pair_at (offset + index)) interior) (index % 2 == 0) bs)
            _
            (on_either-IsKept _ _ (index % 2 == 0) bs
              (place_pattern-IsUpdate (pair_at (offset + index)) interior)
              (place_pattern-IsUpdate (pair_at (offset + index)) interior) h)
            λ cs kept.
              Ensures-weaken _ _ _ (λ ds. IsKept-trans kept)
                (place_patterns-IsKept n (index + 1) offset cs kept.sound)

  pub place_decoys-IsKept :
      (n index offset : ℕ) (bs : Builders)
      → IsSound scope bs words
      → Ensures (IsKept scope words bs) (place_decoys n index offset bs)
  unfolding place_decoys
  place_decoys-IsKept zero index offset bs h = Ensures-succeed _ bs (IsKept-refl h)
  place_decoys-IsKept (suc n) index offset bs h =
      let closer = get_or delimiter_closers ((offset + index) % 4) 0 in
      Ensures-bind (IsKept scope words bs) _
        (on_either (place_delimiter_decoy closer) (place_delimiter_decoy closer) (index % 2 == 0)
          bs)
        _
        (on_either-IsKept _ _ (index % 2 == 0) bs (place_delimiter_decoy-IsUpdate closer)
          (place_delimiter_decoy-IsUpdate closer) h)
        λ cs kept.
          Ensures-weaken _ _ _ (λ ds. IsKept-trans kept)
            (place_decoys-IsKept n (index + 1) offset cs kept.sound)
