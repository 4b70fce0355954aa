-- ===== src/Hack/Generate/Final.antt =====
-- The boards that an attempt ends with.
use fallout_terminal.Common.{
  ℕ, ◌+◌, ◌≤◌, ◌<◌, false, some, List, [], ◌∷◌, Bytes, Dict, length, get_elem?, length-replicate,
  lookup, hex_text, take, All, In, ◌≡◌, ◌⊎◌, inl, inr, refl, sym, subst, ◌∙◌,
}
use mathlib.Core.Option.{some-injective}
use fallout_terminal.Domain.Hack.{HackWord, HackCandidate, HackColumn, HackState}
use fallout_terminal.Hack.Attempt.{Ensures, Ensures-bind, Ensures-succeed, Ensures-any, draw}
use fallout_terminal.Hack.Builder.Layout.{IsLaidOut, IsPlaced, AllApart, All-weaken}
use fallout_terminal.Hack.Builder.{Builder, column_chars, board_rows, new_column_builder}
use fallout_terminal.Hack.Finish.Laws.{length-fill, fill-IsTaken, length-generate_addresses}
use fallout_terminal.Hack.Finish.{fill, finish}
use fallout_terminal.Hack.Generate.Candidates.{IsCovering, place_candidates-IsCovering}
use fallout_terminal.Hack.Generate.Layout.{
  IsCovered, IsSound, IsKept, place_interrupted_candidate_span-IsKept, place_patterns-IsKept,
  place_decoys-IsKept,
}
use fallout_terminal.Hack.Generate.{
  Builders, Request, new_state, new_builders, finish_columns, generate_board_attempt,
}
use fallout_terminal.Hack.Random.{Random}

-- The text of a column shows the candidate of this word at its place.
pub record Reads (words : Dict HackCandidate) (text : Bytes) (w : HackWord) : Type 0 where
  pub candidate : HackCandidate
  pub known : lookup w.id words ≡ some candidate
  pub size_is : length candidate.text ≡ w.length
  pub nonempty : 0 < w.length
  pub in_column : w.start + w.length ≤ column_chars
  pub letters : (k : ℕ) → k < w.length → get_elem? text (w.start + k) ≡ get_elem? candidate.text k

pub record IsColumn (words : Dict HackCandidate) (column : HackColumn) : Type 0 where
  pub text_size : length column.text ≡ column_chars
  pub row_addresses : length column.addresses ≡ board_rows
  pub reads : All (Reads words column.text) column.words
  pub apart : AllApart column.words

-- A board made for a request: two full columns that hold all its candidates, and nothing played.
pub record IsBoard (request : Request) (s : HackState) : Type 0 where
  pub left : HackColumn
  pub right : HackColumn
  pub columns_are : s.columns ≡ left ∷ right ∷ []
  pub left_column : IsColumn s.words_by_id left
  pub right_column : IsColumn s.words_by_id right
  pub holds_candidates :
      All
        (λ text.
          (w : HackWord) × (In w left.words ⊎ In w right.words)
          × (lookup w.id s.words_by_id ≡ some (record { text = text })))
        request.candidates
  pub state_is : s ≡ new_state request s.words_by_id s.columns

finish-IsColumn :
    (words : Dict HackCandidate) (b : Builder) (r : Random)
    → IsLaidOut words b
    → IsColumn words (finish b r).0
unfolding finish
finish-IsColumn words b r h = record {
  text_size = length-fill b.chars b.used r ∙ h.chars_size;
  row_addresses = length-generate_addresses board_rows (fill b.chars b.used r).1;
  reads =
      All-weaken (IsPlaced words b.prefix b.next_id b.chars b.used) _ b.words
        (λ w p. record {
          candidate = p.candidate;
          known = p.known;
          size_is = p.shows.size_is;
          nonempty = p.shows.nonempty;
          in_column = p.shows.in_column;
          letters = λ k lt.
              fill-IsTaken b.chars b.used r (w.start + k) (p.shows.taken k lt)
              ∙ p.shows.letters k lt;
        })
        h.placed;
  apart = h.apart;
}

record AreFinished (words : Dict HackCandidate) (bs : Builders) (columns : List HackColumn)
    : Type 0 where
  left : HackColumn
  right : HackColumn
  columns_are : columns ≡ left ∷ right ∷ []
  left_column : IsColumn words left
  right_column : IsColumn words right
  same_left : left.words ≡ bs.column_a.words
  same_right : right.words ≡ bs.column_b.words

finish_columns-AreFinished :
    (scope : Bytes) (words : Dict HackCandidate) (bs : Builders)
    → IsSound scope bs words
    → Ensures (AreFinished words bs) (finish_columns bs)
unfolding finish_columns
finish_columns-AreFinished scope words bs h = record {
  holds = λ r columns e.
      let a = finish bs.column_a r in
      let b = finish bs.column_b a.1 in
      record {
        left = a.0;
        right = b.0;
        columns_are = sym (some-injective _ columns e);
        left_column = finish-IsColumn words bs.column_a r h.laid_a;
        right_column = finish-IsColumn words bs.column_b a.1 h.laid_b;
        same_left = unfold finish in refl;
        same_right = unfold finish in refl;
      };
}

pub new_column_builder-IsLaidOut : (prefix : Bytes) → IsLaidOut [] (new_column_builder prefix)
unfolding new_column_builder
new_column_builder-IsLaidOut prefix = record {
  chars_size = length-replicate {A = ℕ} column_chars 0;
  used_size = length-replicate column_chars false;
  placed = tt;
  apart = tt;
}

module _ (sha256 : Bytes → Bytes) where
  abbrev scope_of : Bytes → Bytes
  scope_of id = hex_text (take 8 (sha256 id))

  new_builders-IsCovering : (id : Bytes) → IsCovering (scope_of id) [] (new_builders sha256 id) []
  unfolding new_column_builder
  new_builders-IsCovering id = record {
    sound = record {
      laid_a = new_column_builder-IsLaidOut _;
      laid_b = new_column_builder-IsLaidOut _;
      prefix_a = refl;
      prefix_b = refl;
    };
    covered = tt;
  }

covered_words :
    (placed bs : Builders) (words : Dict HackCandidate) (left right : HackColumn)
    (texts : List Bytes)
    → left.words ≡ placed.column_a.words
    → right.words ≡ placed.column_b.words
    → All (IsCovered placed words) texts
    → All
        (λ text.
          (w : HackWord) × (In w left.words ⊎ In w right.words)
          × (lookup w.id words ≡ some (record { text = text })))
        texts
covered_words placed bs words left right [] e f h = tt
covered_words placed bs words left right (text ∷ texts) e f (c, h) = (
  (
    c.word,
    (elim c.in_column [
      | inl m ↦ inl (subst (In c.word) (sym e) m)
      | inr m ↦ inr (subst (In c.word) (sym f) m)
    ]),
    c.known,
  ),
  covered_words placed bs words left right texts e f h,
)

-- An attempt that succeeds gives a board for its request.
pub generate_board_attempt-IsBoard :
    (sha256 : Bytes → Bytes) (request : Request)
    → Ensures (IsBoard request) (generate_board_attempt sha256 request)
unfolding generate_board_attempt
generate_board_attempt-IsBoard sha256 request =
    let scope = scope_of sha256 request.generation_id in
    Ensures-bind
      (λ (out : Builders × Dict HackCandidate). IsCovering scope request.candidates out.0 out.1) _ _
      _
      (place_candidates-IsCovering scope [] request.candidates 0
        (new_builders sha256 request.generation_id) []
        (new_builders-IsCovering sha256 request.generation_id))
      λ placed h.
        Ensures-bind (IsKept scope placed.1 placed.0) _ _ _
          (place_interrupted_candidate_span-IsKept scope placed.1 placed.0 h.sound)
          λ spanned k.
            Ensures-bind (λ _. Unit {0}) _ _ _ (Ensures-any (draw 4))
              λ extra _.
                Ensures-bind (λ _. Unit {0}) _ _ _ (Ensures-any (draw 4))
                  λ offset _.
                    Ensures-bind (IsKept scope placed.1 spanned) _ _ _
                      (place_patterns-IsKept scope placed.1 (3 + extra) 0 offset spanned k.sound)
                      λ bracketed l.
                        Ensures-bind (IsKept scope placed.1 bracketed) _ _ _
                          (place_decoys-IsKept scope placed.1 (3 + extra) 0 offset bracketed
                            l.sound)
                          λ hidden m.
                            Ensures-bind (AreFinished placed.1 hidden) _ _ _
                              (finish_columns-AreFinished scope placed.1 hidden m.sound)
                              λ columns f.
                                Ensures-succeed _ (new_state request placed.1 columns) (record {
                                  left = f.left;
                                  right = f.right;
                                  columns_are = f.columns_are;
                                  left_column = f.left_column;
                                  right_column = f.right_column;
                                  holds_candidates =
                                      covered_words placed.0 hidden placed.1 f.left f.right
                                        request.candidates
                                        (f.same_left ∙ m.same_a ∙ l.same_a ∙ k.same_a)
                                        (f.same_right ∙ m.same_b ∙ l.same_b ∙ k.same_b) h.covered;
                                  state_is = refl;
                                })
