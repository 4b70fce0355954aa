-- ===== src/Hack/Board/Boards.antt =====
-- The boards that `GenerateBoard` returns.
use fallout_terminal.Common.{
  ℕ, zero, suc, ◌<◌, true, false, Option, none, some, List, [], Bytes, ℤ, ◌==◌, if◌then◌else◌,
  length, get_or, In, In-get_or, ◌≡◌, inl, inr, refl, sym, subst, arith, Bool-cases,
}
use mathlib.Core.Option.{some-injective, none-ne-some}
use fallout_terminal.Domain.Hack.{HackState}
use fallout_terminal.Hack.Attempt.{
  Ensures, Ensures-bind, Ensures-give_up, Ensures-weaken, draw, draw-lt, ◌>>=◌,
}
use fallout_terminal.Common.{is_blank}
use fallout_terminal.Hack.Board.Candidates.{choose_candidates-IsChoice, level_bounds}
use fallout_terminal.Hack.Board.{level_word_length, level_word_count, request_of, generate_board}
use fallout_terminal.Hack.Camouflage.{classify_final_board, publishable}
use fallout_terminal.Hack.Game.{IsPlayable}
use fallout_terminal.Hack.Generate.Final.{IsBoard, generate_board_attempt-IsBoard}
use fallout_terminal.Hack.Generate.{Request, generate_board_attempt, board_tries}
use fallout_terminal.Hack.Random.{Random, placement_tries}
use fallout_terminal.Hack.WordBank.Laws.{IsChoice}

-- A board for the request that may be published.
pub record IsPublished (request : Request) (s : HackState) : Type 0 where
  pub board : IsBoard request s
  pub may_publish : publishable (classify_final_board s) ≡ true

tried-cases :
    (sha256 : Bytes → Bytes) (request : Request) (found : Option HackState) (now : Random)
    (rest : Option HackState × Random) (s : HackState)
    → ((t : HackState) → found ≡ some t → IsBoard request t)
    → (rest.0 ≡ some s → IsPublished request s)
    → (elim found as (λ _. Option HackState × Random) [
      | none ↦ rest
      | some t ↦ if publishable (classify_final_board t) then (some t, now) else rest
    ]).0
      ≡ some s
    → IsPublished request s
tried-cases sha256 request none now rest s board later e = later e
tried-cases sha256 request (some t) now rest s board later e =
    elim (Bool-cases (publishable (classify_final_board t))) [
      | inl good ↦
          let same : t ≡ s = some-injective t s (rw good at e) in
          subst (IsPublished request) same (record { board = board t refl; may_publish = good })
      | inr bad ↦ later (rw bad at e)
    ]

board_tries-IsPublished :
    (sha256 : Bytes → Bytes) (n : ℕ) (request : Request) (r : Random) (s : HackState)
    → (board_tries sha256 n request r).0 ≡ some s
    → IsPublished request s
unfolding board_tries
board_tries-IsPublished sha256 zero request r s e = absurd (none-ne-some s e)
board_tries-IsPublished sha256 (suc n) request r s e =
    let tried = generate_board_attempt sha256 request r in
    tried-cases sha256 request tried.0 tried.1 (board_tries sha256 n request tried.1) s
      (λ t found. (generate_board_attempt-IsBoard sha256 request).holds r t found)
      (board_tries-IsPublished sha256 n request tried.1 s) e

-- A board that is generated: its candidates are a choice of words, its secret is one of them, and
-- it may be published.
pub record IsGenerated (generation_id : Bytes) (level : ℤ) (s : HackState) : Type 0 where
  pub candidates : List Bytes
  pub index : ℕ
  pub choice : IsChoice (level_word_length level) (level_word_count level) candidates
  pub secret_in : In (get_or candidates index []) candidates
  pub published : IsPublished (request_of generation_id level candidates index) s

drawn-IsPublished :
    (sha256 : Bytes → Bytes) (generation_id : Bytes) (level : ℤ) (candidates : List Bytes)
    → IsChoice (level_word_length level) (level_word_count level) candidates
    → (length candidates == 0) ≡ false
    → Ensures (IsGenerated generation_id level) (
        draw (length candidates) >>= λ index.
        board_tries sha256 placement_tries (request_of generation_id level candidates index))
drawn-IsPublished sha256 generation_id level candidates choice some_words =
    Ensures-bind (λ index. index < length candidates) _ _ _
      (draw-lt (length candidates) (ground arith))
      λ index lt. record {
        holds = λ r s e. record {
          candidates = candidates;
          index = index;
          choice = choice;
          secret_in = In-get_or index candidates [] lt;
          published =
              board_tries-IsPublished sha256 placement_tries
                (request_of generation_id level candidates index) r s e;
        };
      }

pub generate_board-IsGenerated :
    (sha256 : Bytes → Bytes) (generation_id : Bytes) (level : ℤ)
    (words : Option (ℕ → ℕ → List Bytes))
    → Ensures (IsGenerated generation_id level) (generate_board sha256 generation_id level words)
unfolding generate_board
generate_board-IsGenerated sha256 generation_id level words =
    let (low, high, enough, few) = level_bounds level in
    elim (Bool-cases (is_blank generation_id)) [
      | inl blank ↦ rw blank (Ensures-give_up _)
      | inr named ↦ rw named (
          Ensures-bind (IsChoice (level_word_length level) (level_word_count level)) _ _ _
            (choose_candidates-IsChoice words (level_word_length level) (level_word_count level) low
              high (omega arith) few)
            λ candidates choice. elim (Bool-cases (length candidates == 0)) [
              | inl nothing ↦ rw nothing (Ensures-give_up _)
              | inr something ↦
                  rw something
                    (drawn-IsPublished sha256 generation_id level candidates choice something)
            ])
    ]

-- A generated board can be played, from its first command on.
pub generate_board-IsPlayable :
    (sha256 : Bytes → Bytes) (generation_id : Bytes) (level : ℤ)
    (words : Option (ℕ → ℕ → List Bytes))
    → Ensures IsPlayable (generate_board sha256 generation_id level words)
generate_board-IsPlayable sha256 generation_id level words =
    Ensures-weaken _ _ _
      (λ s h. subst IsPlayable (sym h.published.board.state_is) (record {
        has_attempts = omega arith;
        within = omega arith;
        lost_is = refl;
        one_end = refl;
      }))
      (generate_board-IsGenerated sha256 generation_id level words)

-- A board that is generated, at any level, from any words and any draws, is a full board for its
-- candidates that may be published: its two columns show the candidates apart from each other, and
-- the secret is one of them.
pub generate_board_publishes :
    (sha256 : Bytes → Bytes) (generation_id : Bytes) (level : ℤ)
    (words : Option (ℕ → ℕ → List Bytes)) (r : Random) (s : HackState)
    → (generate_board sha256 generation_id level words r).0 ≡ some s
    → IsGenerated generation_id level s
generate_board_publishes sha256 generation_id level words =
    (generate_board-IsGenerated sha256 generation_id level words).holds
