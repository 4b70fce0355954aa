-- ===== src/Hack/Board/Winnable.antt =====
-- internal/hack/hack.go: a board that `GenerateBoard` returns can be won.
use fallout_terminal.Common.{
  ℕ, true, ◌||◌, Option, some, List, [], Bytes, ℤ, length, get_or, In, All-In, ◌≡◌, inl, inr, refl,
  sym, ap, ◌∙◌,
}
use fallout_terminal.Domain.Hack.{HackState, HackColumn, HackWord}
use fallout_terminal.Hack.Board.Boards.{IsGenerated, generate_board_publishes}
use fallout_terminal.Hack.Board.{generate_board, level_word_length}
use fallout_terminal.Hack.Game.Endings.{HasLength, apply_guess_wins_iff}
use fallout_terminal.Hack.Play.Guess.{IsActive}
use fallout_terminal.Hack.Play.{apply_guess}
use fallout_terminal.Hack.Random.{Random}
use fallout_terminal.Hack.WordBank.Laws.{IsWord}

-- A word on the board whose guess wins.
pub record IsWinnable (s : HackState) : Type 0 where
  pub column : HackColumn
  pub word : HackWord
  pub on_board : In column s.columns
  pub in_column : In word column.words
  pub wins : (apply_guess s word.id).solved ≡ true

IsGenerated-IsWinnable :
    (generation_id : Bytes) (level : ℤ) (s : HackState)
    → IsGenerated generation_id level s
    → IsWinnable s
IsGenerated-IsWinnable generation_id level s h =
    let b = h.published.board in
    let secret = get_or h.candidates h.index [] in
    let fresh = b.state_is in
    let is_secret : s.secret_word ≡ secret = ap (λ (t : HackState). t.secret_word) fresh in
    let size =
      (All-In (IsWord (level_word_length level)) secret h.candidates h.choice.are_words
        h.secret_in).size_is in
    let is_size : s.word_length ≡ level_word_length level =
      ap (λ (t : HackState). t.word_length) fresh in
    let active : IsActive s = ap (λ (t : HackState). t.solved || t.failed) fresh in
    let (w, where_is, known) = All-In _ secret h.candidates b.holds_candidates h.secret_in in
    let sizes : HasLength s (record { text = secret }) = record {
      of_candidate = size ∙ sym is_size;
      of_secret = ap length is_secret ∙ size ∙ sym is_size;
    } in
    let won =
      (apply_guess_wins_iff s w.id (record { text = secret }) active known sizes).1
        (sym is_secret) in
    elim where_is [
      | inl at_left ↦ record {
        column = b.left;
        word = w;
        on_board = rw b.columns_are (inl refl);
        in_column = at_left;
        wins = won;
      }
      | inr at_right ↦ record {
        column = b.right;
        word = w;
        on_board = rw b.columns_are (inr (inl refl));
        in_column = at_right;
        wins = won;
      }
    ]

-- Every board that is generated shows a word whose guess wins the game at once.
pub generate_board-IsWinnable :
    (sha256 : Bytes → Bytes) (generation_id : Bytes) (level : ℤ)
    (words : Option (ℕ → ℕ → List Bytes)) (r : Random) (s : HackState)
    → (generate_board sha256 generation_id level words r).0 ≡ some s
    → IsWinnable s
generate_board-IsWinnable sha256 generation_id level words r s drawn =
    IsGenerated-IsWinnable generation_id level s
      (generate_board_publishes sha256 generation_id level words r s drawn)
