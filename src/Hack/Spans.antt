-- ===== src/Hack/Spans.antt =====
-- internal/hack/hack.go: the bracket spans and decoys that a `columnBuilder` places.
pub mod Keep
use fallout_terminal.Common.{
  ℕ, zero, suc, ◌+◌, ◌-◌, ◌*◌, ◌/◌, ◌%◌, Bool, true, false, not, ◌&&◌, Option, none, some, List, [],
  ◌∷◌, ◌++◌, Bytes, leb, ltb, ◌==◌, ◌||◌, if◌then◌else◌, length, get_or, utf8, hex_address,
}
use fallout_terminal.Domain.Hack.{HackWord, HackColumn}
use fallout_terminal.Hack.Random.{Random, safe_intn, first_from, choose}
use fallout_terminal.Hack.Scan.{board_row_width}
use fallout_terminal.Hack.Builder.{Builder, filler_pool, board_rows, overwrite, any_used, mark}

-- Neither neighbour of the word is off the board, in another row or taken.
unfoldable pub surrounds : Builder → HackWord → Bool
surrounds b word =
    let end = word.start + word.length in
    not (word.start == 0)
    && ltb end (length b.used)
    && (word.start - 1) / board_row_width == end / board_row_width
    && not (get_or b.used (word.start - 1) true)
    && not (get_or b.used end true)

abbrev put : Builder → ℕ → ℕ → Builder
put b index c = record b {
  chars = overwrite b.chars index (c ∷ []);
  used = overwrite b.used index (true ∷ []);
}

surround : Bytes → Builder → HackWord → Builder
unfolding overwrite
surround pair b word =
    put (put b (word.start - 1) (get_or pair 0 0)) (word.start + word.length) (get_or pair 1 0)

-- `builder.words[(wordOffset+index)%len(builder.words)]`.
abbrev word_at : Builder → ℕ → ℕ → HackWord
word_at b offset index =
    get_or b.words ((offset + index) % length b.words) (record { id = []; start = 0; length = 0 })

surround_first : Bytes → Builder → ℕ → Option Builder
unfolding first_from surrounds surround
surround_first pair b offset =
    elim (first_from (length b.words) 0 (λ index. surrounds b (word_at b offset index))) [
      | none ↦ none
      | some index ↦ some (surround pair b (word_at b offset index))
    ]

-- `placeInterruptedSpan`.
unfoldable pub place_interrupted_span : Bytes → Builder → Random → Option Builder × Random
unfolding surround_first
place_interrupted_span pair b r =
    let drawn = safe_intn r (length b.words) in
    if not (length pair == 2) || length b.words == 0
    then (none, r)
    else (surround_first pair b drawn.0, drawn.1)

unfoldable pub can_place_pattern : Builder → ℕ → ℕ → Bool
unfolding any_used
can_place_pattern b start length_ =
    leb 2 length_
    && leb (start + length_) (length b.used)
    && start / board_row_width == (start + length_ - 1) / board_row_width
    && not (any_used b.used start (start + length_))

-- `n` draws from the filler pool.
unfoldable pub draw_filler : ℕ → Random → Bytes × Random
draw_filler zero r = ([], r)
draw_filler (suc n) r =
    let drawn = safe_intn r (length filler_pool) in
    let later = draw_filler n drawn.1 in (get_or filler_pool drawn.0 0 ∷ later.0, later.1)

-- `writePattern`, with the interior drawn.
unfoldable pub put_pattern : Builder → ℕ → Bytes → Bytes → Builder
unfolding mark
put_pattern b start pair interior = record b {
  chars = overwrite b.chars start (get_or pair 0 0 ∷ (interior ++ (get_or pair 1 0 ∷ [])));
  used = mark b.used start (length interior + 2);
}

-- Candidate number `candidate` of the starts, row by row.
abbrev pattern_start : ℕ → ℕ → ℕ
pattern_start starts_per_row candidate =
    candidate / starts_per_row * board_row_width + candidate % starts_per_row

-- `placePattern`. The second search of the source, over rows and columns, meets the starts in the
-- order of their candidate numbers.
unfoldable pub place_pattern : Bytes → ℕ → Builder → Random → Option Builder × Random
unfolding choose can_place_pattern draw_filler put_pattern
place_pattern pair interior_length b r =
    let span_length = interior_length + 2 in
    let starts_per_row = board_row_width - span_length + 1 in
    let found =
      choose (board_rows * starts_per_row)
        (λ candidate. can_place_pattern b (pattern_start starts_per_row candidate) span_length) r in
    if not (length pair == 2) || ltb board_row_width span_length then (none, r) else elim found.0 [
      | none ↦ (none, found.1)
      | some candidate ↦
          let filler = draw_filler interior_length found.1 in
          (some (put_pattern b (pattern_start starts_per_row candidate) pair filler.0), filler.1)
    ]

unfoldable pub is_free : Builder → ℕ → Bool
is_free b index = not (get_or b.used index true)

-- `placeDelimiterDecoy`.
unfoldable pub place_delimiter_decoy : ℕ → Builder → Random → Option Builder × Random
unfolding choose is_free overwrite
place_delimiter_decoy delimiter b r =
    let found = choose (length b.used) (is_free b) r in
    (elim found.0 [ none ↦ none | some index ↦ some (put b index delimiter) ], found.1)
