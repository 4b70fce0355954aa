-- ===== src/Tests/BoardRun.antt =====
-- A board that is generated.
use fallout_terminal.Common.{Bool, true, false, Option, none, some, pos, ◌≡◌, refl, arith}
use fallout_terminal.Domain.Hack.{HackState}
use fallout_terminal.Hack.Board.Winnable.{IsWinnable, generate_board-IsWinnable}
use fallout_terminal.Hack.Board.Boards.{IsGenerated, generate_board_publishes}
use fallout_terminal.Hack.Board.{generate_board}
use fallout_terminal.Common.{
  split, utf8, equal, insert, decimal, hex_address, hex_text, encode_rune, index_byte,
}
use fallout_terminal.Hack.Attempt.{◌>>=◌, draw, succeed, give_up, or_else}
use fallout_terminal.Common.{is_blank}
use fallout_terminal.Hack.Board.{level_word_count, level_word_length, choose_candidates}
use fallout_terminal.Hack.Builder.{
  place, new_column_builder, any_used, can_place, mark, overwrite, place_at, put_word, random_start,
}
use fallout_terminal.Hack.Camouflage.{
  add_row, classify_final_board, interval_of, publishable, row_has_alphabetic_interrupted_span,
  row_intervals_overlap_pairwise,
}
use fallout_terminal.Hack.Finish.{fill, finish, generate_addresses}
use fallout_terminal.Hack.Generate.{
  board_tries, generate_board_attempt, on_builder, on_either, place_candidates, place_decoys,
  place_interrupted_candidate_span, place_patterns,
}
use fallout_terminal.Hack.Play.{contains_word}
use fallout_terminal.Hack.Random.{safe_intn, try_random, choose, first_from, reduce}
use fallout_terminal.Hack.Scan.{
  closer_of, column_spans, discover_pattern_spans, is_ascii_alpha, row_spans, span_after,
}
use fallout_terminal.Hack.Spans.{
  can_place_pattern, draw_filler, is_free, place_delimiter_decoy, place_interrupted_span,
  place_pattern, put_pattern, surrounds,
}
use fallout_terminal.Hack.WordBank.{
  normalize_candidates, pick_words, bucket_onto, is_candidate, normalize_onto, pick_from, seen_in,
  supplement_candidates, to_upper, upper_byte, word_bucket,
}
use fallout_terminal.Tests.Samples.{mixing, generation, small}

abbrev drawn_board : Option HackState
drawn_board = (generate_board (λ text. text) generation (pos 2) none mixing).0

abbrev taken : Option HackState → HackState
taken none = small
taken (some s) = s

abbrev is_some : Option HackState → Bool
is_some none = false
is_some (some s) = true

taken-some : (o : Option HackState) → is_some o ≡ true → o ≡ some (taken o)
taken-some none h = ground (arith, h)
taken-some (some s) h = refl

board_drawn : is_some drawn_board ≡ true
unfolding generate_board is_blank ◌>>=◌ normalize_candidates pick_words level_word_count
    level_word_length split utf8 equal safe_intn draw board_tries place try_random
    new_column_builder succeed insert decimal hex_address hex_text encode_rune index_byte give_up
    or_else choose_candidates any_used can_place mark overwrite place_at put_word random_start
    add_row classify_final_board interval_of publishable row_has_alphabetic_interrupted_span
    row_intervals_overlap_pairwise fill finish generate_addresses generate_board_attempt on_builder
    on_either place_candidates place_decoys place_interrupted_candidate_span place_patterns
    contains_word choose first_from reduce closer_of column_spans discover_pattern_spans
    is_ascii_alpha row_spans span_after can_place_pattern draw_filler is_free place_delimiter_decoy
    place_interrupted_span place_pattern put_pattern surrounds bucket_onto is_candidate
    normalize_onto pick_from seen_in supplement_candidates to_upper upper_byte word_bucket
board_drawn = refl

generate_board_publishes_example : IsGenerated generation (pos 2) (taken drawn_board)
generate_board_publishes_example =
    generate_board_publishes (λ text. text) generation (pos 2) none mixing (taken drawn_board)
      (taken-some drawn_board board_drawn)

generate_board-IsWinnable_example : IsWinnable (taken drawn_board)
generate_board-IsWinnable_example =
    generate_board-IsWinnable (λ text. text) generation (pos 2) none mixing (taken drawn_board)
      (taken-some drawn_board board_drawn)
