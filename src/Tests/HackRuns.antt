-- ===== src/Tests/HackRuns.antt =====
-- The hacking game on concrete inputs.
use fallout_terminal.Common.{
  ℕ, true, false, none, some, [], ◌∷◌, map, Bytes, IsBytes, In, ◌≡◌, ◌≢◌, ◌↔◌, ◌⊎◌, refl, arith,
  encode_rune, equal, lookup, insert,
}
use fallout_terminal.Hack.Builder.Layout.{IsLaidOut}
use fallout_terminal.Hack.Builder.Words.{put_word-IsLaidOut, new_id}
use fallout_terminal.Hack.Builder.{Builder, new_column_builder, can_place, put_word}
use fallout_terminal.Hack.Effects.{apply_pattern, find_pattern}
use fallout_terminal.Hack.Game.Endings.{
  play_over, HasLength, IsWrong, apply_guess_wins_iff, play_loses,
}
use fallout_terminal.Hack.Game.{IsPlayable, Game, guess, activate, force, play, play-IsPlayable}
use fallout_terminal.Hack.Generate.Final.{new_column_builder-IsLaidOut}
use fallout_terminal.Hack.PatternId.Injective.{pattern_id_injective}
use fallout_terminal.Hack.PatternId.{pattern_id}
use fallout_terminal.Hack.Play.Guess.{Missed, Won, IsFiller, apply_guess_word, apply_guess-IsFiller}
use fallout_terminal.Hack.Play.{apply_guess, count_matches}
use fallout_terminal.Hack.Scan.Board.{IsPattern, discover_pattern_spans_iff}
use fallout_terminal.Hack.Scan.{discover_pattern_spans}
use fallout_terminal.Hack.WordBank.Laws.{IsWord, IsChoice}
use fallout_terminal.Hack.WordBank.Taken.{IsNormalized, normalize_candidates-IsNormalized}
use fallout_terminal.Hack.WordBank.{normalize_candidates}
use fallout_terminal.Tests.Samples.{
  mixing, generation, able, bark, able_id, bark_id, candidate, small, small-IsPlayable, brackets,
  brackets_id, bracket_pattern,
}
use fallout_terminal.Hack.Scan.{is_ascii_alpha}

discover_pattern_spans_iff_example :
    In bracket_pattern (discover_pattern_spans generation small.columns)
    ↔ IsPattern generation small.columns bracket_pattern
discover_pattern_spans_iff_example =
    discover_pattern_spans_iff generation small.columns bracket_pattern

generation-IsBytes : IsBytes generation
generation-IsBytes = (omega arith, (omega arith, tt))

unknown_refused : (apply_pattern small able mixing).2 ≡ false
unfolding apply_pattern find_pattern discover_pattern_spans equal pattern_id
unknown_refused = refl

known_bark : lookup bark_id small.words_by_id ≡ some (candidate bark)
unfolding lookup equal
known_bark = refl

abbrev small_game : Game
small_game = record { state = small; random = mixing }

small_game-IsPlayable : IsPlayable small_game.state
small_game-IsPlayable = small-IsPlayable

play-IsPlayable_example :
    IsPlayable
      (play small_game (guess bark_id ∷ activate brackets_id ∷ force ∷ guess able_id ∷ [])).state
play-IsPlayable_example =
    play-IsPlayable small_game (guess bark_id ∷ activate brackets_id ∷ force ∷ guess able_id ∷ [])
      small-IsPlayable

sizes : HasLength small (candidate bark)
sizes = record { of_candidate = refl; of_secret = refl }

apply_guess_wins_iff_example : ((apply_guess small bark_id).solved ≡ true) ↔ (bark ≡ able)
apply_guess_wins_iff_example =
    apply_guess_wins_iff small bark_id (candidate bark) refl known_bark sizes

bark_differs : bark ≢ able
bark_differs e = ground (arith, e)

bark-IsWrong : IsWrong small bark_id
bark-IsWrong = (candidate bark, known_bark, sizes, bark_differs)

play_loses_example :
    (play small_game (map guess (bark_id ∷ bark_id ∷ bark_id ∷ bark_id ∷ []))).state.failed ≡ true
play_loses_example =
    play_loses small_game (bark_id ∷ bark_id ∷ bark_id ∷ bark_id ∷ []) small-IsPlayable refl
      (bark-IsWrong, (bark-IsWrong, (bark-IsWrong, (bark-IsWrong, tt)))) (omega arith)

abbrev won_game : Game
won_game = record { state = record small { solved = true }; random = mixing }

play_over_example : play won_game (guess bark_id ∷ activate brackets_id ∷ force ∷ []) ≡ won_game
play_over_example = play_over won_game (guess bark_id ∷ activate brackets_id ∷ force ∷ []) refl

apply_guess_word_example :
    ((count_matches bark able ≡ 4) × Won small (apply_guess small bark_id) bark)
    ⊎ ((count_matches bark able ≢ 4)
        × Missed small (apply_guess small bark_id) bark (count_matches bark able))
apply_guess_word_example = apply_guess_word small bark_id (candidate bark) refl known_bark

-- The place of `!`.
abbrev last_place : Bytes
last_place = b'0' ∷ b':' ∷ b'1' ∷ b'1' ∷ []

no_candidate : lookup last_place small.words_by_id ≡ none
unfolding lookup equal
no_candidate = refl

apply_guess-IsFiller_example :
    (apply_guess small last_place ≡ small)
    ⊎ ((shown : ℕ) × IsFiller small last_place shown
        × Missed small (apply_guess small last_place) (encode_rune shown) 0)
apply_guess-IsFiller_example = apply_guess-IsFiller small last_place refl no_candidate

pattern_id_injective_example : brackets ≡ brackets
pattern_id_injective_example =
    pattern_id_injective brackets brackets generation-IsBytes generation-IsBytes refl

normalize_candidates-IsNormalized_example :
    IsNormalized
      (able ∷ able_id ∷ bark ∷ able ∷ [])
      4
      2
      (normalize_candidates (able ∷ able_id ∷ bark ∷ able ∷ []) 4 2)
normalize_candidates-IsNormalized_example =
    normalize_candidates-IsNormalized (able ∷ able_id ∷ bark ∷ able ∷ []) 4 2 (omega arith)

able-IsWord : IsWord 4 able
unfolding fallout_terminal.Hack.Scan.is_ascii_alpha
able-IsWord = record { size_is = refl; letters = (refl, (refl, (refl, (refl, tt)))) }

bark-IsWord : IsWord 4 bark
unfolding fallout_terminal.Hack.Scan.is_ascii_alpha
bark-IsWord = record { size_is = refl; letters = (refl, (refl, (refl, (refl, tt)))) }

able-IsChoice : IsChoice 4 3 (able ∷ [])
able-IsChoice = record {
  are_words = (able-IsWord, tt);
  distinct = ((λ m. elim m [ ]), tt);
  at_most = omega arith;
}

abbrev empty_column : Builder
empty_column = new_column_builder (b'g' ∷ [])

room : can_place empty_column 5 4 ≡ true
unfolding can_place new_column_builder
room = refl

put_word-IsLaidOut_example :
    IsLaidOut (insert (new_id empty_column) (candidate able) []) (put_word empty_column able 5)
put_word-IsLaidOut_example =
    put_word-IsLaidOut [] empty_column able 5 room (new_column_builder-IsLaidOut (b'g' ∷ []))
