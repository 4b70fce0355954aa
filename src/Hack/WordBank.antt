-- ===== src/Hack/WordBank.antt =====
-- internal/hack/wordbank.go, and the choice of candidates in internal/hack/hack.go.
pub mod Laws
pub mod Taken
pub mod Picks
use fallout_terminal.Common.{
  ℕ, zero, suc, ◌+◌, ◌-◌, Bool, true, false, not, ◌&&◌, ◌||◌, Option, none, some, List, [], ◌∷◌,
  ◌++◌, map, Bytes, leb, ◌==◌, if◌then◌else◌, length, get_or, remove_at, any, equal, utf8,
}
use fallout_terminal.Hack.Random.{Random, safe_intn}
use fallout_terminal.Hack.Scan.{is_ascii_alpha}
use fallout_terminal.Hack.Vocabulary.{vocabulary}

unfoldable pub upper_byte : ℕ → ℕ
upper_byte c = if leb b'a' c && leb c b'z' then c - 32 else c

-- `strings.ToUpper`, as far as ASCII letters come out: of all other characters, only U+0131 and
-- U+017F have an ASCII letter (I, S) for their upper case. The rest stay non-ASCII, and stay as
-- they are here.
unfoldable pub to_upper : Bytes → Bytes
unfolding upper_byte
to_upper [] = []
to_upper (c ∷ []) = upper_byte c ∷ []
to_upper (c ∷ d ∷ rest) =
    let plain = upper_byte c ∷ to_upper (d ∷ rest) in
    let folded = to_upper rest in
    if c == 0xc4 && d == 0xb1
    then b'I' ∷ folded
    else if c == 0xc5 && d == 0xbf
    then b'S' ∷ folded
    else plain

-- `_, ok := seen[word]`, where `seen` holds the words of a list.
unfoldable pub seen_in : Bytes → List Bytes → Bool
seen_in word words = any (equal word) words

-- The bucket of the words of one length, each kept the first time.
unfoldable pub bucket_onto : List Bytes → ℕ → List Bytes → List Bytes
unfolding to_upper seen_in
bucket_onto kept length_ [] = kept
bucket_onto kept length_ (raw ∷ raws) =
    let word = to_upper raw in
    bucket_onto
      (if length word == length_ && not (seen_in word kept) then kept ++ (word ∷ []) else kept)
      length_ raws

-- `buildWordBuckets(words)[length]`: only the lengths from 4 to 8 have a bucket.
unfoldable pub word_bucket : List Bytes → ℕ → List Bytes
unfolding bucket_onto
word_bucket words length_ =
    if leb 4 length_ && leb length_ 8 then bucket_onto [] length_ words else []

-- The loop of `PickWords`, on the `count` rounds that are left at most.
unfoldable pub pick_from : ℕ → List Bytes → Random → List Bytes × Random
pick_from zero pool r = ([], r)
pick_from (suc count) [] r = ([], r)
pick_from (suc count) (word ∷ pool) r =
    let drawn = safe_intn r (length (word ∷ pool)) in
    let later = pick_from count (remove_at drawn.0 (word ∷ pool)) drawn.1 in
    (get_or (word ∷ pool) drawn.0 [] ∷ later.0, later.1)

-- `WordBank.PickWords`.
unfoldable pub pick_words : ℕ → ℕ → Random → List Bytes × Random
unfolding pick_from word_bucket
pick_words length_ count r = pick_from count (word_bucket vocabulary length_) r

-- The test of `normalizeCandidates` on one word.
unfoldable pub is_candidate : ℕ → Bytes → Bool
unfolding is_ascii_alpha
is_candidate length_ word = length word == length_ && not (any (λ c. not (is_ascii_alpha c)) word)

-- The loop of `normalizeCandidates` behind the words in `result`.
unfoldable pub normalize_onto : List Bytes → ℕ → ℕ → List Bytes → List Bytes
unfolding to_upper is_candidate seen_in
normalize_onto result length_ count [] = result
normalize_onto result length_ count (raw ∷ raws) =
    let word = to_upper raw in
    let longer = result ++ (word ∷ []) in
    let skipped = normalize_onto result length_ count raws in
    let rest = normalize_onto longer length_ count raws in
    if not (is_candidate length_ word) || seen_in word result
    then skipped
    else if length longer == count
    then longer
    else rest

unfoldable pub normalize_candidates : List Bytes → ℕ → ℕ → List Bytes
unfolding normalize_onto
normalize_candidates input length_ count = normalize_onto [] length_ count input

-- `supplementCandidates`, whose result starts from the candidates at hand.
unfoldable pub supplement_candidates : List Bytes → List Bytes → ℕ → List Bytes
unfolding seen_in
supplement_candidates result [] count = result
supplement_candidates result (word ∷ fallback) count =
    let added =
      supplement_candidates (if seen_in word result then result else result ++ (word ∷ [])) fallback
        count in
    if length result == count then result else added
