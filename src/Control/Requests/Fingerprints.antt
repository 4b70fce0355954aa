-- ===== src/Control/Requests/Fingerprints.antt =====
-- The fingerprints of requests tell their fields apart.
use fallout_terminal.Common.{
  ℕ, List, [], ◌∷◌, ◌++◌, Bytes, All, length, decimal, decimal-HasNoColon, decimal_injective, ◌≡◌,
  ◌≢◌, refl, sym, arith, ap, ◌∙◌, ◌==◌, if◌then◌else◌, utf8, equal,
}
use fallout_terminal.Control.Commands.{
  PlayerCommand, RuntimeCommandKind, select_character, navigate, guess, activate_pattern,
  presentation, kind_text, action_fields, player_action_fingerprint,
}
use fallout_terminal.Control.Requests.{printed, fingerprint_fields}

-- Two texts with the same first colon.
split_at :
    (c : ℕ) (xs ys s t : Bytes)
    → All (λ d. d ≢ c) xs
    → All (λ d. d ≢ c) ys
    → xs ++ (c ∷ s) ≡ ys ++ (c ∷ t)
    → (xs ≡ ys) × (s ≡ t)
split_at c [] [] s t hx hy e = (refl, cc)
split_at c [] (y ∷ ys) s t hx hy e = absurd (hy.0 (cc))
split_at c (x ∷ xs) [] s t hx hy e = absurd (hx.0 (cc))
split_at c (x ∷ xs) (y ∷ ys) s t hx hy e =
    let (same, rest) = split_at c xs ys s t hx.1 hy.1 (cc) in (cc, rest)

-- Two texts with fronts of the same length.
split_by : (xs ys s t : Bytes) → length xs ≡ length ys → xs ++ s ≡ ys ++ t → (xs ≡ ys) × (s ≡ t)
split_by [] [] s t same e = (refl, e)
split_by [] (y ∷ ys) s t same e = absurd (omega arith)
split_by (x ∷ xs) [] s t same e = absurd (omega arith)
split_by (x ∷ xs) (y ∷ ys) s t same e =
    let (front, rest) = split_by xs ys s t (omega arith) (cc) in (cc, rest)

append_not_empty : (xs : Bytes) (c : ℕ) (s : Bytes) → xs ++ (c ∷ s) ≢ []
append_not_empty [] c s e = absurd (cc)
append_not_empty (x ∷ xs) c s e = absurd (cc)

printed_injective : (a b s t : Bytes) → printed a s ≡ printed b t → (a ≡ b) × (s ≡ t)
printed_injective a b s t e =
    let (counts, texts) =
      split_at b':' (decimal (length a)) (decimal (length b)) (a ++ (b';' ∷ s)) (b ++ (b';' ∷ t))
        (decimal-HasNoColon (length a)) (decimal-HasNoColon (length b)) e in
    let (same, rest) =
      split_by a b (b';' ∷ s) (b';' ∷ t) (decimal_injective (length a) (length b) counts) texts in
    (same, cc)

pub fingerprint_fields_injective :
    (a b : List Bytes) → fingerprint_fields a ≡ fingerprint_fields b → a ≡ b
unfolding fingerprint_fields
fingerprint_fields_injective [] [] e = refl
fingerprint_fields_injective [] (y ∷ ys) e =
    absurd (append_not_empty (decimal (length y)) b':' _ (sym e))
fingerprint_fields_injective (x ∷ xs) [] e = absurd (append_not_empty (decimal (length x)) b':' _ e)
fingerprint_fields_injective (x ∷ xs) (y ∷ ys) e =
    let (same, rest) = printed_injective x y (fingerprint_fields xs) (fingerprint_fields ys) e in
    let more = fingerprint_fields_injective xs ys rest in cc

-- The kind of a command from the first byte of its text.
abbrev kind_at : Bytes → RuntimeCommandKind
kind_at [] = presentation
kind_at (c ∷ cs) =
    if c == b's'
    then select_character
    else if c == b'n'
    then navigate
    else if c == b'g'
    then guess
    else if c == b'a'
    then activate_pattern
    else presentation

kind_at-kind_text : (k : RuntimeCommandKind) → kind_at (kind_text k) ≡ k
unfolding utf8
kind_at-kind_text select_character = refl
kind_at-kind_text navigate = refl
kind_at-kind_text guess = refl
kind_at-kind_text activate_pattern = refl
kind_at-kind_text presentation = refl

kind_text_injective : (j k : RuntimeCommandKind) → kind_text j ≡ kind_text k → j ≡ k
kind_text_injective j k e = sym (kind_at-kind_text j) ∙ ap kind_at e ∙ kind_at-kind_text k

-- Commands with the same printed fields differ in their request IDs at most.
action_fields_injective :
    (a b : PlayerCommand)
    → action_fields a ≡ action_fields b
    → a.payload_fingerprint ≡ b.payload_fingerprint
    → record a { request_id = b.request_id } ≡ b
action_fields_injective a b e same =
    let kinds : kind_text a.kind ≡ kind_text b.kind = cc in
    let kind = kind_text_injective a.kind b.kind kinds in
    let pages : decimal a.presentation.page_index ≡ decimal b.presentation.page_index = cc in
    let page = decimal_injective a.presentation.page_index b.presentation.page_index pages in cc

-- Two commands of players that bring no fingerprint of their own and have the same one differ in
-- their request IDs at most, whatever bytes their fields hold.
pub player_action_fingerprint_injective :
    (a b : PlayerCommand)
    → a.payload_fingerprint ≡ []
    → b.payload_fingerprint ≡ []
    → player_action_fingerprint a ≡ player_action_fingerprint b
    → record a { request_id = b.request_id } ≡ b
unfolding player_action_fingerprint equal
player_action_fingerprint_injective a b none_a none_b e =
    action_fields_injective a b
      (fingerprint_fields_injective (action_fields a) (action_fields b)
        (ground (arith, none_a, none_b, e)))
      (none_a ∙ sym none_b)
