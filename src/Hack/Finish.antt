-- ===== src/Hack/Finish.antt =====
-- internal/hack/hack.go: `finish` and `generateAddresses`.
pub mod Laws
use fallout_terminal.Common.{
  ℕ, zero, suc, ◌+◌, ◌-◌, ◌*◌, ◌/◌, ◌%◌, Bool, true, false, not, ◌&&◌, Option, none, some, List, [],
  ◌∷◌, ◌++◌, Bytes, leb, ltb, ◌==◌, ◌||◌, if◌then◌else◌, length, get_or, utf8, hex_address,
}
use fallout_terminal.Domain.Hack.{HackWord, HackColumn}
use fallout_terminal.Hack.Random.{Random, safe_intn, first_from, choose}
use fallout_terminal.Hack.Scan.{board_row_width}
use fallout_terminal.Hack.Builder.{Builder, filler_pool, board_rows, overwrite, any_used, mark}

-- The loop of `finish`: filler where nothing was placed.
unfoldable pub fill : Bytes → List Bool → Random → Bytes × Random
fill [] used r = ([], r)
fill (c ∷ cs) [] r = (c ∷ cs, r)
fill (c ∷ cs) (u ∷ us) r =
    let drawn = safe_intn r (length filler_pool) in
    let kept : ℕ × Random = if u then (c, r) else (get_or filler_pool drawn.0 0, drawn.1) in
    let later = fill cs us kept.1 in (kept.0 ∷ later.0, later.1)

addresses_from : ℕ → ℕ → ℕ → List Bytes
addresses_from zero address step = []
addresses_from (suc n) address step =
    hex_address (address % 0x10000) ∷ addresses_from n (address + step) step

unfoldable pub generate_addresses : ℕ → Random → List Bytes × Random
unfolding addresses_from
generate_addresses count r =
    let base = safe_intn r 0x4000 in
    let choice = safe_intn base.1 4 in
    let step = get_or (0x0c ∷ 0x10 ∷ 0x14 ∷ 0x18 ∷ []) choice.0 0 in
    (addresses_from count (base.0 + 0xc000) step, choice.1)

unfoldable pub finish : Builder → Random → HackColumn × Random
unfolding fill generate_addresses
finish b r =
    let filled = fill b.chars b.used r in
    let addressed = generate_addresses board_rows filled.1 in
    (record { addresses = addressed.0; text = filled.0; words = b.words }, addressed.1)
