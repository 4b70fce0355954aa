-- ===== src/Hack/Finish/Laws.antt =====
-- `finish` keeps what is placed, fills the rest, and gives each row its address.
use fallout_terminal.Common.{
  ℕ, zero, suc, ◌+◌, Bool, true, false, List, [], ◌∷◌, Bytes, length, get_elem?, ◌≡◌, refl, ap,
  arith,
}
use fallout_terminal.Hack.Builder.Extends.{IsTaken}
use fallout_terminal.Hack.Finish.{fill, addresses_from, generate_addresses}
use fallout_terminal.Hack.Random.{Random}

pub length-fill : (cs : Bytes) (us : List Bool) (r : Random) → length (fill cs us r).0 ≡ length cs
unfolding fill
length-fill [] us r = refl
length-fill (c ∷ cs) [] r = refl
length-fill (c ∷ cs) (true ∷ us) r = ap suc (length-fill cs us _)
length-fill (c ∷ cs) (false ∷ us) r = ap suc (length-fill cs us _)

-- A taken place keeps its byte.
pub fill-IsTaken :
    (cs : Bytes) (us : List Bool) (r : Random) (i : ℕ)
    → IsTaken us i
    → get_elem? (fill cs us r).0 i ≡ get_elem? cs i
unfolding fill
fill-IsTaken [] us r i t = refl
fill-IsTaken (c ∷ cs) [] r i t = refl
fill-IsTaken (c ∷ cs) (true ∷ us) r zero t = refl
fill-IsTaken (c ∷ cs) (false ∷ us) r zero t = ground (arith, t)
fill-IsTaken (c ∷ cs) (true ∷ us) r (suc i) t = fill-IsTaken cs us _ i t
fill-IsTaken (c ∷ cs) (false ∷ us) r (suc i) t = fill-IsTaken cs us _ i t

length-addresses_from : (n address step : ℕ) → length (addresses_from n address step) ≡ n
unfolding addresses_from
length-addresses_from zero address step = refl
length-addresses_from (suc n) address step = ap suc (length-addresses_from n (address + step) step)

pub length-generate_addresses : (n : ℕ) (r : Random) → length (generate_addresses n r).0 ≡ n
unfolding generate_addresses
length-generate_addresses n r = length-addresses_from n _ _
