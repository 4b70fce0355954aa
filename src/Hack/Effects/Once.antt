-- ===== src/Hack/Effects/Once.antt =====
-- A pattern is consumed once, and a refusal changes nothing.
use fallout_terminal.Common.{
  true, false, ◌||◌, some, List, [], ◌∷◌, Bytes, equal_iff, ◌≡◌, ◌⊎◌, inl, inr, arith, Option-cases,
  Bool-cases,
}
use fallout_terminal.Domain.Hack.{HackPattern, HackState}
use fallout_terminal.Hack.Effects.{is_used, mark_used, find_pattern, pattern_effect, apply_pattern}
use fallout_terminal.Hack.PatternId.{pattern_id}
use fallout_terminal.Hack.Play.Guess.{IsActive}
use fallout_terminal.Hack.Random.{Random}
use fallout_terminal.Hack.Scan.{discover_pattern_spans}

pub find_pattern-id :
    (id : Bytes) (ps : List HackPattern) (p : HackPattern)
    → find_pattern id ps ≡ some p
    → pattern_id p.identity ≡ id
unfolding find_pattern
find_pattern-id id [] p e = cc
find_pattern-id id (q ∷ ps) p e =
    ground (arith, equal_iff (pattern_id q.identity) id, find_pattern-id id ps p)

-- The pattern that a request names and that may be consumed.
pub record Accepts (s : HackState) (id : Bytes) (p : HackPattern) : Type 0 where
  pub active : IsActive s
  pub named : find_pattern id (discover_pattern_spans s.generation_id s.columns) ≡ some p
  pub unused : is_used p.identity s.used_patterns ≡ false

abbrev pub consume : HackState → HackPattern → Random → HackState × Random
consume s p r = pattern_effect (mark_used s p.identity) r

-- A request is refused, and nothing changes, or it consumes a pattern that was not yet used.
pub apply_pattern-cases :
    (s : HackState) (id : Bytes) (r : Random)
    → (apply_pattern s id r ≡ (s, r, false))
      ⊎ ((p : HackPattern) × Accepts s id p
          × (apply_pattern s id r ≡ ((consume s p r).0, (consume s p r).1, true)))
unfolding apply_pattern
apply_pattern-cases s id r = elim (Bool-cases (s.solved || s.failed)) [
  | inl over ↦ inl (rw over)
  | inr active ↦
      elim (Option-cases (find_pattern id (discover_pattern_spans s.generation_id s.columns))) [
        | inl missing ↦ inl (rw (active, missing, apply_pattern))
        | inr (p, named) ↦ elim (Bool-cases (is_used p.identity s.used_patterns)) [
          | inl old ↦ inl (rw (active, named, apply_pattern) (rw old))
          | inr fresh ↦ inr (
            p,
            record { active = active; named = named; unused = fresh },
            rw (active, named, apply_pattern) (rw fresh),
          )
        ]
      ]
]

-- A request for a pattern that is not accepted leaves the game and the random source as they were.
pub apply_pattern_refused :
    (s : HackState) (id : Bytes) (r : Random)
    → (apply_pattern s id r).2 ≡ false
    → apply_pattern s id r ≡ (s, r, false)
apply_pattern_refused s id r h = elim (apply_pattern-cases s id r) [
  | inl same ↦ same
  | inr (p, accepts, e) ↦ ground (arith, e)
]
