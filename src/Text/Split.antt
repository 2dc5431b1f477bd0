-- ===== src/Text/Split.antt =====
-- str.partition, str.split and str.join, at one character.
pub mod Laws
use glyff.Prelude.{
  ℕ, Bool, true, false, List, [], ◌∷◌, ◌++◌, nat_beq, if◌then◌else◌, Text, ◌≡◌, refl, arith, ◌&&◌,
  nat_beq_iff, not, ap,
}

-- head, whether the separator was found, tail
unfoldable pub partition : ℕ → Text → Text × Bool × Text
partition sep [] = ([], false, [])
partition sep (c ∷ cs) =
    let (head, found, tail) = partition sep cs in
    if nat_beq c sep then ([], true, cs) else (c ∷ head, found, tail)

abbrev pub cons_head : ℕ → List Text → List Text
cons_head c [] = (c ∷ []) ∷ []
cons_head c (w ∷ ws) = (c ∷ w) ∷ ws

unfoldable pub split : ℕ → Text → List Text
split sep [] = [] ∷ []
split sep (c ∷ cs) =
    let rest = split sep cs in if nat_beq c sep then [] ∷ rest else cons_head c rest

unfoldable pub join : ℕ → List Text → Text
join sep [] = []
join sep (w ∷ []) = w
join sep (w ∷ v ∷ ws) = w ++ sep ∷ join sep (v ∷ ws)
