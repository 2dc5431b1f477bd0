-- ===== src/Dict.antt =====
-- Python's `dict`: entries in insertion order. A write of a key that is there keeps its place.
pub mod Laws
pub mod Building
use glyff.Prelude.{Option, none, some, List, [], ◌∷◌, map, Eq, ◌==◌, if◌then◌else◌, Bool, is_some}

abbrev pub Dict {ℓ κ} : Type ℓ → Type κ → Type (ℓ ⊔ κ)
Dict K V = List (K × V)

module _ {ℓ κ} {K : Type ℓ} {V : Type κ} where
  -- list(d)
  abbrev pub keys : Dict K V → List K
  keys d = map (λ e. e.0) d

module _ {ℓ κ} {K : Type ℓ} {V : Type κ} ⦃e : Eq K⦄ where
  -- d.get(k)
  unfoldable pub get : Dict K V → K → Option V
  get [] k = none
  get ((j, v) ∷ d) k = if j == k then some v else get d k

  -- k in d
  abbrev pub has : Dict K V → K → Bool
  has d k = is_some (get d k)

  -- d[k] = v
  unfoldable pub set : Dict K V → K → V → Dict K V
  set [] k v = (k, v) ∷ []
  set ((j, w) ∷ d) k v = if j == k then (j, v) ∷ d else (j, w) ∷ set d k v

  -- d.pop(k, None), del d[k]
  unfoldable pub pop : Dict K V → K → Dict K V
  pop [] k = []
  pop ((j, v) ∷ d) k = let rest = pop d k in if j == k then rest else (j, v) ∷ rest

  abbrev pub set_all : Dict K V → List (K × V) → Dict K V
  set_all d [] = d
  set_all d ((k, v) ∷ es) = set_all (set d k v) es

  -- {k: v for k, v in es}
  abbrev pub from_entries : List (K × V) → Dict K V
  from_entries es = set_all [] es
