-- ===== src/Dict/Laws.antt =====
-- What a lookup returns after a write, a removal, and along a dictionary without repeated keys.
use glyff.Prelude.{
  ◌≡◌, refl, none, some, [], ◌∷◌, Eq, ◌==◌, if◌then◌else◌, arith, beq_refl, Bool-cases, inl, inr,
}
use glyff.Dict.{Dict, get, set, pop}

module _ {ℓ κ} {K : Type ℓ} {V : Type κ} ⦃e : Eq K⦄ where
  pub get-empty : (k : K) → get {V = V} [] k ≡ none
  unfolding get
  get-empty k = refl

  pub get-set :
      (d : Dict K V) (k j : K) (v : V) → get (set d k v) j ≡ (if k == j then some v else get d j)
  unfolding get set
  get-set [] k j v = refl
  get-set ((i, w) ∷ d) k j v =
      ground (arith, get-set d k j v, e.beq_iff i k, e.beq_iff i j, e.beq_iff k j)

  pub get-set_self : (d : Dict K V) (k : K) (v : V) → get (set d k v) k ≡ some v
  get-set_self d k v = ground (arith, get-set d k k v, beq_refl k)

  pub get-pop : (d : Dict K V) (k j : K) → get (pop d k) j ≡ (if k == j then none else get d j)
  unfolding get pop
  get-pop [] k j = ground arith
  get-pop ((i, w) ∷ d) k j =
      ground (arith, get-pop d k j, e.beq_iff i k, e.beq_iff i j, e.beq_iff k j)

  -- No key stands twice.
  abbrev pub IsUnique : Dict K V → Type κ
  IsUnique [] = Unit
  IsUnique ((k, v) ∷ d) = (get d k ≡ none) × IsUnique d

  pub set-IsUnique : (d : Dict K V) (k : K) (v : V) → IsUnique d → IsUnique (set d k v)
  unfolding set get
  set-IsUnique [] k v h = (refl, tt)
  set-IsUnique ((j, w) ∷ d) k v h = elim (Bool-cases (j == k)) [
    | inl same ↦ rw same h
    | inr other ↦
        rw other (
          ground (arith, get-set d k j v, e.beq_iff j k, e.beq_iff k j, h.0),
          set-IsUnique d k v h.1,
        )
  ]

  pub pop-IsUnique : (d : Dict K V) (k : K) → IsUnique d → IsUnique (pop d k)
  unfolding pop get
  pop-IsUnique [] k h = tt
  pop-IsUnique ((j, w) ∷ d) k h = elim (Bool-cases (j == k)) [
    | inl same ↦ rw same (pop-IsUnique d k h.1)
    | inr other ↦ rw other (ground (arith, get-pop d k j, e.beq_iff k j, h.0), pop-IsUnique d k h.1)
  ]
