-- ===== src/Dict/Building.antt =====
-- Lookups in dictionaries that are built from entries, sorted, or mapped.
use glyff.Prelude.{
  ◌≡◌, refl, Bool, Option, none, some, [], ◌∷◌, ◌++◌, ◌==◌, map, Eq, arith, ap, sym, beq_refl,
  Bool-cases, inl, inr, insert_sorted, sorted, ◌∙◌,
}
use mathlib.Core.List.{append_assoc, append-nil}
use glyff.Dict.{Dict, get, set, set_all, from_entries}
use glyff.Dict.Laws.{get-set, IsUnique, set-IsUnique}

abbrev pub or_else {ℓ} : {A : Type ℓ} → Option A → Option A → Option A
or_else none o = o
or_else (some a) o = some a

abbrev pub map_option {ℓ κ} : {A : Type ℓ} {B : Type κ} → (A → B) → Option A → Option B
map_option f none = none
map_option f (some a) = some (f a)

module _ {ℓ κ} {K : Type ℓ} {V : Type κ} ⦃e : Eq K⦄ where
  pub get-set_all :
      (es d : Dict K V) (k : K) → IsUnique es → get (set_all d es) k ≡ or_else (get es k) (get d k)
  unfolding get
  get-set_all [] d k u = refl
  get-set_all ((j, v) ∷ es) d k u =
      ground (arith, get-set_all es (set d j v) k u.1, get-set d j k v, u.0, e.beq_iff j k)

  pub set_all-IsUnique : (es d : Dict K V) → IsUnique d → IsUnique (set_all d es)
  set_all-IsUnique [] d u = u
  set_all-IsUnique ((j, v) ∷ es) d u = set_all-IsUnique es (set d j v) (set-IsUnique d j v u)

  set-fresh : (d : Dict K V) (k : K) (v : V) → get d k ≡ none → set d k v ≡ d ++ (k, v) ∷ []
  unfolding get set
  set-fresh [] k v h = refl
  set-fresh ((j, w) ∷ d) k v h = elim (Bool-cases (j == k)) [
    | inl same ↦ absurd (ground (arith, same, h))
    | inr other ↦ rw other (ap (◌∷◌ (j, w)) (set-fresh d k v (rw other at h)))
  ]

  set_all-fresh :
      (es d : Dict K V)
      → IsUnique es
      → ((k : K) (v : V) → get es k ≡ some v → get d k ≡ none)
      → set_all d es ≡ d ++ es
  unfolding get
  set_all-fresh [] d u apart = sym (append-nil d)
  set_all-fresh ((k, v) ∷ es) d u apart =
      let fresh = apart k v (rw (beq_refl k) refl) in
      let rest =
        set_all-fresh es (set d k v) u.1
          (λ i w q. ground (arith, q, apart i w, u.0, get-set d k i v, e.beq_iff k i)) in
      rest ∙ ap (λ x. x ++ es) (set-fresh d k v fresh) ∙ append_assoc d ((k, v) ∷ []) es

  -- Entries without repeated keys are the dictionary that they make.
  pub from_entries-IsUnique : (es : Dict K V) → IsUnique es → from_entries es ≡ es
  unfolding get
  from_entries-IsUnique es u = set_all-fresh es [] u (λ k v q. refl)

  module _ (before : K × V → K × V → Bool) where
    get-insert_sorted :
        (x : K × V) (d : Dict K V) (k : K)
        → get d x.0 ≡ none
        → get (insert_sorted before x d) k ≡ get (x ∷ d) k
    unfolding get
    get-insert_sorted x [] k h = refl
    get-insert_sorted x (y ∷ d) k h =
        ground (arith, get-insert_sorted x d k, e.beq_iff y.0 x.0, e.beq_iff y.0 k, e.beq_iff x.0 k)

    insert_sorted-IsUnique :
        (x : K × V) (d : Dict K V)
        → get d x.0 ≡ none
        → IsUnique d
        → IsUnique (insert_sorted before x d)
    unfolding get
    insert_sorted-IsUnique x [] h u = (refl, tt)
    insert_sorted-IsUnique x (y ∷ d) h u = elim (Bool-cases (before x y)) [
      | inl first ↦ rw first (h, u)
      | inr later ↦ rw later (
        ground (arith, get-insert_sorted x d y.0, u.0, e.beq_iff x.0 y.0, e.beq_iff y.0 x.0),
        insert_sorted-IsUnique x d (ground arith) u.1,
      )
    ]

    pub get-sorted :
        (d : Dict K V) (k : K)
        → IsUnique d
        → (get (sorted before d) k ≡ get d k) × IsUnique (sorted before d)
    unfolding get
    get-sorted [] k u = (refl, tt)
    get-sorted (x ∷ d) k u =
        let (same, unique) = get-sorted d k u.1 in
        let fresh = (get-sorted d x.0 u.1).0 ∙ u.0 in
        (
          ground (arith, get-insert_sorted x (sorted before d) k fresh, same),
          insert_sorted-IsUnique x (sorted before d) fresh unique,
        )

module _ {ℓ κ ι} {K : Type ℓ} {V : Type κ} {W : Type ι} ⦃e : Eq K⦄ (f : K → V → W) where
  pub get-map :
      (d : Dict K V) (k : K) → get (map (λ x. (x.0, f x.0 x.1)) d) k ≡ map_option (f k) (get d k)
  unfolding get
  get-map [] k = refl
  get-map ((j, v) ∷ d) k = ground (arith, get-map d k, e.beq_iff j k)

  pub map-IsUnique : (d : Dict K V) → IsUnique d → IsUnique (map (λ x. (x.0, f x.0 x.1)) d)
  map-IsUnique [] u = tt
  map-IsUnique ((j, v) ∷ d) u = (ground (arith, get-map d j, u.0), map-IsUnique d u.1)
