-- ===== src/Migration/Chain/Acyclic.antt =====
-- About `transition` and the loop of _require_acyclic.
use glyff.Prelude.{
  ℕ, zero, suc, ◌<◌, ◌≤◌, none, some, [], ◌∷◌, if◌then◌else◌, ◌==◌, length, leb, ◌≡◌, refl, arith,
  ap, ◌∙◌, Bool-cases, Option-cases, inl, inr, ◌⊎◌,
}
use glyff.Types.{DomainVersion, domain_version_eq, DomainVersion-beq_iff}
use glyff.Result.{Result, ok, err, migration}
use glyff.Dict
use glyff.Dict.{Dict}
use glyff.Dict.Laws.{get-set}
use glyff.Migration.Rules.{DomainVersionTransition}
use glyff.Migration.Chain.{
  Transitions, DomainMigration, require_acyclic, transition, new_transition,
}

module _ {V : Type 0} where
  -- The chain from a version ends.
  pub data Ends (ts : Transitions V) : DomainVersion → Type 0 where
    stop : {v : DomainVersion} → Dict.get ts v ≡ none → Ends ts v
    onward :
        {v : DomainVersion} (t : DomainVersionTransition V)
        → Dict.get ts v ≡ some t
        → Ends ts t.target_version
        → Ends ts v

  -- Every chain ends.
  abbrev pub IsAcyclic : Transitions V → Type 0
  IsAcyclic ts = (v : DomainVersion) → Ends ts v

  module _ (ts : Transitions V) where
    depth : (v : DomainVersion) → Ends ts v → ℕ
    depth v (stop e) = 0
    depth v (onward t e rest) = suc (depth t.target_version rest)

    same_depth :
        (v w : DomainVersion) → v ≡ w → (a : Ends ts v) (b : Ends ts w) → depth v a ≡ depth w b
    unfolding depth
    same_depth v w q (stop e) (stop f) = refl
    same_depth v w q (stop e) (onward t f b) = absurd (ground (arith, e, f, ap (Dict.get ts) q))
    same_depth v w q (onward t e a) (stop f) = absurd (ground (arith, e, f, ap (Dict.get ts) q))
    same_depth v w q (onward t e a) (onward u f b) =
        let same : t ≡ u = ground (arith, e, f, ap (Dict.get ts) q) in
        ap suc (same_depth t.target_version u.target_version (ap (λ x. x.target_version) same) a b)

    -- The check says yes or no.
    abbrev Decided : ℕ → DomainVersion → DomainVersion → Type 0
    Decided fuel source v =
        (require_acyclic fuel ts source v ≡ some (ok tt))
        ⊎ (require_acyclic fuel ts source v ≡ some (err migration))

    -- Enough fuel for one chain.
    acyclic_runs :
        (fuel : ℕ) (source v : DomainVersion) (e : Ends ts v)
        → depth v e < fuel
        → Decided fuel source v
    unfolding depth require_acyclic
    acyclic_runs zero source v e h = absurd (omega arith)
    acyclic_runs (suc fuel) source v (stop e) h = elim (Bool-cases (v == source)) [
      | inl same ↦ inr (rw (require_acyclic, same) refl)
      | inr other ↦ inl (rw (require_acyclic, other, e) refl)
    ]
    acyclic_runs (suc fuel) source v (onward t e rest) h = elim (Bool-cases (v == source)) [
      | inl same ↦ inr (rw (require_acyclic, same) refl)
      | inr other ↦ elim (acyclic_runs fuel source t.target_version rest (omega arith)) [
        | inl fine ↦ inl (rw (require_acyclic, other, e) fine)
        | inr cycle ↦ inr (rw (require_acyclic, other, e) cycle)
      ]
    ]

    module _ (acyclic : IsAcyclic ts) where
      abbrev rank : DomainVersion → ℕ
      rank v = depth v (acyclic v)

      -- the entries that start no further than `bound` from an end
      abbrev within_bound : ℕ → Transitions V → ℕ
      within_bound bound [] = 0
      within_bound bound ((v, t) ∷ d) =
          if leb (rank v) bound then suc (within_bound bound d) else within_bound bound d

      within_bound-le_length : (bound : ℕ) (d : Transitions V) → within_bound bound d ≤ length d
      within_bound-le_length bound [] = omega arith
      within_bound-le_length bound ((v, t) ∷ d) = ground (arith, within_bound-le_length bound d)

      within_bound_mono :
          (a b : ℕ) (d : Transitions V) → a ≤ b → within_bound a d ≤ within_bound b d
      within_bound_mono a b [] h = omega arith
      within_bound_mono a b ((v, t) ∷ d) h = ground (arith, within_bound_mono a b d h)

      within_bound_strict :
          (a b : ℕ) (d : Transitions V) (v : DomainVersion) (t : DomainVersionTransition V)
          → a < b
          → rank v ≡ b
          → Dict.get d v ≡ some t
          → suc (within_bound a d) ≤ within_bound b d
      unfolding Dict.get
      within_bound_strict a b [] v t h r q = absurd (ground (arith, q))
      within_bound_strict a b ((u, s) ∷ d) v t h r q = elim (Bool-cases (u == v)) [
        | inl same ↦
            let e : u ≡ v = (DomainVersion-beq_iff u v).0 same in
            let here : rank u ≡ b = ap rank e ∙ r in ground (arith, here, within_bound_mono a b d)
        | inr other ↦ ground (arith, within_bound_strict a b d v t h r)
      ]

      rank-le : (v : DomainVersion) (e : Ends ts v) → depth v e ≤ within_bound (depth v e) ts
      unfolding depth
      rank-le v (stop e) = omega arith
      rank-le v (onward t e rest) =
          let far = same_depth v v refl (acyclic v) (onward t e rest) in
          omega (
            arith,
            rank-le t.target_version rest,
            within_bound_strict (depth t.target_version rest) (suc (depth t.target_version rest)) ts
                v t (omega arith) far e,
          )

  -- The check of a new transition ends within the rounds that it is given.
  acyclic_ends :
      (ts : Transitions V)
      → IsAcyclic ts
      → (source v : DomainVersion) → Decided ts (suc (length ts)) source v
  acyclic_ends ts acyclic source v = acyclic_runs ts (suc (length ts)) source v (acyclic v) (
      omega (
        arith,
        rank-le ts acyclic v (acyclic v),
        within_bound-le_length ts acyclic (depth ts v (acyclic v)) ts,
      ))

  -- What the check lets through does not pass the new transition's source.
  ends_with :
      (fuel : ℕ) (ts : Transitions V) (source v : DomainVersion) (t : DomainVersionTransition V)
      → require_acyclic fuel ts source v ≡ some (ok tt)
      → Ends (Dict.set ts source t) v
  unfolding require_acyclic
  ends_with zero ts source v t h = absurd (ground arith)
  ends_with (suc fuel) ts source v t h = elim (Bool-cases (v == source)) [
    | inl same ↦ absurd (ground (arith, h))
    | inr other ↦ elim (Option-cases (Dict.get ts v)) [
      | inl e ↦ stop (
          ground (
            arith,
            get-set ts source v t,
            DomainVersion-beq_iff source v,
            DomainVersion-beq_iff v source,
          ))
      | inr (u, e) ↦
          onward u
            (ground (
              arith,
              get-set ts source v t,
              DomainVersion-beq_iff source v,
              DomainVersion-beq_iff v source,
            ))
            (ends_with fuel ts source u.target_version t (ground (arith, h)))
    ]
  ]

  set-IsAcyclic :
      (ts : Transitions V) (source : DomainVersion) (t : DomainVersionTransition V)
      → Ends (Dict.set ts source t) t.target_version
      → (v : DomainVersion) → Ends ts v
      → Ends (Dict.set ts source t) v
  set-IsAcyclic ts source t last v (stop e) = elim (Bool-cases (source == v)) [
    | inl same ↦ onward t (ground (arith, get-set ts source v t)) last
    | inr other ↦ stop (ground (arith, get-set ts source v t))
  ]
  set-IsAcyclic ts source t last v (onward u e rest) = elim (Bool-cases (source == v)) [
    | inl same ↦ onward t (ground (arith, get-set ts source v t)) last
    | inr other ↦
        onward u (ground (arith, get-set ts source v t))
          (set-IsAcyclic ts source t last u.target_version rest)
  ]

  -- What a call of `transition` leaves.
  abbrev pub Outcome :
      DomainMigration V → DomainVersion → DomainVersion → Result (DomainMigration V) → Type 0
  Outcome m source target (ok m') =
      IsAcyclic m'.transitions
      × (m'.transitions ≡ Dict.set m.transitions source (new_transition m source target))
  Outcome m source target (err e) = e ≡ migration

  -- Where every chain of transitions ends, `transition` returns or raises MigrationError: its check
  -- for cycles ends within the rounds that it is given, and every chain still ends once the new
  -- transition is added.
  pub transition_lem :
      (m : DomainMigration V) (source target : DomainVersion)
      → IsAcyclic m.transitions
      → (r : Result (DomainMigration V)) × (transition source target m ≡ some r)
        × Outcome m source target r
  unfolding transition
  transition_lem m source target acyclic = elim (Bool-cases (source == target)) [
    | inl same ↦ (err migration, rw same refl, refl)
    | inr other ↦ elim (Option-cases (Dict.get m.transitions source)) [
      | inr (t, known) ↦ (err migration, rw other (rw known refl), refl)
      | inl fresh ↦ elim (acyclic_ends m.transitions acyclic source target) [
        | inr cycle ↦ (err migration, rw other (rw fresh (rw cycle refl)), refl)
        | inl ends ↦
            let t = new_transition m source target in
            (
              ok (record m { transitions = Dict.set m.transitions source t }),
              rw other (rw fresh (rw ends refl)),
              (
                λ v.
                    set-IsAcyclic m.transitions source t
                      (ends_with (suc (length m.transitions)) m.transitions source target t ends) v
                      (acyclic v),
                refl,
              ),
            )
      ]
    ]
  ]
