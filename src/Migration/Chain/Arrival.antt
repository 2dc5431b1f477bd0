-- ===== src/Migration/Chain/Arrival.antt =====
-- About the loop of migrate: it ends, and where it ends without a raise the session is at the
-- domain's version.
use glyff.Prelude.{
  ℕ, zero, suc, ◌<◌, ◌≤◌, false, some, List, [], ◌∷◌, Text, ◌==◌, length, member, ◌≡◌, refl, arith,
  ap, ◌∙◌, Bool-cases, Option-cases, inl, inr, if◌then◌else◌, beq_refl,
}
use glyff.Types.{
  DomainId, DomainVersion, domain_id_eq, domain_version_eq, DomainId-beq_iff, DomainVersion-beq_iff,
}
use glyff.Result.{Result, ok, err, migration}
use glyff.Json.{Platform}
use glyff.Dict
use glyff.Dict.{Dict}
use glyff.Dict.Laws.{get-set}
use glyff.Arguments.{CanonicalArguments}
use glyff.Migration.Session.{StoredSession}
use glyff.Migration.Rules.{DomainVersionTransition}
use glyff.Migration.Runner.{run_plan}
use glyff.Migration.Runner.Runs.{IsStorable, versions, Ran, run_plan_ends}
use glyff.Migration.Chain.{Transitions, DomainMigration, migrate_loop, migrate}

module _ {V : Type 0} where
  -- The transitions that start from a version not visited.
  abbrev unvisited : List DomainVersion → Transitions V → ℕ
  unvisited seen [] = 0
  unvisited seen ((v, t) ∷ ts) =
      if member v seen then unvisited seen ts else suc (unvisited seen ts)

  unvisited-cons :
      (v : DomainVersion) (seen : List DomainVersion) (ts : Transitions V)
      → unvisited (v ∷ seen) ts ≤ unvisited seen ts
  unvisited-cons v seen [] = omega arith
  unvisited-cons v seen ((w, t) ∷ ts) = ground (arith, unvisited-cons v seen ts)

  unvisited-strict :
      (v : DomainVersion) (seen : List DomainVersion) (ts : Transitions V)
      (t : DomainVersionTransition V)
      → member v seen ≡ false
      → Dict.get ts v ≡ some t
      → unvisited (v ∷ seen) ts < unvisited seen ts
  unfolding Dict.get
  unvisited-strict v seen [] t fresh h = absurd (ground (arith, h))
  unvisited-strict v seen ((w, u) ∷ ts) t fresh h = elim (Bool-cases (w == v)) [
    | inl same ↦
        let q : w ≡ v = (DomainVersion-beq_iff w v).0 same in
        let here : member w seen ≡ false = ap (λ x. member x seen) q ∙ fresh in
        ground (arith, here, q, beq_refl v, unvisited-cons v seen ts)
    | inr other ↦ ground (
      arith,
      unvisited-strict v seen ts t fresh,
      DomainVersion-beq_iff w v,
      DomainVersion-beq_iff v w,
    )
  ]

  unvisited-empty : (ts : Transitions V) → unvisited [] ts ≡ length ts
  unvisited-empty [] = refl
  unvisited-empty ((v, t) ∷ ts) = omega (arith, unvisited-empty ts)

  -- Every transition is the migration's own: of its domain, and filed under its source version.
  abbrev pub OwnsTransitions : DomainMigration V → Type 0
  OwnsTransitions m =
      (v : DomainVersion) (t : DomainVersionTransition V)
      → Dict.get m.transitions v ≡ some t
      → (t.domain_id ≡ m.domain_id) × (t.source_version ≡ v)

  -- Where a migration arrives: at its version, with the versions of other domains as they were, and
  -- with a session that a store takes.
  abbrev pub Arrived : DomainMigration V → StoredSession → Result StoredSession → Type 0
  Arrived m source (err e) = Unit
  Arrived m source (ok s) =
      (Dict.get (versions s) m.domain_id ≡ some m.target_version)
      × ((d : DomainId)
          → (d == m.domain_id) ≡ false
          → Dict.get (versions s) d ≡ Dict.get (versions source) d)
      × IsStorable s

  Arrived-through :
      (m : DomainMigration V) (source between : StoredSession)
      → ((d : DomainId)
          → (d == m.domain_id) ≡ false
          → Dict.get (versions between) d ≡ Dict.get (versions source) d)
      → (r : Result StoredSession) → Arrived m between r
      → Arrived m source r
  Arrived-through m source between same (err e) h = tt
  Arrived-through m source between same (ok s) (there, others, storable) =
      (there, λ d other. others d other ∙ same d other, storable)

module _ ⦃p : Platform⦄ {V : Type 0} (canonicalize : Dict Text V → Result CanonicalArguments)
    (m : DomainMigration V) (owns : OwnsTransitions m) where
  LoopEnds : ℕ → List DomainVersion → DomainVersion → StoredSession → Type 0
  LoopEnds fuel seen v s =
      (r : Result StoredSession) × (migrate_loop canonicalize fuel m seen v s ≡ some r)
      × Arrived m s r

  -- A transition's run moves the domain on and leaves the others.
  moved_on :
      (v : DomainVersion) (t : DomainVersionTransition V) (s s' : StoredSession)
      → Dict.get m.transitions v ≡ some t
      → Ran t canonicalize s (ok s')
      → (Dict.get (versions s') m.domain_id ≡ some t.target_version)
        × ((d : DomainId)
            → (d == m.domain_id) ≡ false
            → Dict.get (versions s') d ≡ Dict.get (versions s) d)
  moved_on v t s s' known (at_source, updated, storable) =
      let own = (owns v t known).0 in
      (
        rw updated (
            rw own (
              get-set (versions s) m.domain_id m.domain_id t.target_version
              ∙ rw (beq_refl m.domain_id) refl)),
        λ d other. rw updated (
            rw own (
              get-set (versions s) m.domain_id d t.target_version
              ∙ ground
                  (arith, other, DomainId-beq_iff m.domain_id d, DomainId-beq_iff d m.domain_id))),
      )

  -- The rest of the loop, for all that a round may leave.
  RestEnds : ℕ → Type 0
  RestEnds fuel =
      (seen : List DomainVersion) (v : DomainVersion) (s : StoredSession)
      → unvisited seen m.transitions < fuel
      → Dict.get (versions s) m.domain_id ≡ some v
      → IsStorable s
      → LoopEnds fuel seen v s

  went_on :
      (fuel : ℕ)
      → RestEnds fuel
      → (seen : List DomainVersion) (v : DomainVersion) (s : StoredSession)
      → unvisited seen m.transitions ≤ fuel
      → (t : DomainVersionTransition V) → Dict.get m.transitions v ≡ some t
      → member v seen ≡ false
      → (v == m.target_version) ≡ false
      → (r : Result StoredSession) → run_plan t canonicalize s ≡ some r
      → Ran t canonicalize s r
      → LoopEnds (suc fuel) seen v s
  unfolding LoopEnds RestEnds migrate_loop
  went_on fuel rest seen v s h t known fresh away (err e) ran left =
      (err e, rw (migrate_loop, away, fresh, known, ran) refl, tt)
  went_on fuel rest seen v s h t known fresh away (ok s') ran left =
      let (there, others) = moved_on v t s s' known left in
      let (r, ends, arrived) =
        rest (v ∷ seen) t.target_version s'
          (omega (arith, unvisited-strict v seen m.transitions t fresh known)) there left.2 in
      (r, rw (migrate_loop, away, fresh, known, ran) ends, Arrived-through m s s' others r arrived)

  loop_ends : (fuel : ℕ) → RestEnds fuel
  unfolding RestEnds LoopEnds migrate_loop
  loop_ends zero seen v s h at_v storable = absurd (omega arith)
  loop_ends (suc fuel) seen v s h at_v storable = elim (Bool-cases (v == m.target_version)) [
    | inl there ↦ (
      ok s,
      rw (migrate_loop, there) refl,
      (
        at_v ∙ ap some ((DomainVersion-beq_iff v m.target_version).0 there),
        λ d other. refl,
        storable,
      ),
    )
    | inr away ↦ elim (Bool-cases (member v seen)) [
      | inl again ↦ (err migration, rw (migrate_loop, away, again) refl, tt)
      | inr fresh ↦ elim (Option-cases (Dict.get m.transitions v)) [
        | inl last ↦ (err migration, rw (migrate_loop, away, fresh, last) refl, tt)
        | inr (t, known) ↦
            let (r, ran, left) = run_plan_ends t canonicalize s storable.0 in
            went_on fuel (loop_ends fuel) seen v s (omega arith) t known fresh away r ran left
      ]
    ]
  ]

  -- Where the transitions are the migration's own and the session is one that a store takes, a
  -- migration returns or raises: its loops end within the rounds that they are given. The session
  -- that it returns has the target version for the domain and the versions that it had for the other
  -- domains, and a store takes it.
  pub migrate_ends :
      (source : StoredSession)
      → IsStorable source
      → (r : Result StoredSession) × (migrate canonicalize m source ≡ some r) × Arrived m source r
  unfolding migrate LoopEnds RestEnds
  migrate_ends source storable = elim (Option-cases (Dict.get (versions source) m.domain_id)) [
    | inl unrecorded ↦ (err migration, rw (migrate, unrecorded) refl, tt)
    | inr (v, known) ↦
        let (r, ends, arrived) =
          loop_ends (suc (suc (length m.transitions))) [] v source
            (omega (arith, unvisited-empty m.transitions)) known storable in
        (r, rw (migrate, known) ends, arrived)
  ]
