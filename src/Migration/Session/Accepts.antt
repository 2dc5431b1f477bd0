-- ===== src/Migration/Session/Accepts.antt =====
-- About the checks that a stored session is built with.
use glyff.Prelude.{
  true, false, some, List, [], ◌∷◌, ◌==◌, member, ◌≡◌, ◌⊎◌, inl, inr, refl, arith, Bool-cases, ◌∙◌,
  ap, sym, beq_refl,
}
use glyff.Types.{
  ExecutionId, top, child, frame, DomainId, DomainVersion, domain_id_eq, execution_id_eq,
  execution_id_beq_iff,
}
use glyff.Result.{Result, ok, err, migration, migration_collision}
use glyff.Dict
use glyff.Dict.{Dict}
use glyff.Execution.{Execution}
use glyff.Migration.Ids.{ids, is_below, at_or_below, at_or_below_cases, HaveUniqueIds}
use glyff.Migration.Session.{
  SessionMetadata, StoredSession, require_unique, domains_in, all_recorded, is_covered,
  stored_session,
}

-- None of the records has one of the ids.
abbrev AreFresh : List ExecutionId → List Execution → Type 0
AreFresh seen [] = Unit
AreFresh seen (e ∷ es) = (member e.id seen ≡ false) × AreFresh seen es

AreFresh-empty : (es : List Execution) → AreFresh [] es
AreFresh-empty [] = tt
AreFresh-empty (e ∷ es) = (refl, AreFresh-empty es)

AreFresh-tail :
    (i : ExecutionId) (seen : List ExecutionId) (es : List Execution)
    → AreFresh (i ∷ seen) es
    → AreFresh seen es × (member i (ids es) ≡ false)
AreFresh-tail i seen [] h = (tt, refl)
AreFresh-tail i seen (e ∷ es) h =
    let rest = AreFresh-tail i seen es h.1 in
    let other : (e.id == i) ≡ false =
      ground (arith, h.0, execution_id_beq_iff i e.id, execution_id_beq_iff e.id i) in
    ((ground (arith, h.0), rest.0), rw other rest.1)

AreFresh-cons :
    (i : ExecutionId) (seen : List ExecutionId) (es : List Execution)
    → AreFresh seen es
    → member i (ids es) ≡ false
    → AreFresh (i ∷ seen) es
AreFresh-cons i seen [] h fresh = tt
AreFresh-cons i seen (e ∷ es) h fresh = (
  ground (arith, h.0, fresh, execution_id_beq_iff i e.id, execution_id_beq_iff e.id i),
  AreFresh-cons i seen es h.1 (ground (arith, fresh)),
)

-- The first loop raises exactly where an id stands twice.
require_unique_cases :
    (seen : List ExecutionId) (es : List Execution)
    → ((require_unique seen es ≡ ok tt) × HaveUniqueIds es × AreFresh seen es)
      ⊎ ((require_unique seen es ≡ err migration_collision)
          × ¬ (HaveUniqueIds es × AreFresh seen es))
unfolding require_unique
require_unique_cases seen [] = inl (refl, tt, tt)
require_unique_cases seen (e ∷ es) = elim (Bool-cases (member e.id seen)) [
  | inl twice ↦ inr (rw twice refl, λ h. absurd (ground (arith, twice, (h.1).0)))
  | inr fresh ↦ elim (require_unique_cases (e.id ∷ seen) es) [
    | inl (done, unique, apart) ↦
        let (rest, here) = AreFresh-tail e.id seen es apart in
        inl (rw fresh done, (here, unique), (fresh, rest))
    | inr (raised, clash) ↦
        inr (rw fresh raised, λ h. clash ((h.0).1, AreFresh-cons e.id seen es (h.1).1 (h.0).0))
  ]
]

-- Every domain that the frames of an id name, its ancestors' frames included, has a version.
abbrev pub AreCovered : Dict DomainId DomainVersion → ExecutionId → Type 0
AreCovered recorded j =
    (i : ExecutionId) → at_or_below i j ≡ true → Dict.has recorded (frame i).domain_id ≡ true

abbrev pub IsCovered : Dict DomainId DomainVersion → List Execution → Type 0
IsCovered recorded es = (j : ExecutionId) → member j (ids es) ≡ true → AreCovered recorded j

AreCovered-child :
    (recorded : Dict DomainId DomainVersion) (j : ExecutionId)
    → Dict.has recorded (frame j).domain_id ≡ true
    → ((i : ExecutionId)
        → is_below (some i) j ≡ true
        → Dict.has recorded (frame i).domain_id ≡ true)
    → AreCovered recorded j
AreCovered-child recorded j here above i h = elim (at_or_below_cases i j h) [
  | inl same ↦ ap (λ k. Dict.has recorded (frame k).domain_id) (sym same) ∙ here
  | inr below ↦ above i below
]

self_or_below : (i : ExecutionId) → at_or_below i i ≡ true
self_or_below i = rw (beq_refl i) refl

all_recorded_cases :
    (recorded : Dict DomainId DomainVersion) (j : ExecutionId)
    → ((all_recorded recorded (domains_in j) ≡ true) × AreCovered recorded j)
      ⊎ ((all_recorded recorded (domains_in j) ≡ false) × ¬ (AreCovered recorded j))
unfolding domains_in
all_recorded_cases recorded (top f) = elim (Bool-cases (Dict.has recorded f.domain_id)) [
  | inl known ↦ inl (
    rw known refl,
    AreCovered-child recorded (top f) known (λ i below. absurd (ground (arith, below))),
  )
  | inr missing ↦
      inr
        (rw missing refl, λ h. absurd (ground (arith, missing, h (top f) (self_or_below (top f)))))
]
all_recorded_cases recorded (child q f) = elim (Bool-cases (Dict.has recorded f.domain_id)) [
  | inl known ↦ elim (all_recorded_cases recorded q) [
    | inl (all, covered) ↦ inl (rw known all, AreCovered-child recorded (child q f) known covered)
    | inr (some_not, uncovered) ↦
        inr (rw known some_not, λ h. uncovered (λ i below. h i (ground (arith, below))))
  ]
  | inr missing ↦ inr (
    rw missing refl,
    λ h. absurd (ground (arith, missing, h (child q f) (self_or_below (child q f)))),
  )
]

is_covered_cases :
    (recorded : Dict DomainId DomainVersion) (es : List Execution)
    → ((is_covered recorded es ≡ true) × IsCovered recorded es)
      ⊎ ((is_covered recorded es ≡ false) × ¬ (IsCovered recorded es))
unfolding is_covered
is_covered_cases recorded [] = inl (refl, λ j h. absurd (ground (arith, h)))
is_covered_cases recorded (e ∷ es) = elim (all_recorded_cases recorded e.id) [
  | inr (not_all, uncovered) ↦
      inr (rw not_all refl, λ h. uncovered (h e.id (rw (beq_refl e.id) refl)))
  | inl (all, covered) ↦ elim (is_covered_cases recorded es) [
    | inr (not_rest, uncovered) ↦
        inr (rw all not_rest, λ h. uncovered (λ j held. h j (ground (arith, held))))
    | inl (rest, others) ↦ inl (
      rw all rest,
      λ j held. elim (Bool-cases (e.id == j)) [
        | inl same ↦
            λ i above. covered i (ap (at_or_below i) ((execution_id_beq_iff e.id j).0 same) ∙ above)
        | inr other ↦ others j (rw other at held)
      ],
    )
  ]
]

-- What the building of a stored session gives: the session, or the error of the first check that
-- fails.
abbrev pub Built : SessionMetadata → List Execution → Result StoredSession → Type 0
Built metadata es (ok s) =
    (s ≡ record { metadata = metadata; executions = es })
    × HaveUniqueIds es
    × IsCovered metadata.domain_versions es
Built metadata es (err raised) =
    ((raised ≡ migration_collision) × ¬ (HaveUniqueIds es))
    ⊎ ((raised ≡ migration) × HaveUniqueIds es × ¬ (IsCovered metadata.domain_versions es))

-- A stored session is built exactly where no id stands twice and each domain named along an id's
-- chain has a version. Otherwise MigrationCollisionError is raised for an id that stands twice, and
-- MigrationError for a domain without a version.
pub stored_session_lem :
    (metadata : SessionMetadata) (es : List Execution)
    → Built metadata es (stored_session metadata es)
unfolding stored_session
stored_session_lem metadata es = elim (require_unique_cases [] es) [
  | inr (raised, clash) ↦ rw raised (inl (refl, λ h. clash (h, AreFresh-empty es)))
  | inl (done, unique, apart) ↦ elim (is_covered_cases metadata.domain_versions es) [
    | inl (covered, domains) ↦ rw done (rw covered (refl, unique, domains))
    | inr (missing, uncovered) ↦ rw done (rw missing (inr (refl, unique, uncovered)))
  ]
]
