-- ===== src/Migration/Chain.antt =====
-- DomainMigration of packages/glyff/src/glyff/migration/_migrator.py: the transitions of a domain,
-- and the chain of them that takes a session to the domain's version. The source's handle on a
-- transition is the version that it starts from.
pub mod Acyclic
pub mod Arrival
use glyff.Prelude.{
  ℕ, zero, suc, Bool, true, false, Option, none, some, List, [], ◌∷◌, Text, if◌then◌else◌, ◌==◌,
  member, length, not,
}
use glyff.Types.{DomainId, DomainVersion, domain_id_eq, domain_version_eq}
use glyff.Result.{Result, ok, err, ◌>>=◌, ◌>>◌, require, migration, key_error}
use glyff.Json.{Platform}
use glyff.Dict
use glyff.Dict.{Dict}
use glyff.Arguments.{CanonicalArguments}
use glyff.Migration.Session.{StoredSession}
use glyff.Migration.Rules.{DomainVersionTransition}
use glyff.Migration.Runner.{run_plan, and_then, and_then_some, and_then_then}

abbrev pub Transitions : Type 0 → Type 0
Transitions V = Dict DomainVersion (DomainVersionTransition V)

pub record DomainMigration (V : Type 0) : Type 0 where
  pub domain_id : DomainId
  pub target_version : DomainVersion
  pub transitions : Transitions V

module _ {V : Type 0} where
  -- the loop of _require_acyclic; `none` where the fuel runs out
  unfoldable pub require_acyclic :
      ℕ → Transitions V → DomainVersion → DomainVersion → Option (Result (Unit {0}))
  require_acyclic zero transitions source version = none
  require_acyclic (suc fuel) transitions source version = elim (version == source) [
    | true ↦ some (err migration)
    | false ↦ elim (Dict.get transitions version) [
      | none ↦ some (ok tt)
      | some t ↦ require_acyclic fuel transitions source t.target_version
    ]
  ]

  abbrev pub new_transition :
      DomainMigration V → DomainVersion → DomainVersion → DomainVersionTransition V
  new_transition m source target = record {
    domain_id = m.domain_id;
    source_version = source;
    target_version = target;
    rules = [];
  }

  abbrev pub require_new : Transitions V → DomainVersion → DomainVersion → Result (Unit {0})
  require_new transitions source target =
      require (not (source == target)) migration
      >> require (not (Dict.has transitions source)) migration

  -- DomainMigration.transition. A chain has no more transitions than there are.
  unfoldable pub transition :
      DomainVersion → DomainVersion → DomainMigration V → Option (Result (DomainMigration V))
  unfolding require_acyclic
  transition source target m = and_then (require_new m.transitions source target) (λ _.
      and_then_some (require_acyclic (suc (length m.transitions)) m.transitions source target)
        (λ acyclic. acyclic >>= λ _. ok (record m {
          transitions = Dict.set m.transitions source (new_transition m source target);
        })))

  abbrev pub changed :
      DomainVersion
      → DomainMigration V
      → (DomainVersionTransition V → Result (DomainVersionTransition V))
      → Option (DomainVersionTransition V)
      → Result (DomainMigration V)
  changed source m change none = err key_error
  changed source m change (some t) =
      change t >>= λ t'. ok (record m { transitions = Dict.set m.transitions source t' })

  -- a call of a method of a transition that `transition` gave
  unfoldable pub with_transition :
      DomainVersion
      → (DomainVersionTransition V → Result (DomainVersionTransition V))
      → DomainMigration V
      → Result (DomainMigration V)
  with_transition source change m = changed source m change (Dict.get m.transitions source)

module _ ⦃p : Platform⦄ {V : Type 0} (canonicalize : Dict Text V → Result CanonicalArguments) where
  -- the loop of migrate; `none` where the fuel runs out
  unfoldable pub migrate_loop :
      ℕ
      → DomainMigration V
      → List DomainVersion
      → DomainVersion
      → StoredSession
      → Option (Result StoredSession)
  migrate_loop zero m visited version migrated = none
  migrate_loop (suc fuel) m visited version migrated = elim (version == m.target_version) [
    | true ↦ some (ok migrated)
    | false ↦ elim (member version visited) [
      | true ↦ some (err migration)
      | false ↦ elim (Dict.get m.transitions version) [
        | none ↦ some (err migration)
        | some plan ↦
            and_then_then (run_plan plan canonicalize migrated)
              (migrate_loop fuel m (version ∷ visited) plan.target_version)
      ]
    ]
  ]

  -- DomainMigration.migrate. No version is left twice.
  unfoldable pub migrate : DomainMigration V → StoredSession → Option (Result StoredSession)
  unfolding migrate_loop
  migrate m source = elim (Dict.get source.metadata.domain_versions m.domain_id) [
    | none ↦ some (err migration)
    | some version ↦ migrate_loop (suc (suc (length m.transitions))) m [] version source
  ]
