-- ===== src/Migration/Runner.antt =====
-- _ExecutionMigrationRunner of packages/glyff/src/glyff/migration/_migrator.py: one transition's
-- changes to the records of a session.
pub mod Below
pub mod Moves
pub mod Weights
pub mod Rounds
pub mod Runs
pub mod Contents
pub mod Origins
pub mod Covering
pub mod Kept
use glyff.Prelude.{
  ℕ, zero, suc, Bool, true, false, Option, none, some, List, [], ◌∷◌, ◌++◌, map, Text,
  if◌then◌else◌, ◌==◌, member, length, leb, not, sorted, nat_eq, option_eq,
}
use glyff.Types.{
  ExecutionId, ExecutionName, Frame, ExecutionSequenceScope, DomainId, DomainVersion, frame,
  parent_id, execution_id, from_execution_id, scope_eq, domain_id_eq, domain_version_eq,
  execution_id_eq,
}
use glyff.Types.Checks.{replacing}
use glyff.Result.{
  Result, Error, ok, err, ◌>>=◌, ◌>>◌, require, is_exception, invalid_execution, migration,
  migration_ordinal_ambiguity,
}
use glyff.Json.{Platform}
use glyff.Dict
use glyff.Dict.{Dict}
use glyff.Arguments.{CanonicalArguments, Entries, entry, end, decode, digest}
use glyff.Execution.{Execution, post_init}
use glyff.Migration.Session.{StoredSession, SessionMetadata, stored_session}
use glyff.Migration.Rules.{
  ExecutionShape, DomainVersionTransition, Rule, Remap, remap_rule, drop_rule, same_names, rule_for,
}

abbrev pub names_of : Entries → List Text
names_of end = []
names_of (entry k v es) = k ∷ names_of es

-- except InvalidExecutionError as error: raise MigrationError from error
abbrev pub unreadable {ℓ} : {A : Type ℓ} → Result A → Result A
unreadable (ok a) = ok a
unreadable (err invalid_execution) = err migration
unreadable (err e) = err e

-- except Exception as e: raise MigrationError from e
abbrev pub failed_conversion {ℓ} : {A : Type ℓ} → Result A → Result A
failed_conversion (ok a) = ok a
failed_conversion (err e) = if is_exception e then err migration else err e

-- A raise ends a loop.
abbrev pub and_then {ℓ κ} :
    {A : Type ℓ} {B : Type κ} → Result A → (A → Option (Result B)) → Option (Result B)
and_then (ok a) next = next a
and_then (err e) next = some (err e)

abbrev pub and_then_some {ℓ κ} : {A : Type ℓ} {B : Type κ} → Option A → (A → B) → Option B
and_then_some none next = none
and_then_some (some a) next = some (next a)

abbrev pub and_then_then {ℓ κ} :
    {A : Type ℓ} {B : Type κ} → Option (Result A) → (A → Option (Result B)) → Option (Result B)
and_then_then none next = none
and_then_then (some r) next = and_then r next

abbrev pub Children : Type 0
Children = Dict (Option ExecutionId) (List Execution)

abbrev pub listed : Option (List Execution) → List Execution
listed none = []
listed (some es) = es

abbrev pub is_known : List Execution → Option ExecutionId → Bool
is_known known none = true
is_known known (some p) = member p (map (λ e. e.id) known)

-- the loop of _children_by_parent
unfoldable pub add_children : List Execution → Children → List Execution → Result Children
add_children known children [] = ok children
add_children known children (e ∷ es) =
    require (is_known known (parent_id e.id)) migration
    >> add_children known
        (Dict.set children (parent_id e.id) (listed (Dict.get children (parent_id e.id)) ++ e ∷ []))
        es

-- _children_by_parent
unfoldable pub children_by_parent : List Execution → Result Children
unfolding add_children
children_by_parent executions = add_children executions [] executions

-- What _rebuild keeps. `stack` has its top first.
pub record Rebuilding : Type 0 where
  pub migrated : List Execution
  pub arguments_by_source_scope : Dict ExecutionSequenceScope CanonicalArguments
  pub source_scopes_by_target : Dict ExecutionSequenceScope (List ExecutionSequenceScope)
  pub stack : List (Option ExecutionId × Option ExecutionId)

abbrev pub add_scope :
    ExecutionSequenceScope → Option (List ExecutionSequenceScope) → List ExecutionSequenceScope
add_scope source none = source ∷ []
add_scope source (some seen) = if member source seen then seen else seen ++ source ∷ []

abbrev pub by_sequence : Execution → Execution → Bool
by_sequence a b = leb (frame a.id).sequence (frame b.id).sequence

abbrev pub id_in : ExecutionSequenceScope → ℕ → ExecutionId
id_in scope sequence = execution_id scope.parent_id (record {
  domain_id = scope.domain_id;
  name = scope.name;
  sequence = sequence;
  arguments_digest = scope.arguments_digest;
})

-- _require_one_source_scope
unfoldable pub require_one_source_scope :
    Dict ExecutionSequenceScope (List ExecutionSequenceScope)
    → ExecutionSequenceScope
    → ExecutionSequenceScope
    → Result (Dict ExecutionSequenceScope (List ExecutionSequenceScope))
require_one_source_scope by_target target source = do
  let seen = add_scope source (Dict.get by_target target)
  require (leb (length seen) 1) migration_ordinal_ambiguity
  ok (Dict.set by_target target seen)

module _ ⦃p : Platform⦄ where
  -- _recorded
  unfoldable pub recorded : Execution → ExecutionShape → Result Entries
  recorded e source = do
    stored ← unreadable (decode e.arguments)
    require (same_names (names_of stored) source.argument_names) migration
    ok stored

module _ ⦃p : Platform⦄ {V : Type 0} where
  module _ (plan : DomainVersionTransition V)
      (canonicalize : Dict Text V → Result CanonicalArguments) where
    -- _arguments
    unfoldable pub arguments : Execution → Option (Remap V) → Result CanonicalArguments
    unfolding recorded
    arguments e none = ok e.arguments
    arguments e (some remap) = elim remap.convert_arguments [
      | none ↦ recorded e remap.source >> ok e.arguments
      | some convert ↦ do
        stored ← recorded e remap.source
        converted ← failed_conversion (convert stored)
        require (same_names (Dict.keys converted) remap.target.argument_names) migration
        canonicalize converted
    ]

    abbrev pub memoized :
        Execution → Option (Remap V) → Option CanonicalArguments → Result CanonicalArguments
    memoized e remap none = arguments e remap
    memoized e remap (some a) = ok a

    abbrev pub target_name : ExecutionId → Option (Remap V) → ExecutionName
    target_name i none = (frame i).name
    target_name i (some remap) = remap.target.name

    abbrev pub target_scope :
        Option ExecutionId
        → Execution
        → Option (Remap V)
        → CanonicalArguments
        → ExecutionSequenceScope
    target_scope new_parent e remap a = record {
      parent_id = new_parent;
      domain_id = (frame e.id).domain_id;
      name = target_name e.id remap;
      arguments_digest = digest a;
    }

    -- the body of the inner loop, from the arguments on
    unfoldable pub move :
        Option ExecutionId → Execution → Option (Remap V) → Rebuilding → Result Rebuilding
    unfolding arguments require_one_source_scope
    move new_parent e remap s = do
      let source_scope = from_execution_id e.id
      a ← memoized e remap (Dict.get s.arguments_by_source_scope source_scope)
      let scope = target_scope new_parent e remap a
      by_target ← require_one_source_scope s.source_scopes_by_target scope source_scope
      let new_id = id_in scope (frame e.id).sequence
      moved ← post_init (record e { id = new_id; arguments = a })
      ok (record {
        migrated = s.migrated ++ moved ∷ [];
        arguments_by_source_scope = Dict.set s.arguments_by_source_scope source_scope a;
        source_scopes_by_target = by_target;
        stack = (some e.id, some new_id) ∷ s.stack;
      })

    -- the body of the inner loop
    unfoldable pub visit_by :
        Option (Rule V) → Option ExecutionId → Execution → Rebuilding → Result Rebuilding
    unfolding move recorded
    visit_by none new_parent e s = move new_parent e none s
    visit_by (some (remap_rule remap)) new_parent e s = move new_parent e (some remap) s
    visit_by (some (drop_rule source)) new_parent e s = recorded e source >> ok s

    unfoldable pub visit : Option ExecutionId → List Execution → Rebuilding → Result Rebuilding
    unfolding visit_by
    visit new_parent [] s = ok s
    visit new_parent (e ∷ es) s =
        visit_by (rule_for plan (frame e.id).domain_id (frame e.id).name) new_parent e s
        >>= visit new_parent es

    -- one turn of the outer loop, once its top is off the stack
    unfoldable pub round :
        Children → Option ExecutionId × Option ExecutionId → Rebuilding → Result Rebuilding
    unfolding visit
    round children top s = visit (top.1) (sorted by_sequence (listed (Dict.get children (top.0)))) s

    -- the outer loop; `none` where the fuel runs out
    unfoldable pub rebuild_loop : ℕ → Children → Rebuilding → Option (Result (List Execution))
    unfolding round
    rebuild_loop zero children s = elim s.stack [ [] ↦ some (ok s.migrated) | _ ∷ _ ↦ none ]
    rebuild_loop (suc fuel) children s = elim s.stack [
      | [] ↦ some (ok s.migrated)
      | top ∷ rest ↦
          and_then (round children top (record s { stack = rest })) (rebuild_loop fuel children)
    ]

    abbrev pub first_round : Rebuilding
    first_round = record {
      migrated = [];
      arguments_by_source_scope = [];
      source_scopes_by_target = [];
      stack = (none, none) ∷ [];
    }

    -- _rebuild, with a round for each execution and one for the root
    unfoldable pub rebuild : StoredSession → Option (Result (List Execution))
    unfolding rebuild_loop children_by_parent
    rebuild source =
        and_then (children_by_parent source.executions)
          (λ children. rebuild_loop (suc (length source.executions)) children first_round)

    -- _require_source_versions
    unfoldable pub require_source_versions : Dict DomainId DomainVersion → Result (Unit {0})
    require_source_versions recorded_versions = elim (Dict.get recorded_versions plan.domain_id) [
      | none ↦ err migration
      | some version ↦ require (version == plan.source_version) migration
    ]

    -- migrate
    unfoldable pub run_plan : StoredSession → Option (Result StoredSession)
    unfolding rebuild require_source_versions
    run_plan source = and_then (require_source_versions source.metadata.domain_versions) (λ _.
        and_then_some (rebuild source) (λ executions.
          executions
          >>= stored_session (record {
            domain_versions =
                replacing source.metadata.domain_versions plan.domain_id plan.target_version;
          })))
