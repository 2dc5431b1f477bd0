-- ===== src/Tests/Migrations.antt =====
-- A session of two records, and the transition that renames their function.
use glyff.Prelude.{
  Text, Bytes, none, some, [], ◌∷◌, codes, ◌≡◌, refl, arith, length, Bool-cases, inl, inr, ◌==◌,
  List, ap, ◌∙◌, sym,
}
use mathlib.Core.List.{Memᴰ}
use glyff.Types.{
  ExecutionName, Frame, DomainId, DomainVersion, top, child, domain_version_eq, from_execution_id,
  DomainVersion-beq_iff,
}
use glyff.Result.{Result, ok}
use glyff.Dict
use glyff.Dict.{Dict}
use glyff.Arguments.{CanonicalArguments, decode, restore_fields, digest}
use glyff.Execution.{Execution, post_init}
use glyff.Migration.Session.{
  SessionMetadata, StoredSession, stored_session, require_unique, is_covered, domains_in,
}
use glyff.Migration.Session.Accepts.{Built, stored_session_lem}
use glyff.Migration.Rules.{
  ExecutionShape, DomainVersionTransition, remap_rule, same_names, rule_for,
}
use glyff.Migration.Runner.{
  run_plan, rebuild, rebuild_loop, children_by_parent, add_children, round, visit, visit_by, move,
  arguments, recorded, require_one_source_scope, require_source_versions,
}
use glyff.Types.Checks.{replacing}
use glyff.Migration.Runner.Runs.{IsStorable}
use glyff.Migration.Runner.Contents.{Origin}
use glyff.Migration.Runner.Origins.{run_plan-Origin}
use glyff.Migration.Runner.Kept.{DropsNone, length-run_plan}
use glyff.Migration.Chain.{DomainMigration, transition, migrate}
use glyff.Migration.Chain.Acyclic.{stop, IsAcyclic, Outcome, transition_lem}
use glyff.Migration.Chain.Arrival.{OwnsTransitions, Arrived, migrate_ends}
use glyff.Tests.Data.{test_platform, a_frame, some_arguments, a_completed, a_started}

abbrev billing : DomainId
billing = a_frame.domain_id

abbrev v1 : DomainVersion
v1 = record { value = codes "v1" }

abbrev v2 : DomainVersion
v2 = record { value = codes "v2" }

abbrev renamed_name : ExecutionName
renamed_name = record { value = codes "Job/run" }

abbrev before : ExecutionShape
before = record { name = a_frame.name; argument_names = codes "x" ∷ [] }

abbrev after : ExecutionShape
after = record { name = renamed_name; argument_names = codes "x" ∷ [] }

abbrev rename : DomainVersionTransition Bytes
rename = record {
  domain_id = billing;
  source_version = v1;
  target_version = v2;
  rules =
      (
        a_frame.name,
        remap_rule (record { source = before; target = after; convert_arguments = none }),
      )
      ∷ [];
}

abbrev canonicalize : Dict Text Bytes → Result CanonicalArguments
canonicalize d = ok some_arguments

abbrev metadata : SessionMetadata
metadata = record { domain_versions = (billing, v1) ∷ [] }

abbrev outer_call : Execution
outer_call = record a_started { id = top a_frame }

abbrev records : List Execution
records = a_completed ∷ outer_call ∷ []

abbrev source : StoredSession
source = record { metadata = metadata; executions = records }

accepted : stored_session metadata records ≡ ok source
unfolding stored_session Dict.get require_unique is_covered domains_in
accepted = refl

stored_session_lem_example : Built metadata records (stored_session metadata records)
stored_session_lem_example = stored_session_lem metadata records

source-IsStorable : IsStorable source
source-IsStorable =
    let (same, unique, covered) = rw accepted at (stored_session_lem metadata records) in
    (unique, covered)

abbrev new_frame : Frame
new_frame = record a_frame { name = renamed_name }

abbrev result : StoredSession
result = record {
  metadata = record { domain_versions = (billing, v2) ∷ [] };
  executions =
      record outer_call { id = top new_frame }
      ∷ record a_completed { id = child (top new_frame) new_frame }
      ∷ [];
}

ran : run_plan rename canonicalize source ≡ some (ok result)
unfolding run_plan rebuild rebuild_loop children_by_parent add_children round visit visit_by move
    arguments recorded require_one_source_scope require_source_versions replacing stored_session
    require_unique is_covered domains_in rule_for same_names decode restore_fields from_execution_id
    post_init digest Dict.get Dict.set
ran = refl

run_plan-Origin_example :
    Origin rename canonicalize records (record outer_call { id = top new_frame })
run_plan-Origin_example =
    run_plan-Origin rename canonicalize source result ran (record outer_call { id = top new_frame })
      (Memᴰ.head refl)

keeps : DropsNone rename canonicalize records
unfolding rule_for Dict.get
keeps e m = ground arith

length-run_plan_example : length result.executions ≡ length source.executions
length-run_plan_example =
    length-run_plan rename canonicalize source result source-IsStorable.0 keeps ran

abbrev renaming : DomainMigration Bytes
renaming = record { domain_id = billing; target_version = v2; transitions = (v1, rename) ∷ [] }

owned : OwnsTransitions renaming
unfolding Dict.get
owned v t h = elim (Bool-cases (v1 == v)) [
  | inl same ↦
      let q : rename ≡ t = ground (arith, h, same) in
      (
        ap (λ x. x.domain_id) (sym q),
        ap (λ x. x.source_version) (sym q) ∙ (DomainVersion-beq_iff v1 v).0 same,
      )
  | inr other ↦ absurd (ground (arith, h, other))
]

migrate_ends_example :
    (r : Result StoredSession) × (migrate canonicalize renaming source ≡ some r)
    × Arrived renaming source r
migrate_ends_example = migrate_ends canonicalize renaming owned source source-IsStorable

abbrev unmigrated : DomainMigration Bytes
unmigrated = record { domain_id = billing; target_version = v2; transitions = [] }

no_transitions : IsAcyclic unmigrated.transitions
unfolding Dict.get
no_transitions v = stop refl

transition_lem_example :
    (r : Result (DomainMigration Bytes)) × (transition v1 v2 unmigrated ≡ some r)
    × Outcome unmigrated v1 v2 r
transition_lem_example = transition_lem unmigrated v1 v2 no_transitions
