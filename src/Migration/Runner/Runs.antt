-- ===== src/Migration/Runner/Runs.antt =====
-- About a transition's run on a session: what it takes and what it leaves.
use glyff.Prelude.{some, List, Text, ◌≡◌, refl, ◌==◌, Option-cases, Bool-cases, inl, inr, ◌⊎◌}
use glyff.Types.{DomainId, DomainVersion, domain_id_eq, domain_version_eq, DomainVersion-beq_iff}
use glyff.Types.Checks.{replacing}
use glyff.Result.{Result, ok, err, migration, Result-cases}
use glyff.Json.{Platform}
use glyff.Dict
use glyff.Dict.{Dict}
use glyff.Arguments.{CanonicalArguments}
use glyff.Execution.{Execution}
use glyff.Migration.Ids.{HaveUniqueIds}
use glyff.Migration.Session.{StoredSession, SessionMetadata, stored_session}
use glyff.Migration.Session.Accepts.{IsCovered, stored_session_lem}
use glyff.Migration.Rules.{DomainVersionTransition}
use glyff.Migration.Runner.{rebuild, require_source_versions, run_plan}
use glyff.Migration.Runner.Rounds.{rebuild_ends}

-- A session that passes the checks of a stored session.
abbrev pub IsStorable : StoredSession → Type 0
IsStorable s = HaveUniqueIds s.executions × IsCovered s.metadata.domain_versions s.executions

abbrev pub versions : StoredSession → Dict DomainId DomainVersion
versions s = s.metadata.domain_versions

module _ ⦃p : Platform⦄ {V : Type 0} (plan : DomainVersionTransition V)
    (canonicalize : Dict Text V → Result CanonicalArguments) where
  -- What a run leaves where it does not raise.
  abbrev pub Ran : StoredSession → Result StoredSession → Type 0
  Ran source (err e) = Unit
  Ran source (ok s) =
      (Dict.get (versions source) plan.domain_id ≡ some plan.source_version)
      × (versions s ≡ Dict.set (versions source) plan.domain_id plan.target_version)
      × IsStorable s

  built-Ran :
      (source : StoredSession) (es : List Execution)
      → Dict.get (versions source) plan.domain_id ≡ some plan.source_version
      → (let metadata : SessionMetadata = record {
        domain_versions = replacing (versions source) plan.domain_id plan.target_version;
      } in
          Ran source (stored_session metadata es))
  unfolding replacing
  built-Ran source es agreed =
      let metadata : SessionMetadata = record {
        domain_versions = replacing (versions source) plan.domain_id plan.target_version;
      } in
      elim (Result-cases (stored_session metadata es)) [
        | inr (e, raised) ↦ rw raised tt
        | inl (s, built) ↦
            let (same, unique, covered) = rw built at (stored_session_lem metadata es) in
            rw built (agreed, rw same refl, (rw same unique, rw same covered))
      ]

  require_source_versions_cases :
      (source : StoredSession)
      → ((require_source_versions plan canonicalize (versions source) ≡ ok tt)
          × (Dict.get (versions source) plan.domain_id ≡ some plan.source_version))
        ⊎ (require_source_versions plan canonicalize (versions source) ≡ err migration)
  unfolding require_source_versions
  require_source_versions_cases source =
      elim (Option-cases (Dict.get (versions source) plan.domain_id)) [
        | inl unrecorded ↦ inr (rw (require_source_versions, unrecorded) refl)
        | inr (v, known) ↦ elim (Bool-cases (v == plan.source_version)) [
          | inr other ↦ inr (rw (require_source_versions, known, other) refl)
          | inl same ↦ inl (
            rw (require_source_versions, known, same) refl,
            rw ((DomainVersion-beq_iff v plan.source_version).0 same) at known,
          )
        ]
      ]

  Ends : StoredSession → Type 0
  Ends source =
      (r : Result StoredSession) × (run_plan plan canonicalize source ≡ some r) × Ran source r

  rebuilt :
      (source : StoredSession)
      → require_source_versions plan canonicalize (versions source) ≡ ok tt
      → Dict.get (versions source) plan.domain_id ≡ some plan.source_version
      → (r : Result (List Execution)) → rebuild plan canonicalize source ≡ some r
      → Ends source
  unfolding run_plan Ends
  rebuilt source agreed version (err e) ends = (err e, rw agreed (rw ends refl), tt)
  rebuilt source agreed version (ok es) ends =
      (_, rw agreed (rw ends refl), built-Ran source es version)

  pub run_plan_ends :
      (source : StoredSession)
      → HaveUniqueIds source.executions
      → (r : Result StoredSession) × (run_plan plan canonicalize source ≡ some r) × Ran source r
  unfolding run_plan Ends
  run_plan_ends source unique = elim (require_source_versions_cases source) [
    | inr raised ↦ (err migration, rw raised refl, tt)
    | inl (agreed, version) ↦
        let (r, ends) = rebuild_ends plan canonicalize source unique in
        rebuilt source agreed version r ends
  ]
