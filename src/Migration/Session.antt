-- ===== src/Migration/Session.antt =====
-- packages/glyff/src/glyff/migration/_models.py: a session as a store holds it.
pub mod Accepts
use glyff.Prelude.{Bool, true, false, List, [], ◌∷◌, ◌++◌, if◌then◌else◌, member, not}
use glyff.Types.{ExecutionId, top, child, DomainId, DomainVersion, domain_id_eq, execution_id_eq}
use glyff.Result.{Result, ok, err, ◌>>=◌, ◌>>◌, require, migration, migration_collision}
use glyff.Dict
use glyff.Dict.{Dict}
use glyff.Execution.{Execution}

pub record SessionMetadata : Type 0 where
  pub domain_versions : Dict DomainId DomainVersion

pub record StoredSession : Type 0 where
  pub metadata : SessionMetadata
  pub executions : List Execution

-- the first loop of StoredSession.__post_init__
unfoldable pub require_unique : List ExecutionId → List Execution → Result (Unit {0})
require_unique seen [] = ok tt
require_unique seen (e ∷ es) =
    require (not (member e.id seen)) migration_collision >> require_unique (e.id ∷ seen) es

-- _domains_in
unfoldable pub domains_in : ExecutionId → List DomainId
domains_in (top f) = f.domain_id ∷ []
domains_in (child p f) = f.domain_id ∷ domains_in p

abbrev pub all_recorded : Dict DomainId DomainVersion → List DomainId → Bool
all_recorded recorded [] = true
all_recorded recorded (d ∷ ds) = if Dict.has recorded d then all_recorded recorded ds else false

-- missing, of StoredSession.__post_init__: whether it is empty
unfoldable pub is_covered : Dict DomainId DomainVersion → List Execution → Bool
unfolding domains_in
is_covered recorded [] = true
is_covered recorded (e ∷ es) =
    if all_recorded recorded (domains_in e.id) then is_covered recorded es else false

-- StoredSession(metadata, executions)
unfoldable pub stored_session : SessionMetadata → List Execution → Result StoredSession
stored_session metadata executions = do
  require_unique [] executions
  require (is_covered metadata.domain_versions executions) migration
  ok (record { metadata = metadata; executions = executions })

pub record MigrationReport : Type 0 where
  pub source_domain_versions : Dict DomainId DomainVersion
  pub target_domain_versions : Dict DomainId DomainVersion

-- MigrationReport.between
pub between : StoredSession → StoredSession → MigrationReport
between source replacement = record {
  source_domain_versions = source.metadata.domain_versions;
  target_domain_versions = replacement.metadata.domain_versions;
}
