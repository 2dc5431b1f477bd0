-- ===== src/Sqlite/Migrating.antt =====
-- SQLiteSessionMigration of packages/glyff-sqlite/src/glyff_sqlite/_sqlite_migration.py.
pub mod Run
use glyff.Prelude.{Text, Option, none, some, List, [], ◌∷◌}
use glyff.Types.{SessionId, DomainId, DomainVersion}
use glyff.Result.{Result, ok, err, ◌>>=◌, migration}
use glyff.Json.{Platform}
use glyff.Dict.{Dict}
use glyff.Execution.{Execution}
use glyff.Path.{path_to_execution_id}
use glyff.Codec.{JsonText}
use glyff.Migration.Session.{StoredSession, SessionMetadata, stored_session}
use glyff.Sqlite.Rows.{
  ExecutionRecord, Tables, record_to_execution, read_session_executions, read_domain_versions,
}

abbrev pub some_version : Dict DomainId DomainVersion → Result (Dict DomainId DomainVersion)
some_version [] = err migration
some_version (v ∷ versions) = ok (v ∷ versions)

module _ ⦃j : JsonText⦄ ⦃p : Platform⦄ where
  abbrev pub executions_of : List (Text × ExecutionRecord) → Result (List Execution)
  executions_of [] = ok []
  executions_of ((path, r) ∷ rows) = path_to_execution_id path >>= λ i.
      record_to_execution i r >>= λ e. executions_of rows >>= λ es. ok (e ∷ es)

  -- SQLiteSessionMigration._read
  unfoldable pub read_session : Tables → Text → Result StoredSession
  read_session t session_id = read_domain_versions t session_id >>= λ versions.
      some_version versions >>= λ domain_versions.
      executions_of (read_session_executions t session_id)
      >>= stored_session (record { domain_versions = domain_versions })
