-- ===== src/Sqlite/Migrating/Run.antt =====
-- `run` of SQLiteSessionMigration (packages/glyff-sqlite/src/glyff_sqlite/_sqlite_migration.py), with
-- the migrator as a function.
use glyff.Prelude.{Text, List, [], ◌∷◌}
use glyff.Types.{SessionId}
use glyff.Result.{Result}
use glyff.Exec.{Exec, pure, lift, ◌>>=◌, ◌>>◌}
use glyff.Json.{Platform}
use glyff.Execution.{Execution}
use glyff.Codec.{JsonText}
use glyff.Migration.Session.{StoredSession, MigrationReport, between}
use glyff.Sqlite.Rows.{Tables}
use glyff.Sqlite.Statements.{Engine}
use glyff.Sqlite.Transaction.{run_immediate}
use glyff.Sqlite.Client.{upsert_execution, delete_session_executions, replace_domain_versions}
use glyff.Sqlite.Migrating.{read_session}

module _ ⦃j : JsonText⦄ ⦃p : Platform⦄ where
  -- the loop over the executions of the replacement
  unfoldable pub upsert_all : ⦃engine : Engine⦄ → Text → List Execution → Exec Tables (Unit {0})
  unfolding upsert_execution
  upsert_all session_id [] = pure tt
  upsert_all session_id (e ∷ es) = do upsert_execution session_id e; upsert_all session_id es

  -- `migrate` of run
  unfoldable pub migrate :
      ⦃engine : Engine⦄
      → (StoredSession → Result StoredSession)
      → Text
      → Exec Tables MigrationReport
  unfolding upsert_all delete_session_executions replace_domain_versions
  migrate migrator session_id t =
      (do
        source ← lift (read_session t session_id)
        replacement ← lift (migrator source)
        delete_session_executions session_id
        upsert_all session_id replacement.executions
        replace_domain_versions session_id replacement.metadata.domain_versions
        pure (between source replacement))
        t

  -- SQLiteSessionMigration.run
  unfoldable pub run :
      ⦃engine : Engine⦄
      → SessionId
      → (StoredSession → Result StoredSession)
      → Exec Tables MigrationReport
  unfolding run_immediate migrate
  run session_id migrator = run_immediate (migrate migrator session_id.value)
