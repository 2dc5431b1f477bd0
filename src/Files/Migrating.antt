-- ===== src/Files/Migrating.antt =====
-- FileSessionMigration of packages/glyff-file-store/src/glyff_file_store/_file_migration.py, with the
-- migrator as a function.
use glyff.Prelude.{Text, Bool, true, some, List, [], ◌∷◌, map, sorted, text_leb, list_eq, nat_eq}
use glyff.Types.{SessionId, DomainId, DomainVersion}
use glyff.Types.Checks.{domain_id, domain_version, domain_version_map}
use glyff.Result.{Result, ok, err, ◌>>=◌, migration}
use glyff.Exec.{Exec}
use glyff.Json.{Fields, Platform}
use glyff.Dict
use glyff.Dict.{Dict}
use glyff.Execution.{Execution}
use glyff.Path.{execution_id_to_path, path_to_execution_id}
use glyff.Codec.{JsonText, execution_to_dict, execution_from_dict}
use glyff.Migration.Session.{StoredSession, stored_session, MigrationReport, between}
use glyff.Files.Document.{
  Document, File, DocumentFile, Executions, or_empty, session_executions, versions_in,
}
use glyff.Files.Update.{DocumentUpdate, update_document}

abbrev pub versions_of : Dict Text Text → Result (List (DomainId × DomainVersion))
versions_of [] = ok []
versions_of ((d, v) ∷ rest) = domain_id d >>= λ domain.
    domain_version v >>= λ version. versions_of rest >>= λ later. ok ((domain, version) ∷ later)

abbrev pub some_version : Dict Text Text → Result (Dict Text Text)
some_version [] = err migration
some_version (v ∷ versions) = ok (v ∷ versions)

abbrev pub path_leb : Text × Fields → Text × Fields → Bool
path_leb a b = text_leb a.0 b.0

abbrev pub spelled : Dict DomainId DomainVersion → Dict Text Text
spelled versions = Dict.from_entries (map (λ entry. (entry.0.value, entry.1.value)) versions)

module _ ⦃j : JsonText⦄ ⦃p : Platform⦄ where
  abbrev pub executions_of : List (Text × Fields) → Result (List Execution)
  executions_of [] = ok []
  executions_of ((path, stored) ∷ rest) = path_to_execution_id path >>= λ i.
      execution_from_dict i stored >>= λ e. executions_of rest >>= λ es. ok (e ∷ es)

  -- FileSessionMigration._read
  unfoldable pub read_session : Document → Text → Result StoredSession
  read_session document session_id =
      some_version (versions_in document session_id)
      >>= versions_of
      >>= domain_version_map []
      >>= λ domain_versions.
          executions_of (sorted path_leb (session_executions document session_id))
          >>= stored_session (record { domain_versions = domain_versions })

  -- the executions of the replacement, under their paths
  unfoldable pub stored_executions : Executions → List Execution → Result Executions
  stored_executions stored [] = ok stored
  stored_executions stored (e ∷ es) = execution_id_to_path e.id >>= λ path.
      execution_to_dict e >>= λ fields. stored_executions (Dict.set stored path fields) es

  abbrev pub replaced :
      Document
      → Text
      → StoredSession
      → StoredSession
      → Executions
      → DocumentUpdate MigrationReport × Document
  replaced document session_id source replacement executions = (
    record { result = between source replacement; changed = true },
    record document {
      sessions = some (
          Dict.set (or_empty document.sessions) session_id (record {
            executions = some executions;
            domain_versions = some (spelled replacement.metadata.domain_versions);
          }));
    },
  )

  -- `migrate` of run
  unfoldable pub migrate :
      (StoredSession → Result StoredSession)
      → Text
      → Document
      → Result (DocumentUpdate MigrationReport × Document)
  unfolding read_session stored_executions
  migrate migrator session_id document = read_session document session_id >>= λ source.
      migrator source >>= λ replacement.
      stored_executions [] replacement.executions >>= λ executions.
      ok (replaced document session_id source replacement executions)

  -- FileSessionMigration.run
  unfoldable pub run :
      ⦃d : DocumentFile⦄
      → SessionId
      → (StoredSession → Result StoredSession)
      → Exec File MigrationReport
  unfolding update_document migrate
  run session_id migrator = update_document (migrate migrator session_id.value)
