-- ===== src/Files/Client.antt =====
-- The commits and the claims of FileClient
-- (packages/glyff-file-store/src/glyff_file_store/_file_client.py).
use glyff.Prelude.{Text, true, false, Option, none, some, [], ◌∷◌, list_eq, nat_eq}
use glyff.Types.{DomainId}
use glyff.Result.{Result, ok, ◌>>=◌}
use glyff.Exec.{Exec, pure}
use glyff.Json.{Platform}
use glyff.Dict
use glyff.Dict.{Dict}
use glyff.Execution.Snapshot.{to_execution}
use glyff.Staging.{ExecutionKey, ExecutionMutation, save_execution, delete_execution, Batch}
use glyff.Path.{execution_id_to_path}
use glyff.Codec.{JsonText, execution_to_dict}
use glyff.Files.Document.{
  SessionDocument, Document, Executions, File, DocumentFile, or_empty, session_or_empty,
  versions_in,
}
use glyff.Files.Update.{DocumentUpdate, update_document}

abbrev pub put_executions :
    Dict Text SessionDocument → Text → (Executions → Executions) → Dict Text SessionDocument
put_executions sessions session_id change =
    let session = session_or_empty (Dict.get sessions session_id) in
    Dict.set sessions session_id
      (record session { executions = some (change (or_empty session.executions)) })

module _ ⦃j : JsonText⦄ ⦃p : Platform⦄ where
  -- one turn of the loop of `apply`
  unfoldable pub apply_mutation :
      ExecutionKey
      → ExecutionMutation
      → Dict Text SessionDocument
      → Result (Dict Text SessionDocument)
  apply_mutation key delete_execution sessions = execution_id_to_path key.execution_id >>= λ path.
      ok (put_executions sessions key.session_id.value (λ executions. Dict.pop executions path))
  apply_mutation key (save_execution snapshot) sessions =
      execution_id_to_path key.execution_id >>= λ path. to_execution snapshot >>= λ e.
      execution_to_dict e >>= λ stored.
      ok (
        put_executions sessions key.session_id.value
          (λ executions. Dict.set executions path stored))

  unfoldable pub apply_mutations :
      Batch → Dict Text SessionDocument → Result (Dict Text SessionDocument)
  unfolding apply_mutation
  apply_mutations [] sessions = ok sessions
  apply_mutations ((key, mutation) ∷ rest) sessions =
      apply_mutation key mutation sessions >>= apply_mutations rest

  -- `apply` of commit_mutations
  abbrev pub apply : Batch → Document → Result (DocumentUpdate (Unit {0}) × Document)
  apply mutations document = apply_mutations mutations (or_empty document.sessions) >>= λ sessions.
      ok (record { result = tt; changed = true }, record document { sessions = some sessions })

  -- commit_mutations
  unfoldable pub commit_mutations : ⦃d : DocumentFile⦄ → Batch → Exec File (Unit {0})
  unfolding update_document apply_mutations
  commit_mutations [] = pure tt
  commit_mutations (m ∷ rest) = update_document (apply (m ∷ rest))

abbrev pub claimed :
    Document → Text → DomainId → Text → Option Text → DocumentUpdate Text × Document
claimed document session_id domain version (some recorded) =
    (record { result = recorded; changed = false }, document)
claimed document session_id domain version none =
    let sessions = or_empty document.sessions in
    let session = session_or_empty (Dict.get sessions session_id) in
    (
      record { result = version; changed = true },
      record document {
        sessions = some (
            Dict.set sessions session_id (record session {
              domain_versions =
                  some (Dict.set (or_empty session.domain_versions) domain.value version);
            }));
      },
    )

-- claim_domain
unfoldable pub claim_domain :
    ⦃j : JsonText⦄ → ⦃d : DocumentFile⦄ → Text → DomainId → Text → Exec File Text
unfolding update_document
claim_domain session_id domain version = update_document (λ document. ok (
    claimed document session_id domain version
      (Dict.get (versions_in document session_id) domain.value)))
