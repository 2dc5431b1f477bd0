-- ===== src/Files/Repository.antt =====
-- packages/glyff-file-store/src/glyff_file_store/_store.py: the repository and the backend of a file
-- store.
use glyff.Prelude.{
  ℕ, Text, Bool, Option, none, some, List, [], ◌∷◌, sorted, text_leb, if◌then◌else◌, ◌==◌, list_eq,
  nat_eq,
}
use glyff.Types.{SessionId, ExecutionId, DomainId, DomainVersion, session_id_eq}
use glyff.Types.Checks.{domain_version}
use glyff.Result.{Result, ok, ◌>>=◌}
use glyff.Exec.{Exec}
use glyff.Json.{Fields, Platform}
use glyff.Dict
use glyff.Dict.{Dict}
use glyff.Execution.{Execution, ExecutionStatus}
use glyff.Execution.Snapshot.{to_execution}
use glyff.Staging
use glyff.Staging.{ExecutionKey, ExecutionMutation, save_execution, delete_execution, Batch}
use glyff.Path.{execution_id_to_path, path_to_execution_id}
use glyff.Backend.{Backend}
use glyff.Store.{Store}
use glyff.Store.Client.{Client, backend_of}
use glyff.Memory.{starts_with, prefix_of, kept}
use glyff.Codec.{JsonText, execution_to_dict, execution_from_dict}
use glyff.Files.Document.{File, DocumentFile, Executions, read_committed_executions}
use glyff.Files.Client.{commit_mutations, claim_domain}

-- stage.snapshot() if stage else {}
abbrev pub staged_batch : {C : Type 0} → Store C → Option ℕ → Batch
staged_batch s none = []
staged_batch s (some i) = (s.staging.stages i).mutations

abbrev pub path_leb : Text × Fields → Text × Fields → Bool
path_leb a b = text_leb a.0 b.0

module _ ⦃j : JsonText⦄ ⦃p : Platform⦄ where
  abbrev pub revived : ExecutionId → Option Fields → Result (Option Execution)
  revived execution_id none = ok none
  revived execution_id (some stored) = execution_from_dict execution_id stored >>= λ e. ok (some e)

  -- FileExecutionRepository.get, past the stage
  unfoldable pub read_committed :
      ⦃d : DocumentFile⦄ → SessionId → ExecutionId → Exec File (Option Execution)
  read_committed session_id execution_id file = (
    (do
      executions ← read_committed_executions file session_id.value
      path ← execution_id_to_path execution_id
      revived execution_id (Dict.get executions path)),
    file,
  )

  abbrev pub overlaid : Executions → Text → ExecutionMutation → Result Executions
  overlaid visible path (save_execution snapshot) = to_execution snapshot >>= λ e.
      execution_to_dict e >>= λ stored. ok (Dict.set visible path stored)
  overlaid visible path delete_execution = ok (Dict.pop visible path)

  -- the loop over the stage's snapshot
  unfoldable pub overlay_staged : SessionId → Batch → Executions → Result Executions
  overlay_staged session_id [] visible = ok visible
  overlay_staged session_id ((key, m) ∷ rest) visible =
      let own = execution_id_to_path key.execution_id >>= λ path.
      overlaid visible path m >>= overlay_staged session_id rest in
      let other = overlay_staged session_id rest visible in
      if key.session_id == session_id then own else other

  -- the last loop, over the sorted paths
  unfoldable pub yielded :
      Text → Option ExecutionStatus → List (Text × Fields) → Result (List Execution)
  yielded prefix status [] = ok []
  yielded prefix status ((path, stored) ∷ rest) =
      let later = yielded prefix status rest in
      let own = path_to_execution_id path >>= λ i.
      execution_from_dict i stored >>= λ e. later >>= λ es. ok (kept status e es) in
      if starts_with prefix path then own else later

  -- FileExecutionRepository.executions, as the list of all that it yields
  unfoldable pub executions :
      ⦃d : DocumentFile⦄
      → SessionId
      → Option ExecutionStatus
      → Option ExecutionId
      → Exec (Store File) (List Execution)
  unfolding overlay_staged yielded
  executions session_id status under s = (
    (do
      prefix ← prefix_of under
      committed ← read_committed_executions s.client session_id.value
      visible ← overlay_staged session_id (staged_batch s (Staging.open_of s.staging)) committed
      yielded prefix status (sorted path_leb visible)),
    s,
  )

  -- JsonFileBackend.claim_domain
  unfoldable pub claim :
      ⦃d : DocumentFile⦄ → SessionId → DomainId → DomainVersion → Exec File DomainVersion
  claim session_id domain version file =
      let done = claim_domain session_id.value domain version.value file in
      (done.0 >>= domain_version, done.1)

  abbrev pub file_client : ⦃d : DocumentFile⦄ → Client File
  file_client = record {
    read_committed = read_committed;
    commit_mutations = commit_mutations;
    claim_domain = claim;
  }

  -- JsonFileBackend
  abbrev pub file_backend : ⦃d : DocumentFile⦄ → Backend (Store File)
  file_backend = backend_of file_client executions
