-- ===== src/Sqlite/Repository.antt =====
-- packages/glyff-sqlite/src/glyff_sqlite/_sqlite_store.py: the repository and the backend of a SQLite
-- store.
use glyff.Prelude.{
  ℕ, Text, Bool, Option, none, some, List, [], ◌∷◌, ◌++◌, sorted, text_leb, if◌then◌else◌, ◌==◌,
  list_eq, nat_eq,
}
use glyff.Types.{SessionId, ExecutionId, DomainId, DomainVersion, session_id_eq}
use glyff.Types.Checks.{domain_version}
use glyff.Result.{Result, ok, ◌>>=◌}
use glyff.Exec.{Exec}
use glyff.Json.{Platform}
use glyff.Dict
use glyff.Dict.{Dict}
use glyff.Execution.{Execution, ExecutionStatus}
use glyff.Execution.Snapshot.{to_execution}
use glyff.Staging
use glyff.Staging.{ExecutionKey, ExecutionMutation, save_execution, delete_execution, Batch}
use glyff.Path.{execution_id_to_path, path_to_execution_id}
use glyff.Backend.{Backend}
use glyff.Store.{Store}
use glyff.Store.Client.{Client, backend_of}
use glyff.Memory.{starts_with, prefix_of, status_fits}
use glyff.Codec.{JsonText}
use glyff.Sqlite.Rows.{ExecutionRecord, Tables, text_ltb, select_range, record_to_execution}
use glyff.Sqlite.Rows as Rows
use glyff.Sqlite.Statements.{Engine}
use glyff.Sqlite.Client.{commit_mutations, claim_domain}

-- stage.snapshot() if stage else {}
abbrev pub staged_batch : {C : Type 0} → Store C → Option ℕ → Batch
staged_batch s none = []
staged_batch s (some i) = (s.staging.stages i).mutations

-- the loop of _staged_for
unfoldable pub staged_for :
    SessionId → Text → Batch → Dict Text ExecutionMutation → Result (Dict Text ExecutionMutation)
staged_for session_id prefix [] staged = ok staged
staged_for session_id prefix ((key, m) ∷ rest) staged =
    let own = execution_id_to_path key.execution_id >>= λ path.
    staged_for session_id prefix rest
      (if starts_with prefix path then Dict.set staged path m else staged) in
    let other = staged_for session_id prefix rest staged in
    if key.session_id == session_id then own else other

abbrev pub Staged : Type 0
Staged = List (Text × ExecutionMutation)

abbrev pub staged_leb : Text × ExecutionMutation → Text × ExecutionMutation → Bool
staged_leb a b = text_leb a.0 b.0

-- the staged paths before one, and the others
abbrev pub before : Text → Staged → Staged
before path [] = []
before path ((q, m) ∷ staged) = if text_ltb q path then (q, m) ∷ before path staged else []

abbrev pub from : Text → Staged → Staged
from path [] = []
from path ((q, m) ∷ staged) = if text_ltb q path then from path staged else (q, m) ∷ staged

-- the mutation of the path, if it is the next one, and what is left then
abbrev pub next_at : Text → Staged → Option ExecutionMutation
next_at path [] = none
next_at path ((q, m) ∷ staged) = if q == path then some m else none

abbrev pub past : Text → Staged → Staged
past path [] = []
past path ((q, m) ∷ staged) = if q == path then staged else (q, m) ∷ staged

-- if status in (None, execution.status): yield execution
abbrev pub yield_if : Option ExecutionStatus → Option Execution → List Execution → List Execution
yield_if status none later = later
yield_if status (some e) later = if status_fits status e.status then e ∷ later else later

module _ ⦃j : JsonText⦄ ⦃p : Platform⦄ where
  -- _staged_execution
  unfoldable pub staged_execution : ExecutionMutation → Result (Option Execution)
  staged_execution (save_execution snapshot) = to_execution snapshot >>= λ e. ok (some e)
  staged_execution delete_execution = ok none

  -- what the staged paths yield
  unfoldable pub yield_staged : Option ExecutionStatus → Staged → Result (List Execution)
  unfolding staged_execution
  yield_staged status [] = ok []
  yield_staged status ((path, m) ∷ staged) = staged_execution m >>= λ found.
      yield_staged status staged >>= λ later. ok (yield_if status found later)

  -- a row, or the mutation that is staged at its path
  abbrev pub overlaid :
      Text → ExecutionRecord → Option ExecutionMutation → Result (Option Execution)
  overlaid path r (some m) = staged_execution m
  overlaid path r none =
      path_to_execution_id path >>= λ i. record_to_execution i r >>= λ e. ok (some e)

  -- the loop over the rows, and the staged paths that are left after it
  unfoldable pub merged :
      Option ExecutionStatus → Staged → List (Text × ExecutionRecord) → Result (List Execution)
  unfolding yield_staged
  merged status staged [] = yield_staged status staged
  merged status staged ((path, r) ∷ rows) = yield_staged status (before path staged) >>= λ earlier.
      overlaid path r (next_at path (from path staged)) >>= λ found.
      merged status (past path (from path staged)) rows >>= λ later.
      ok (earlier ++ yield_if status found later)

  -- SQLiteExecutionRepository.executions, as the list of all that it yields
  unfoldable pub executions :
      SessionId → Option ExecutionStatus → Option ExecutionId → Exec (Store Tables) (List Execution)
  unfolding staged_for merged
  executions session_id status under s = (
    (do
      prefix ← prefix_of under
      staged ← staged_for session_id prefix (staged_batch s (Staging.open_of s.staging)) []
      rows ← select_range s.client session_id.value prefix
      merged status (sorted staged_leb staged) rows),
    s,
  )

  abbrev pub revived : ExecutionId → Option ExecutionRecord → Result (Option Execution)
  revived execution_id none = ok none
  revived execution_id (some r) = record_to_execution execution_id r >>= λ e. ok (some e)

  -- SQLiteExecutionRepository.get, past the stage
  unfoldable pub read_committed : SessionId → ExecutionId → Exec Tables (Option Execution)
  read_committed session_id execution_id t = (
    (do
      path ← execution_id_to_path execution_id
      revived execution_id (Rows.read_committed t session_id.value path)),
    t,
  )

  -- SQLiteBackend.claim_domain
  unfoldable pub claim :
      ⦃engine : Engine⦄ → SessionId → DomainId → DomainVersion → Exec Tables DomainVersion
  claim session_id domain version t =
      let done = claim_domain session_id.value domain version.value t in
      (done.0 >>= domain_version, done.1)

  abbrev pub sqlite_client : ⦃engine : Engine⦄ → Client Tables
  sqlite_client = record {
    read_committed = read_committed;
    commit_mutations = commit_mutations;
    claim_domain = claim;
  }

  -- SQLiteBackend
  abbrev pub sqlite_backend : ⦃engine : Engine⦄ → Backend (Store Tables)
  sqlite_backend = backend_of sqlite_client executions
