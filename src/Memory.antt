-- ===== src/Memory.antt =====
-- packages/glyff/src/glyff/store/_memory.py and _memory_client.py: the in-memory backend.
pub mod Faithful
use glyff.Prelude.{
  ℕ, Bool, true, false, Option, none, some, List, [], ◌∷◌, ◌++◌, map, Text, text_leb, sorted,
  if◌then◌else◌, ◌==◌, ◌&&◌, ◌||◌, list_eq, nat_eq, pair_eq, nat_beq,
}
use glyff.Types.{SessionId, ExecutionId, DomainId, DomainVersion, session_id_eq}
use glyff.Result.{Result, ok, err, ◌>>=◌, ◌>>◌}
use glyff.Exec.{Exec, pure, lift}
use glyff.Json.{Platform}
use glyff.Dict
use glyff.Dict.{Dict}
use glyff.Execution.{Execution, ExecutionStatus, started, completed}
use glyff.Execution.Snapshot.{ExecutionSnapshot, to_execution}
use glyff.Staging
use glyff.Staging.{ExecutionKey, ExecutionMutation, save_execution, delete_execution, Batch, key_eq}
use glyff.Backend.{Backend, revive, key_of}
use glyff.Store.{Store}
use glyff.Store.Client.{Client, backend_of}
use glyff.Path.{execution_id_to_path}

-- MemoryClient._data, and MemoryBackend._domain_versions
pub record MemoryState : Type 0 where
  pub committed : Dict ExecutionKey ExecutionSnapshot
  pub domain_versions : Dict (Text × Text) DomainVersion

abbrev pub empty_state : MemoryState
empty_state = record { committed = []; domain_versions = [] }

-- one turn of the loop of MemoryClient.commit_mutations
abbrev pub apply_mutation :
    Dict ExecutionKey ExecutionSnapshot
    → ExecutionKey
    → ExecutionMutation
    → Dict ExecutionKey ExecutionSnapshot
apply_mutation d key delete_execution = Dict.pop d key
apply_mutation d key (save_execution snapshot) = Dict.set d key snapshot

unfoldable pub apply_mutations :
    Dict ExecutionKey ExecutionSnapshot → Batch → Dict ExecutionKey ExecutionSnapshot
apply_mutations d [] = d
apply_mutations d ((key, m) ∷ rest) = apply_mutations (apply_mutation d key m) rest

-- MemoryClient.commit_mutations
unfoldable pub commit_mutations : Batch → Exec MemoryState (Unit {0})
commit_mutations mutations s =
    (ok tt, record s { committed = apply_mutations s.committed mutations })

-- MemoryClient.read_committed
unfoldable pub read_committed : MemoryState → ExecutionKey → Option ExecutionSnapshot
read_committed s key = Dict.get s.committed key

-- the entries of MemoryClient.committed_for_session
unfoldable pub committed_for_session :
    Dict ExecutionKey ExecutionSnapshot → SessionId → List (ExecutionId × ExecutionSnapshot)
committed_for_session [] session_id = []
committed_for_session ((key, snapshot) ∷ d) session_id =
    let rest = committed_for_session d session_id in
    if key.session_id == session_id then (key.execution_id, snapshot) ∷ rest else rest

-- MemoryBackend.claim_domain
unfoldable pub claim_domain : SessionId → DomainId → DomainVersion → Exec MemoryState DomainVersion
claim_domain session_id domain_id version s =
    elim (Dict.get s.domain_versions (session_id.value, domain_id.value)) [
      | some recorded ↦ (ok recorded, s)
      | none ↦ (
        ok version,
        record s {
          domain_versions = Dict.set s.domain_versions (session_id.value, domain_id.value) version;
        },
      )
    ]

abbrev pub starts_with : Text → Text → Bool
starts_with [] cs = true
starts_with (p ∷ ps) [] = false
starts_with (p ∷ ps) (c ∷ cs) = nat_beq p c && starts_with ps cs

abbrev pub status_beq : ExecutionStatus → ExecutionStatus → Bool
status_beq started started = true
status_beq completed completed = true
status_beq _ _ = false

-- status in (None, execution.status)
abbrev pub status_fits : Option ExecutionStatus → ExecutionStatus → Bool
status_fits none s = true
status_fits (some wanted) s = status_beq wanted s

-- execution_id_to_path(under) + "/", or ""
unfoldable pub prefix_of : Option ExecutionId → Result Text
prefix_of none = ok []
prefix_of (some e) = execution_id_to_path e >>= λ path. ok (path ++ b'/' ∷ [])

-- `visible` before the overlay
unfoldable pub committed_by_path :
    List (ExecutionId × ExecutionSnapshot)
    → Dict Text ExecutionSnapshot
    → Result (Dict Text ExecutionSnapshot)
committed_by_path [] visible = ok visible
committed_by_path ((e, snapshot) ∷ rest) visible =
    execution_id_to_path e >>= λ path. committed_by_path rest (Dict.set visible path snapshot)

abbrev pub overlaid :
    Dict Text ExecutionSnapshot → Text → ExecutionMutation → Dict Text ExecutionSnapshot
overlaid visible path (save_execution snapshot) = Dict.set visible path snapshot
overlaid visible path delete_execution = Dict.pop visible path

-- the loop over the stage's snapshot
unfoldable pub overlay_staged :
    SessionId → Batch → Dict Text ExecutionSnapshot → Result (Dict Text ExecutionSnapshot)
overlay_staged session_id [] visible = ok visible
overlay_staged session_id ((key, m) ∷ rest) visible =
    let own = execution_id_to_path key.execution_id >>= λ path.
    overlay_staged session_id rest (overlaid visible path m) in
    let other = overlay_staged session_id rest visible in
    if key.session_id == session_id then own else other

-- stage.snapshot() if stage else {}
abbrev pub staged_batch : Store MemoryState → Option ℕ → Batch
staged_batch s none = []
staged_batch s (some i) = (s.staging.stages i).mutations

module _ ⦃p : Platform⦄ where
  -- what the last loop yields for one path
  abbrev pub kept : Option ExecutionStatus → Execution → List Execution → List Execution
  kept status e es = if status_fits status e.status then e ∷ es else es

  -- the last loop, over the sorted paths
  unfoldable pub yielded :
      Text → Option ExecutionStatus → List (Text × ExecutionSnapshot) → Result (List Execution)
  yielded prefix status [] = ok []
  yielded prefix status ((path, snapshot) ∷ rest) =
      let later = yielded prefix status rest in
      if starts_with prefix path
      then (to_execution snapshot >>= λ e. later >>= λ es. ok (kept status e es))
      else later

  abbrev pub path_leb : Text × ExecutionSnapshot → Text × ExecutionSnapshot → Bool
  path_leb a b = text_leb a.0 b.0

  -- MemoryExecutionRepository.executions, as the list of all that it yields
  unfoldable pub executions :
      SessionId
      → Option ExecutionStatus
      → Option ExecutionId
      → Exec (Store MemoryState) (List Execution)
  unfolding prefix_of committed_by_path overlay_staged yielded committed_for_session Staging.open_of
  executions session_id status under s = (
    (do
      prefix ← prefix_of under
      visible ← committed_by_path (committed_for_session s.client.committed session_id) []
      everything ← overlay_staged session_id (staged_batch s (Staging.open_of s.staging)) visible
      yielded prefix status (sorted path_leb everything)),
    s,
  )

  abbrev pub memory_client : Client MemoryState
  memory_client = record {
    read_committed = λ session_id execution_id s.
        (revive (read_committed s (key_of session_id execution_id)), s);
    commit_mutations = commit_mutations;
    claim_domain = claim_domain;
  }

  abbrev pub memory_backend : Backend (Store MemoryState)
  memory_backend = backend_of memory_client executions
