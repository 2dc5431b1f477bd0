-- ===== src/Store.antt =====
-- What the backends share: a client that holds the committed records, the staging area, and the
-- transaction objects that move one into the other. The clauses are those of
-- packages/glyff/src/glyff/store/_memory.py; the other packages repeat them.
pub mod Chain
pub mod Applied
pub mod Client
pub mod Laws
pub mod Refines
use glyff.Prelude.{
  ℕ, suc, Bool, true, false, Option, none, some, List, [], ◌∷◌, ◌≡◌, if◌then◌else◌, ◌==◌, nat_eq,
}
use glyff.Types.{SessionId, ExecutionId, DomainId, DomainVersion}
use glyff.Result.{Result, ok, err, runtime_error}
use glyff.Exec.{Exec, pure, raise, lift, put, ◌>>=◌, ◌>>◌}
use glyff.Json.{Platform}
use glyff.Execution.{Execution}
use glyff.Execution.Snapshot.{ExecutionSnapshot, to_execution}
use glyff.Staging
use glyff.Staging.{
  ExecutionKey, ExecutionMutation, save_execution, delete_execution, Batch, ExecutionStaging,
  update,
}
use glyff.Backend.{revive, key_of}

pub record Transaction : Type 0 where
  pub stage : Option ℕ
  pub closed : Bool

abbrev pub new_transaction : Transaction
new_transaction = record { stage = none; closed = false }

pub record Store (C : Type 0) : Type 0 where
  pub client : C
  pub staging : ExecutionStaging
  pub transactions : ℕ → Transaction
  pub next_transaction : ℕ

module _ ⦃p : Platform⦄ where
  abbrev pub revive_mutation : ExecutionMutation → Result (Option Execution)
  revive_mutation (save_execution snapshot) = revive (some snapshot)
  revive_mutation delete_execution = ok none

abbrev pub delete_each : ℕ → SessionId → List ExecutionId → Exec ExecutionStaging (Unit {0})
delete_each i session_id [] = pure tt
delete_each i session_id (e ∷ es) = do Staging.delete i session_id e; delete_each i session_id es

module _ {C : Type 0} where
  abbrev pub new_store : C → Store C
  new_store c = record {
    client = c;
    staging = Staging.new_staging;
    transactions = λ t. new_transaction;
    next_transaction = 0;
  }

  module _ {A : Type 0} where
    -- a call of the staging area, and of the client
    abbrev pub in_staging : Exec ExecutionStaging A → Exec (Store C) A
    in_staging m s = ((m s.staging).0, record s { staging = (m s.staging).1 })

    abbrev pub in_client : Exec C A → Exec (Store C) A
    in_client m s = ((m s.client).0, record s { client = (m s.client).1 })

  abbrev pub set_transaction : ℕ → Transaction → Exec (Store C) (Unit {0})
  set_transaction t x s = put (record s { transactions = update s.transactions t x }) s

  abbrev pub require_stage : Option ℕ → Exec (Store C) ℕ
  require_stage none = raise runtime_error
  require_stage (some i) = pure i

  abbrev pub make_transaction : Exec (Store C) ℕ
  make_transaction s = (
    ok s.next_transaction,
    record s {
      transactions = update s.transactions s.next_transaction new_transaction;
      next_transaction = suc s.next_transaction;
    },
  )

  -- ExecutionStage.batch
  abbrev pub batch_of : ℕ → Exec (Store C) Batch
  batch_of i s = elim ((s.staging.stages i).batch) [
    | none ↦ raise runtime_error s
    | some b ↦ pure b s
  ]

  -- TransactionProvider.begin_transaction: a new transaction, begun
  unfoldable pub begin_transaction : Exec (Store C) ℕ
  begin_transaction = do
    t ← make_transaction
    i ← in_staging Staging.begin
    set_transaction t (record { stage = some i; closed = false })
    pure t

  -- Transaction.commit
  unfoldable pub commit : (Batch → Exec C (Unit {0})) → ℕ → Exec (Store C) (Unit {0})
  commit commit_mutations t s =
      if (s.transactions t).closed
      then pure tt s
      else (do
        i ← require_stage (s.transactions t).stage
        in_staging (Staging.close i)
        set_transaction t (record { stage = (s.transactions t).stage; closed = true })
        batch ← batch_of i
        in_client (commit_mutations batch))
          s

  -- Transaction.rollback
  unfoldable pub rollback : ℕ → Exec (Store C) (Unit {0})
  rollback t s =
      if (s.transactions t).closed
      then pure tt s
      else (do
        i ← require_stage (s.transactions t).stage
        in_staging (Staging.close i)
        set_transaction t (record { stage = (s.transactions t).stage; closed = true }))
          s

  module _ ⦃p : Platform⦄ where
    -- what the innermost stage says of a record
    abbrev pub staged : Store C → ExecutionKey → Option ExecutionMutation
    staged s key = elim (Staging.open_of s.staging) [
      | none ↦ none
      | some i ↦ Staging.lookup s.staging i key
    ]

    abbrev pub read_through :
        Option ExecutionMutation
        → Exec (Store C) (Option Execution)
        → Exec (Store C) (Option Execution)
    read_through none committed = committed
    read_through (some m) committed = lift (revive_mutation m)

    -- ExecutionRepository.get
    unfoldable pub get :
        (SessionId → ExecutionId → Exec C (Option Execution))
        → SessionId
        → ExecutionId
        → Exec (Store C) (Option Execution)
    get read_committed session_id execution_id s =
        read_through (staged s (key_of session_id execution_id))
          (in_client (read_committed session_id execution_id)) s

  -- ExecutionRepository.save
  unfoldable pub save : SessionId → Execution → Exec (Store C) (Unit {0})
  save session_id execution =
      in_staging (do i ← Staging.require_current; Staging.save i session_id execution)

  -- ExecutionRepository.delete_many
  unfoldable pub delete_many : SessionId → List ExecutionId → Exec (Store C) (Unit {0})
  delete_many session_id execution_ids =
      in_staging (do i ← Staging.require_current; delete_each i session_id execution_ids)
