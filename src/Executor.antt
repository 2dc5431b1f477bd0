-- ===== src/Executor.antt =====
-- packages/glyff/src/glyff/_executor.py: one engraved call, from the cache check to its events.
pub mod Balance
pub mod Rules
pub mod Replay
pub mod Nesting
pub mod Started
pub mod Outcome
pub mod Fresh
use glyff.Prelude.{ℕ, Bool, true, false, Option, none, some, Text, Bytes, if◌then◌else◌, is_some}
use glyff.Types.{SessionId, ExecutionId}
use glyff.Result.{Error, Result, ok, err, is_exception, assertion_error, lookup_error}
use glyff.Exec.{Exec, pure, raise, lift, settle, ◌>>=◌, ◌>>◌}
use glyff.Json.{Platform}
use glyff.Arguments.{CanonicalArguments}
use glyff.Execution
use glyff.Execution.{Execution, SerializedValue, is_completed}
use glyff.Backend.{Backend}
use glyff.Sequencer.{reset_for_call}
use glyff.Session.{Context, in_store, in_sequencer}
use glyff.Session.Tracer
use glyff.Session.Scope.{TransactionScope, within, new_scope, aenter, aexit, is_raised}
use glyff.Events.{Event, execution_completed, execution_failed, HandlerMap, emit}

-- The Serializer of a session, for values `V` and type hints `T`.
pub record Serializer (V T : Type 0) : Type 0 where
  pub serialize : V → T → Result Bytes
  pub deserialize : Bytes → T → Result V

-- What a session's calls use and do not change.
pub record Services (S V T : Type 0) : Type 0 where
  pub session_id : SessionId
  pub backend : Backend S
  pub serializer : Serializer V T
  pub handlers : HandlerMap (Context S)

-- cached is not None and cached.status == COMPLETED
abbrev pub is_recorded : Option Execution → Bool
is_recorded none = false
is_recorded (some e) = is_completed e.status

module _ ⦃p : Platform⦄ {S V T : Type 0} (services : Services S V T) where
  open services use {session_id, backend, serializer, handlers}

  abbrev pub result_of : Option SerializedValue → T → Exec (Context S) V
  result_of none return_type = raise assertion_error
  result_of (some r) return_type = lift (serializer.deserialize r.data_bytes return_type)

  -- the recorded result of a completed call
  unfoldable pub return_recorded : Option Execution → T → Exec (Context S) V
  return_recorded none return_type = raise assertion_error
  return_recorded (some e) return_type = result_of e.result return_type

  abbrev pub save_if_absent :
      ExecutionId → CanonicalArguments → Option Execution → Exec (Context S) (Unit {0})
  save_if_absent execution_id arguments (some e) = pure tt
  save_if_absent execution_id arguments none = do
    e ← lift (Execution.start execution_id arguments)
    in_store (backend.save session_id e)

  -- START, in a transaction of its own
  unfoldable pub record_start : ExecutionId → CanonicalArguments → Exec (Context S) (Unit {0})
  record_start execution_id arguments = within backend (do
    in_sequencer (reset_for_call execution_id)
    found ← in_store (backend.get session_id execution_id)
    save_if_absent execution_id arguments found)

  abbrev pub present : Option Execution → Exec (Context S) Execution
  present none = raise lookup_error
  present (some e) = pure e

  -- COMPLETE: what follows the body in its transaction
  unfoldable pub record_completion : ExecutionId → T → V → Exec (Context S) V
  record_completion execution_id return_type result = do
    found ← in_store (backend.get session_id execution_id)
    e ← present found
    serialized ← lift (serializer.serialize result return_type)
    done ← lift (Execution.complete e (record { data_bytes = serialized }))
    in_store (backend.save session_id done)
    pure result

  -- the local variable `func_exception`
  abbrev pub noted : Result V → Option Error
  noted (ok v) = none
  noted (err e) = if is_exception e then some e else none

  abbrev pub after_body : ExecutionId → T → Result V → Exec (Context S) V
  after_body execution_id return_type (ok v) = record_completion execution_id return_type v
  after_body execution_id return_type (err e) = raise e

  -- the transaction around the body, once entered or not: how it ended, and `func_exception`
  abbrev pub around_body :
      ExecutionId
      → Exec (Context S) V
      → T
      → Result TransactionScope
      → Exec (Context S) (Result V × Option Error)
  around_body execution_id func return_type (err e) = pure (err e, none)
  around_body execution_id func return_type (ok scope) = settle func (λ r.
      settle
        (settle (after_body execution_id return_type r)
          (λ r'. do aexit backend scope (is_raised backend r'); lift r'))
        (λ ended. pure (ended, noted r)))

  unfoldable pub attempt :
      ExecutionId → Exec (Context S) V → T → Exec (Context S) (Result V × Option Error)
  attempt execution_id func return_type =
      settle (aenter backend new_scope) (around_body execution_id func return_type)

  abbrev pub emit_failure : ExecutionId → Option Error → Exec (Context S) (Unit {0})
  emit_failure execution_id none = pure tt
  emit_failure execution_id (some e) = emit handlers (execution_failed execution_id e)

  -- the events, and the result or the exception
  unfoldable pub conclude : ExecutionId → Result V → Option Error → Exec (Context S) V
  conclude execution_id (ok v) func_exception = do
    emit handlers (execution_completed execution_id)
    pure v
  conclude execution_id (err e) func_exception =
      if is_exception e then (do emit_failure execution_id func_exception; raise e) else raise e

  -- the call itself, once no recorded result was found
  unfoldable pub run_call :
      ExecutionId → CanonicalArguments → Exec (Context S) V → T → Exec (Context S) V
  unfolding record_start attempt conclude
  run_call execution_id arguments func return_type = do
    record_start execution_id arguments
    Tracer.start execution_id
    settle
        (do
          (ended, func_exception) ← attempt execution_id func return_type
          conclude execution_id ended func_exception)
        (λ r. do Tracer.end; lift r)

  -- execute. `func` is the body applied to its arguments.
  unfoldable pub execute :
      ExecutionId → CanonicalArguments → Exec (Context S) V → T → Exec (Context S) V
  unfolding return_recorded run_call
  execute execution_id arguments func return_type = do
    cached ← in_store (backend.get session_id execution_id)
    if is_recorded cached
        then return_recorded cached return_type
        else run_call execution_id arguments func return_type
