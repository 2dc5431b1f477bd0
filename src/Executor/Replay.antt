-- ===== src/Executor/Replay.antt =====
-- About `execute` where a completed record of the call is found.
use glyff.Prelude.{some, ◌≡◌, refl}
use glyff.Types.{ExecutionId}
use glyff.Result.{ok}
use glyff.Exec.{Exec}
use glyff.Json.{Platform}
use glyff.Arguments.{CanonicalArguments}
use glyff.Execution.{Execution, completed, SerializedValue}
use glyff.Backend.{View, Contract, visible, revive, key_of}
use glyff.Session.{Context}
use glyff.Executor.{Services, execute, return_recorded}

module _ ⦃p : Platform⦄ {S V T : Type 0} (services : Services S V T)
    (contract : Contract (services.backend)) where
  open services use {session_id, backend, serializer}
  open contract use {Models}

  -- Where the record of the call that the session can see is completed with a result, `execute`
  -- gives that result, deserialized, and changes nothing, whatever the body is.
  pub execute-recorded :
      (c : Context S) (v : View) (i : ExecutionId) (a : CanonicalArguments)
      (func : Exec (Context S) V) (return_type : T) (e : Execution) (r : SerializedValue)
      → Models c.store v
      → revive (visible v (key_of session_id i)) ≡ ok (some e)
      → e.status ≡ completed
      → e.result ≡ some r
      → execute services i a func return_type c
        ≡ (serializer.deserialize r.data_bytes return_type, c)
  unfolding execute return_recorded
  execute-recorded c v i a func return_type e r h seen done result =
      rw (contract.get_lem c.store v session_id i h) (rw seen (rw done (rw result refl)))
