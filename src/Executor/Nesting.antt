-- ===== src/Executor/Nesting.antt =====
-- About the transactions and the call stack after `execute`, however it ends.
use glyff.Prelude.{ℕ, Option, none, some, ◌≡◌, ap, sym, ◌∙◌}
use glyff.Types.{ExecutionId}
use glyff.Result.{Error, Result, ok, err, is_exception}
use glyff.Exec.{Exec, raise, lift, settle, continue, ◌>>◌}
use glyff.Json.{Platform}
use glyff.Arguments.{CanonicalArguments}
use glyff.Execution
use glyff.Execution.{Execution, SerializedValue}
use glyff.Backend.{Contract}
use glyff.Sequencer.{reset_for_call}
use glyff.Session.{Context, in_store, in_sequencer}
use glyff.Session.Scope.{within, new_scope, aenter, aexit, is_raised}
use glyff.Events.{Event, emit, execution_completed, execution_failed}
use glyff.Executor.{
  Services, execute, return_recorded, result_of, is_recorded, run_call, record_start,
  save_if_absent, present, record_completion, attempt, around_body, after_body, noted, conclude,
  emit_failure,
}
use glyff.Executor.Balance.{Balanced, enter_lem, open_scope}
use glyff.Executor.Rules.{
  Balanced-lift, Balanced-bind, Balanced-if, Balanced-settle, Balanced-get, Balanced-save,
  Balanced-sequencer, Balanced-within, Balanced-traced,
}

module _ ⦃p : Platform⦄ {S V T : Type 0} (services : Services S V T)
    (contract : Contract (services.backend)) where
  open services use {session_id, backend, serializer, handlers}
  open contract use {Models}

  abbrev pub Keeps : {A : Type 0} → Exec (Context S) A → Type 0
  Keeps m = Balanced backend contract m

  Keeps-result_of :
      (r : Option SerializedValue) (return_type : T) → Keeps (result_of services r return_type)
  Keeps-result_of none return_type = Balanced-lift backend contract _
  Keeps-result_of (some r) return_type =
      Balanced-lift backend contract (serializer.deserialize r.data_bytes return_type)

  Keeps-result :
      (r : Option Execution) (return_type : T) → Keeps (return_recorded services r return_type)
  unfolding return_recorded
  Keeps-result none return_type = Balanced-lift backend contract _
  Keeps-result (some e) return_type = Keeps-result_of e.result return_type

  Keeps-absent :
      (i : ExecutionId) (a : CanonicalArguments) (found : Option Execution)
      → Keeps (save_if_absent services i a found)
  Keeps-absent i a (some e) = Balanced-lift backend contract (ok tt)
  Keeps-absent i a none =
      Balanced-bind backend contract (lift (Execution.start i a))
        (λ e. in_store (backend.save session_id e))
        (Balanced-lift backend contract (Execution.start i a))
        (Balanced-save backend contract session_id)

  Keeps-start : (i : ExecutionId) (a : CanonicalArguments) → Keeps (record_start services i a)
  unfolding record_start
  Keeps-start i a = Balanced-within backend contract _ (
      Balanced-bind backend contract (in_sequencer (reset_for_call i)) _
        (Balanced-sequencer backend contract (reset_for_call i))
        (λ _.
          Balanced-bind backend contract (in_store (backend.get session_id i)) _
            (Balanced-get backend contract session_id i) (Keeps-absent i a)))

  Keeps-present : (o : Option Execution) → Keeps (present services o)
  Keeps-present none = Balanced-lift backend contract _
  Keeps-present (some e) = Balanced-lift backend contract (ok e)

  Keeps-completion :
      (i : ExecutionId) (return_type : T) (v : V)
      → Keeps (record_completion services i return_type v)
  unfolding record_completion
  Keeps-completion i return_type v =
      Balanced-bind backend contract (in_store (backend.get session_id i)) _
        (Balanced-get backend contract session_id i)
        (λ found.
          Balanced-bind backend contract (present services found) _ (Keeps-present found) (λ e.
            Balanced-bind backend contract (lift (serializer.serialize v return_type)) _
              (Balanced-lift backend contract (serializer.serialize v return_type))
              (λ serialized.
                Balanced-bind backend contract
                  (lift (Execution.complete e (record { data_bytes = serialized }))) _
                  (Balanced-lift backend contract
                    (Execution.complete e (record { data_bytes = serialized })))
                  (λ done.
                    Balanced-bind backend contract (in_store (backend.save session_id done)) _
                      (Balanced-save backend contract session_id done)
                      (λ _. Balanced-lift backend contract (ok v))))))

  Keeps-after :
      (i : ExecutionId) (return_type : T) (r : Result V)
      → Keeps (after_body services i return_type r)
  Keeps-after i return_type (ok v) = Keeps-completion i return_type v
  Keeps-after i return_type (err e) = Balanced-lift backend contract (err e)

  -- The body and what records its completion, inside the transaction around them.
  abbrev pub inside : ExecutionId → Exec (Context S) V → T → Exec (Context S) V
  inside i func return_type = settle func (after_body services i return_type)

  pub Keeps-inside :
      (i : ExecutionId) (func : Exec (Context S) V) (return_type : T)
      → Keeps func
      → Keeps (inside i func return_type)
  Keeps-inside i func return_type k =
      Balanced-settle backend contract func _ k (Keeps-after i return_type)

  -- `attempt` is the transaction around the body, and notes how the body ended.
  pub attempt-within :
      (i : ExecutionId) (func : Exec (Context S) V) (return_type : T) (c c1 : Context S) (t : ℕ)
      → aenter backend new_scope c ≡ (ok (open_scope t), c1)
      → attempt services i func return_type c ≡ (
        ok ((within backend (inside i func return_type) c).0, noted services (func c1).0),
        (within backend (inside i func return_type) c).1,
      )
  unfolding attempt within
  attempt-within i func return_type c c1 t e =
      ap (λ entered. around_body services i func return_type entered.0 entered.1) e
      ∙ ap (λ r. (ok (r.0, noted services (func c1).0), r.1))
          (sym (
            ap
              (λ entered.
                continue entered.0
                  (λ scope.
                    settle (inside i func return_type)
                      (λ r. do aexit backend scope (is_raised backend r); lift r))
                  entered.1)
              e))

  Keeps-attempt :
      (i : ExecutionId) (func : Exec (Context S) V) (return_type : T)
      → Keeps func
      → Keeps (attempt services i func return_type)
  Keeps-attempt i func return_type k = record {
    at = λ c v h.
        let (t, s, e, open_view) = enter_lem backend contract c v h in
        rw (attempt-within i func return_type c (record c { store = s }) t e) (
          (Balanced-within backend contract (inside i func return_type)
              (Keeps-inside i func return_type k)).at
            c v h);
  }

  module _ (quiet : (event : Event) → Keeps (emit handlers event)) where
    Keeps-failure : (i : ExecutionId) (o : Option Error) → Keeps (emit_failure services i o)
    Keeps-failure i none = Balanced-lift backend contract (ok tt)
    Keeps-failure i (some e) = quiet (execution_failed i e)

    Keeps-conclude :
        (i : ExecutionId) (r : Result V) (o : Option Error) → Keeps (conclude services i r o)
    unfolding conclude
    Keeps-conclude i (ok v) o =
        Balanced-bind backend contract (emit handlers (execution_completed i)) _
          (quiet (execution_completed i)) (λ _. Balanced-lift backend contract (ok v))
    Keeps-conclude i (err e) o =
        Balanced-if backend contract (is_exception e) _ (raise e)
          (Balanced-bind backend contract (emit_failure services i o) _ (Keeps-failure i o)
            (λ _. Balanced-lift backend contract (err e)))
          (Balanced-lift backend contract (err e))

    Keeps-run :
        (i : ExecutionId) (a : CanonicalArguments) (func : Exec (Context S) V) (return_type : T)
        → Keeps func
        → Keeps (run_call services i a func return_type)
    unfolding run_call
    Keeps-run i a func return_type k =
        Balanced-bind backend contract (record_start services i a) _ (Keeps-start i a) (λ _.
          Balanced-traced backend contract i _ (
            Balanced-bind backend contract (attempt services i func return_type) _
              (Keeps-attempt i func return_type k) (λ r. Keeps-conclude i r.0 r.1)))

    -- If the body of a call and the handlers of its events leave open the transactions that were
    -- open, and the call stack as it was, then so does the call, however it ends.
    pub execute-Balanced :
        (i : ExecutionId) (a : CanonicalArguments) (func : Exec (Context S) V) (return_type : T)
        → Balanced backend contract func
        → Balanced backend contract (execute services i a func return_type)
    unfolding execute
    execute-Balanced i a func return_type k =
        Balanced-bind backend contract (in_store (backend.get session_id i)) _
          (Balanced-get backend contract session_id i)
          (λ cached.
            Balanced-if backend contract (is_recorded cached)
              (return_recorded services cached return_type) (run_call services i a func return_type)
              (Keeps-result cached return_type) (Keeps-run i a func return_type k))
