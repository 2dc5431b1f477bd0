-- ===== src/Executor/Fresh.antt =====
-- A call that has no record yet, from the cache check to its result.
use glyff.Prelude.{ℕ, Option, none, some, [], ◌∷◌, ◌++◌, ◌≡◌, refl, Bool-cases, inl, inr}
use glyff.Types.{ExecutionId, frame}
use glyff.Result.{Result, Error, ok, err, is_exception}
use glyff.Exec.{Exec}
use glyff.Json.{Platform}
use glyff.Arguments.{CanonicalArguments, digest}
use glyff.Execution.Lifecycle.{started_execution}
use glyff.Backend.{View, Contract, visible, key_of}
use glyff.Sequencer.{reset_for_call}
use glyff.Sequencer.Counting.{IsConsistent}
use glyff.Session.{Context}
use glyff.Session.Tracer
use glyff.Events.{Event, emit, execution_completed, execution_failed}
use glyff.Executor.{Services, execute, run_call, conclude, emit_failure}
use glyff.Executor.Balance.{Balanced}
use glyff.Executor.Nesting.{inside}
use glyff.Executor.Started.{record_start-fresh, committed_with}
use glyff.Executor.Outcome.{attempt-atomic}

module _ ⦃p : Platform⦄ {S V T : Type 0} (services : Services S V T)
    (contract : Contract (services.backend)) where
  open services use {session_id, backend, handlers}
  open contract use {Models}

  module _ (calm : (event : Event) (c : Context S) → (emit handlers event c).0 ≡ ok tt) where
    calm_failure :
        (i : ExecutionId) (o : Option Error) (c : Context S)
        → (emit_failure services i o c).0 ≡ ok tt
    calm_failure i none c = refl
    calm_failure i (some e) c = calm (execution_failed i e) c

    conclude-result :
        (i : ExecutionId) (r : Result V) (o : Option Error) (c : Context S)
        → (conclude services i r o c).0 ≡ r
    unfolding conclude
    conclude-result i (ok v) o c = rw (calm (execution_completed i) c) refl
    conclude-result i (err e) o c = elim (Bool-cases (is_exception e)) [
      | inl q ↦ rw q (rw (calm_failure i o c) refl)
      | inr q ↦ rw q refl
    ]

    -- Where neither the innermost transaction nor the committed records have a record of the
    -- call, the identity has the digest of the arguments, the sequencer is consistent, no
    -- exception gets out of `emit`, and the body leaves open the transactions that were open:
    -- `execute` gives what the body, and the recording of its result, give when they run in a
    -- transaction of their own, with the call on top of the call stack, its children's ordinals
    -- restarted and the record of the started call committed.
    pub execute-fresh :
        (c : Context S) (v : View) (i : ExecutionId) (a : CanonicalArguments)
        (func : Exec (Context S) V) (return_type : T)
        → Balanced backend contract func
        → Models c.store v
        → IsConsistent c.sequencer
        → visible v (key_of session_id i) ≡ none
        → v.committed (key_of session_id i) ≡ none
        → (frame i).arguments_digest ≡ digest a
        → (s : S) × (t : ℕ) × Models s
            (record (committed_with services contract v (started_execution i a)) {
              frames = (t, []) ∷ v.frames;
            })
          × ((execute services i a func return_type c).0
              ≡ (inside services contract i func return_type (record {
                store = s;
                sequencer = (reset_for_call i c.sequencer).1;
                observed = c.observed;
                stack = c.stack ++ i ∷ [];
              })).0)
    unfolding execute run_call Tracer.start Tracer.end
    execute-fresh c v i a func return_type k h consistent unseen fresh keyed =
        let (s0, began, h0) =
          record_start-fresh services contract c v i a h consistent fresh keyed in
        let c0 : Context S = record {
          store = s0;
          sequencer = (reset_for_call i c.sequencer).1;
          observed = c.observed;
          stack = c.stack ++ i ∷ [];
        } in
        let (s, t, m, v', s', h1, _, _, tried, _) =
          attempt-atomic services contract c0
            (committed_with services contract v (started_execution i a)) i func return_type k h0 in
        (
          s,
          t,
          h1,
          rw (contract.get_lem c.store v session_id i h)
              (rw unseen (rw began (rw tried (conclude-result i _ _ _)))),
        )
