-- ===== src/Tests/Stores.antt =====
-- Staging, the backend contract, the sequencer, and event handlers.
use glyff.Prelude.{
  ℕ, suc, Bool, true, false, none, some, [], ◌∷◌, ◌≡◌, refl, if◌then◌else◌, ◌==◌, option_eq, nat_eq,
  is_some,
}
use glyff.Types.{SessionId, ExecutionSequenceScope, scope_eq, execution_id_eq}
use glyff.Result.{ok, err, runtime_error}
use glyff.Exec.{raise}
use glyff.Dict
use glyff.Execution.{Execution}
use glyff.Staging.{ExecutionStaging, new_stage, close, save}
use glyff.Staging.Lifetime.{close_lem}
use glyff.Backend.{Contract}
use glyff.Store.{new_store}
use glyff.Store.Client.{IsFaithful, backend_of}
use glyff.Store.Refines.{contract_of}
use glyff.Memory.{MemoryState, memory_client, executions}
use glyff.Memory.Faithful.{memory_faithful, memory_client-IsFaithful}
use glyff.Sequencer.{Sequencer, next, counter, reset_for_call}
use glyff.Sequencer.Counting.{IsConsistent, next_lem, next-IsConsistent, reset_for_call_lem}
use glyff.Events.{
  EventHandler, HandlerMap, event, completed, execution_completed, handlers_to_run, mro, emit,
  event_type_eq, add_unseen, is_seen, handlers_of, resolve_handler_map,
}
use glyff.Events.Delivery.{
  AreDistinct, AreOrdinary, is_registered, handlers_to_run-AreDistinct, emit-AreOrdinary,
}
use glyff.Events.Subscribed.{is_subscribed, resolve_handler_map_lem}
use glyff.Tests.Data.{test_platform, a_call, a_frame}

-- One stage within another.
abbrev nested : ExecutionStaging
nested = record {
  open_stage = some 1;
  tokens = λ i. if i == 1 then some (some 0) else some none;
  stages = λ i. new_stage;
  next = 2;
}

close_lem_example :
    ((close 1 nested).0 ≡ ok tt)
    × (((close 1 nested).1).open_stage ≡ some 0)
    × ((((close 1 nested).1).stages 1).batch ≡ some [])
    × ((close 1 (close 1 nested).1).0 ≡ err runtime_error)
    × ((session_id : SessionId) (e : Execution)
        → (save 1 session_id e (close 1 nested).1).0 ≡ err runtime_error)
close_lem_example = close_lem nested 1 (some 0) refl refl

contract_of_example :
    (contract : Contract (backend_of memory_client executions)) × ((c : MemoryState)
      → contract.Models (new_store c) (record {
        committed = memory_faithful.committed c;
        frames = [];
        claimed = memory_faithful.claimed c;
      }))
contract_of_example = contract_of memory_client memory_faithful executions

memory_client-IsFaithful_example : IsFaithful memory_client
memory_client-IsFaithful_example = memory_client-IsFaithful

abbrev scope : ExecutionSequenceScope
scope = record {
  parent_id = some a_call;
  domain_id = a_frame.domain_id;
  name = a_frame.name;
  arguments_digest = a_frame.arguments_digest;
}

abbrev counted : Sequencer
counted = record { locks = (scope, tt) ∷ []; counters = (scope, 3) ∷ [] }

counted_locked :
    (found : Bool)
    → is_some {A = ℕ} (if found then some 3 else none) ≡ true
    → is_some {A = Unit {0}} (if found then some tt else none) ≡ true
counted_locked true h = refl
counted_locked false h = h

counted-IsConsistent : IsConsistent counted
unfolding Dict.get
counted-IsConsistent = record { locked = λ k h. counted_locked (scope == k) h; unique = (refl, tt) }

next_lem_example :
    ((next (some a_call) a_frame.domain_id a_frame.name a_frame.arguments_digest counted).0
      ≡ ok (counter counted scope))
    × ((k : ExecutionSequenceScope)
        → counter
            (next (some a_call) a_frame.domain_id a_frame.name a_frame.arguments_digest counted).1
            k
          ≡ (if scope == k then suc (counter counted k) else counter counted k))
next_lem_example = next_lem counted scope

next-IsConsistent_example :
    IsConsistent (next none a_frame.domain_id a_frame.name a_frame.arguments_digest counted).1
next-IsConsistent_example =
    next-IsConsistent counted none a_frame.domain_id a_frame.name a_frame.arguments_digest
      counted-IsConsistent

reset_for_call_lem_example :
    ((reset_for_call a_call counted).0 ≡ ok tt)
    × IsConsistent (reset_for_call a_call counted).1
    × ((k : ExecutionSequenceScope)
        → counter (reset_for_call a_call counted).1 k
          ≡ (if k.parent_id == some a_call then 0 else counter counted k))
reset_for_call_lem_example = reset_for_call_lem counted a_call counted-IsConsistent

-- A handler of two classes of an event, which counts, and raises.
abbrev counting : EventHandler ℕ
counting = record {
  identity = 7;
  event_types = event ∷ completed ∷ [];
  handle = λ e n. raise runtime_error (suc n);
}

abbrev registered : HandlerMap ℕ
registered = (event, counting ∷ []) ∷ (completed, counting ∷ []) ∷ []

handlers_to_run-AreDistinct_example :
    AreDistinct (handlers_to_run registered (mro (execution_completed a_call)) [])
    × ((h : EventHandler ℕ)
        → is_seen h (handlers_to_run registered (mro (execution_completed a_call)) [])
          ≡ is_registered registered h (mro (execution_completed a_call)))
handlers_to_run-AreDistinct_example =
    handlers_to_run-AreDistinct registered (execution_completed a_call)

resolve_handler_map_lem_example :
    is_seen counting (handlers_of (Dict.get (resolve_handler_map (counting ∷ [])) completed))
    ≡ is_subscribed counting completed (counting ∷ [])
resolve_handler_map_lem_example = resolve_handler_map_lem counting completed (counting ∷ [])

ordinary :
    AreOrdinary
      (execution_completed a_call)
      (handlers_to_run registered (mro (execution_completed a_call)) [])
unfolding handlers_to_run add_unseen Dict.get
ordinary = (λ n. refl, tt)

emit-AreOrdinary_example : (emit registered (execution_completed a_call) 5).0 ≡ ok tt
emit-AreOrdinary_example = emit-AreOrdinary registered (execution_completed a_call) 5 ordinary
