-- ===== src/Executor/Outcome.antt =====
-- The second transaction of a call: its body, and the record that says that it has completed.
use glyff.Prelude.{ℕ, Bytes, none, some, List, [], ◌∷◌, ◌≡◌, refl, ◌∙◌}
use glyff.Types.{ExecutionId}
use glyff.Result.{Error, ok, err, value_error, lookup_error}
use glyff.Exec.{Exec}
use glyff.Json.{Platform}
use glyff.Dict
use glyff.Execution
use glyff.Execution.{Execution, started, completed, SerializedValue}
use glyff.Execution.Lifecycle.{completed_execution}
use glyff.Execution.Snapshot.{from_execution}
use glyff.Staging.{Batch, key_eq, save_execution}
use glyff.Backend.{View, Contract, visible, revive, key_of}
use glyff.Session.{Context}
use glyff.Session.Scope.{is_raised}
use glyff.Executor.{Services, record_completion, attempt, noted}
use glyff.Executor.Balance.{Balanced, ended}
use glyff.Executor.Rules.{within_lem}
use glyff.Executor.Nesting.{inside, Keeps-inside, attempt-within}

module _ ⦃p : Platform⦄ {S V T : Type 0} (services : Services S V T)
    (contract : Contract (services.backend)) where
  open services use {session_id, backend, serializer}
  open contract use {Models}

  -- In an open transaction that sees a started record of the call, `record_completion` stages the
  -- record completed with the serialized result, and returns the result.
  pub record_completion-started :
      (c : Context S) (v : View) (t : ℕ) (m : Batch) (fs : List (ℕ × Batch)) (i : ExecutionId)
      (return_type : T) (result : V) (e : Execution) (r : SerializedValue)
      → Models c.store v
      → v.frames ≡ (t, m) ∷ fs
      → revive (visible v (key_of session_id i)) ≡ ok (some e)
      → e.status ≡ started
      → serializer.serialize result return_type ≡ ok r.data_bytes
      → (s : S) × (record_completion services i return_type result c
          ≡ (ok result, record c { store = s }))
        × Models s (record v {
          frames =
              (
                t,
                Dict.set m
                    (key_of session_id e.id)
                    (save_execution (from_execution (completed_execution e r))),
              )
              ∷ fs;
        })
  unfolding record_completion Execution.complete
  record_completion-started c v t m fs i return_type result e r h innermost seen running written =
      let found = contract.get_lem c.store v session_id i h in
      let (s, saved, h') =
        contract.save_staged c.store v session_id (completed_execution e r) t m fs h innermost in
      (s, rw found (rw seen (rw written (rw running (rw saved refl)))), h')

  -- Why `record_completion` raises.
  pub data Refuses (v : View) (i : ExecutionId) (return_type : T) (result : V)
      : Error → Type 0 where
    absent :
        revive (visible v (key_of session_id i)) ≡ ok none
        → Refuses v i return_type result lookup_error
    unserializable :
        (e : Execution) (x : Error)
        → revive (visible v (key_of session_id i)) ≡ ok (some e)
        → serializer.serialize result return_type ≡ err x
        → Refuses v i return_type result x
    already_completed :
        (e : Execution) (b : Bytes)
        → revive (visible v (key_of session_id i)) ≡ ok (some e)
        → serializer.serialize result return_type ≡ ok b
        → e.status ≡ completed
        → Refuses v i return_type result value_error

  -- If no record of the call is seen, or the result does not serialize, or the record is completed
  -- already, `record_completion` raises the error of that case and changes nothing.
  pub record_completion-refused :
      (c : Context S) (v : View) (i : ExecutionId) (return_type : T) (result : V) (x : Error)
      → Models c.store v
      → Refuses v i return_type result x
      → record_completion services i return_type result c ≡ (err x, c)
  unfolding record_completion Execution.complete
  record_completion-refused c v i return_type result x h (absent seen) =
      rw (contract.get_lem c.store v session_id i h) (rw seen refl)
  record_completion-refused c v i return_type result x h (unserializable e y seen refused) =
      rw (contract.get_lem c.store v session_id i h) (rw seen (rw refused refl))
  record_completion-refused c v i return_type result x h (already_completed e b seen written done) =
      rw (contract.get_lem c.store v session_id i h) (rw seen (rw written (rw done refl)))

  -- Where a body leaves open the transactions that were open, `attempt` does not raise and gives
  -- what the body, and the recording of its result, give in a transaction of their own; what
  -- that transaction staged is committed if neither raised, and dropped if one did.
  pub attempt-atomic :
      (c : Context S) (v : View) (i : ExecutionId) (func : Exec (Context S) V) (return_type : T)
      → Balanced backend contract func
      → Models c.store v
      → (s : S) × (t : ℕ) × (m : Batch) × (v' : View) × (s' : S) × Models s
          (record v { frames = (t, []) ∷ v.frames })
        × Models ((inside services contract i func return_type (record c { store = s })).1).store v'
        × (v'.frames ≡ (t, m) ∷ v.frames)
        × (attempt services i func return_type c ≡ (
          ok (
            (inside services contract i func return_type (record c { store = s })).0,
            noted services (func (record c { store = s })).0,
          ),
          record ((inside services contract i func return_type (record c { store = s })).1) {
            store = s';
          },
        ))
        × Models s' (
            ended
              (is_raised backend
                (inside services contract i func return_type (record c { store = s })).0)
              v'
              m
              v.frames)
  attempt-atomic c v i func return_type k h =
      let (t, s, m, v', s', entered, h1, h2, frames, _, run, h3) =
        within_lem backend contract (inside services contract i func return_type) c v
          (Keeps-inside services contract i func return_type k) h in
      (
        s,
        t,
        m,
        v',
        s',
        h1,
        h2,
        frames,
        attempt-within services contract i func return_type c (record c { store = s }) t entered
            ∙ rw run refl,
        h3,
      )
