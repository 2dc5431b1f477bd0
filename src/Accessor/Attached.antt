-- ===== src/Accessor/Attached.antt =====
-- About `get` after `set` of MetadataAccessor.
use glyff.Prelude.{ℕ, Text, Option, none, some, List, ◌∷◌, list_eq, nat_eq, ◌≡◌, refl, ◌∙◌}
use glyff.Result.{Result, ok, err, ◌>>=◌}
use glyff.Exec.{pure, continue}
use glyff.Json.{Platform}
use glyff.Arguments.{from_recorded_bytes}
use glyff.Dict
use glyff.Dict.Laws.{get-set_self}
use glyff.Execution.{Execution, SerializedValue, set_metadata, get_metadata}
use glyff.Execution.Lifecycle.{IsValid, set_metadata-IsValid}
use glyff.Execution.Snapshot.{from_execution, to_execution}
use glyff.Execution.Snapshot.Restore.{to_execution-from_execution, restored}
use glyff.Staging.{ExecutionKey, Batch, key_eq, save_execution}
use glyff.Backend.{View, Contract, visible, revive, key_of, overlay}
use glyff.Session.{Context}
use glyff.Session.Tracer
use glyff.Executor.{Services}
use glyff.Accessor.{attach, read_metadata, type_or}

module _ ⦃p : Platform⦄ {S V T : Type 0} (services : Services S V T)
    (contract : Contract (services.backend)) where
  open services use {session_id, backend, serializer}
  open contract use {Models}

  -- the entry is what was set
  get-set_metadata :
      (e : Execution) (key : Text) (value : SerializedValue)
      → get_metadata (set_metadata e key value) key ≡ some (record { key = key; value = value })
  unfolding get_metadata set_metadata
  get-set_metadata e key value = get-set_self e.metadata key (record { key = key; value = value })

  revive-set :
      (v : View) (m : Batch) (k : ExecutionKey) (e e' : Execution)
      → to_execution (from_execution e) ≡ ok e'
      → revive (overlay (Dict.set m k (save_execution (from_execution e))) v.committed k)
        ≡ ok (some e')
  revive-set v m k e e' back =
      rw (get-set_self m k (save_execution (from_execution e))) (rw back refl)

  lift-some :
      (r : Result V) (c : Context S)
      → continue r (λ x. pure (some x)) c ≡ ((r >>= λ x. ok (some x)), c)
  lift-some (ok x) c = refl
  lift-some (err x) c = refl

  -- Within a running call whose record the transaction sees, valid and with readable arguments, a
  -- value that serializes can be attached; `read_metadata` then gives the deserialized bytes, in
  -- the same transaction, and changes nothing.
  pub read_metadata-attach :
      (c : Context S) (v : View) (t : ℕ) (m : Batch) (fs : List (ℕ × Batch)) (e : Execution)
      (type_of : V → T) (key : Text) (value : V) (value_type : Option T) (r : SerializedValue)
      (return_type : T)
      → Models c.store v
      → v.frames ≡ (t, m) ∷ fs
      → Tracer.current c ≡ some e.id
      → revive (visible v (key_of session_id e.id)) ≡ ok (some e)
      → IsValid e
      → from_recorded_bytes e.arguments.data_bytes ≡ ok e.arguments
      → serializer.serialize value (type_or services type_of value value_type) ≡ ok r.data_bytes
      → (s : S) × (attach services type_of key value value_type c ≡ (ok tt, record c { store = s }))
        × (read_metadata services key return_type none (record c { store = s }) ≡ (
          (serializer.deserialize r.data_bytes return_type >>= λ x. ok (some x)),
          record c { store = s },
        ))
  unfolding attach read_metadata set_metadata
  read_metadata-attach c v t m fs e type_of key value value_type r return_type h innermost running
        seen valid readable written =
      let e' = set_metadata e key r in
      let found = contract.get_lem c.store v session_id e.id h in
      let (s, saved, h') = contract.save_staged c.store v session_id e' t m fs h innermost in
      let again = contract.get_lem s _ session_id e.id h' in
      let (back, _, same) =
        to_execution-from_execution e' (set_metadata-IsValid e key r valid) readable in
      let seen_again = revive-set v m (key_of session_id e.id) e' (restored e') back in
      let entry = same key ∙ get-set_metadata e key r in
      (
        s,
        rw running (rw found (rw seen (rw written (rw saved refl)))),
        rw running (
            rw again (
              rw seen_again
                (rw entry (lift-some (serializer.deserialize r.data_bytes return_type) _)))),
      )
