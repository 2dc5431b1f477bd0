-- ===== src/Accessor.antt =====
-- MetadataAccessor of packages/glyff/src/glyff/_context.py.
pub mod Attached
use glyff.Prelude.{Text, Option, none, some}
use glyff.Types.{ExecutionId}
use glyff.Result.{lookup_error, no_current_execution}
use glyff.Exec.{Exec, pure, raise, lift, ◌>>=◌, ◌>>◌}
use glyff.Execution.{Execution, Metadata, set_metadata, get_metadata}
use glyff.Session.{Context, in_store}
use glyff.Session.Tracer
use glyff.Executor.{Services}

module _ {S V T : Type 0} (services : Services S V T) where
  open services use {session_id, backend, serializer}

  -- type(value) if value_type is None else value_type
  abbrev pub type_or : (V → T) → V → Option T → T
  type_or type_of value none = type_of value
  type_or type_of value (some t) = t

  abbrev pub current_or_raise : Option ExecutionId → Exec (Context S) ExecutionId
  current_or_raise none = raise no_current_execution
  current_or_raise (some i) = pure i

  abbrev pub found_or_raise : Option Execution → Exec (Context S) Execution
  found_or_raise none = raise lookup_error
  found_or_raise (some e) = pure e

  -- MetadataAccessor.set
  unfoldable pub attach : (V → T) → Text → V → Option T → Exec (Context S) (Unit {0})
  attach type_of key value value_type c =
      (do
        execution_id ← current_or_raise (Tracer.current c)
        found ← in_store (backend.get session_id execution_id)
        execution ← found_or_raise found
        serialized ← lift (serializer.serialize value (type_or type_of value value_type))
        in_store (
            backend.save session_id
              (set_metadata execution key (record { data_bytes = serialized }))))
        c

  abbrev pub target_of : Option ExecutionId → Context S → Option ExecutionId
  target_of none c = Tracer.current c
  target_of (some i) c = some i

  abbrev pub read_value : Option Metadata → T → Exec (Context S) (Option V)
  read_value none return_type = pure none
  read_value (some m) return_type = do
    value ← lift (serializer.deserialize m.value.data_bytes return_type)
    pure (some value)

  abbrev pub read_entry : Option Execution → Text → T → Exec (Context S) (Option V)
  read_entry none key return_type = pure none
  read_entry (some e) key return_type = read_value (get_metadata e key) return_type

  -- MetadataAccessor.get
  unfoldable pub read_metadata : Text → T → Option ExecutionId → Exec (Context S) (Option V)
  read_metadata key return_type execution_id c =
      (do
        target ← current_or_raise (target_of execution_id c)
        found ← in_store (backend.get session_id target)
        read_entry found key return_type)
        c
