-- ===== src/Execution/Snapshot.antt =====
-- ExecutionSnapshot of packages/glyff/src/glyff/store/staging.py: the copy of an execution that a
-- transaction stages and a store keeps.
pub mod Restore
use glyff.Prelude.{
  Text, Bytes, Bool, Option, none, some, List, [], ◌∷◌, map, ltb, nat_beq, ◌&&◌, ◌||◌, ◌==◌,
  list_eq, nat_eq, text_leb, sorted, if◌then◌else◌,
}
use glyff.Types.{ExecutionId}
use glyff.Result.{Result, ok, err, ◌>>=◌, ◌>>◌}
use glyff.Json.{Platform}
use glyff.Arguments.{CanonicalArguments, from_recorded_bytes}
use glyff.Dict
use glyff.Dict.{Dict, from_entries}
use glyff.Execution.{Execution, ExecutionStatus, SerializedValue, Metadata, post_init}

pub record ExecutionSnapshot : Type 0 where
  pub id : ExecutionId
  pub status : ExecutionStatus
  pub arguments : Bytes
  pub result : Option Bytes
  pub metadata : List (Text × Bytes)

-- (name, data) <= (name, data), as tuples compare
abbrev pub item_leb : Text × Bytes → Text × Bytes → Bool
item_leb a b = if a.0 == b.0 then text_leb a.1 b.1 else text_leb a.0 b.0

abbrev pub payload : Option SerializedValue → Option Bytes
payload none = none
payload (some v) = some v.data_bytes

abbrev pub serialized : Option Bytes → Option SerializedValue
serialized none = none
serialized (some b) = some (record { data_bytes = b })

abbrev pub packed : Text × Metadata → Text × Bytes
packed e = (e.0, e.1.value.data_bytes)

abbrev pub unpacked : Text × Bytes → Text × Metadata
unpacked e = (e.0, record { key = e.0; value = record { data_bytes = e.1 } })

-- ExecutionSnapshot.from_execution
unfoldable pub from_execution : Execution → ExecutionSnapshot
from_execution e = record {
  id = e.id;
  status = e.status;
  arguments = e.arguments.data_bytes;
  result = payload e.result;
  metadata = sorted item_leb (map packed e.metadata);
}

module _ ⦃p : Platform⦄ where
  -- ExecutionSnapshot.to_execution
  unfoldable pub to_execution : ExecutionSnapshot → Result Execution
  to_execution s = do
    arguments ← from_recorded_bytes s.arguments
    post_init (record {
      id = s.id;
      status = s.status;
      arguments = arguments;
      result = serialized s.result;
      metadata = from_entries (map unpacked s.metadata);
    })
