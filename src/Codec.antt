-- ===== src/Codec.antt =====
-- packages/glyff/src/glyff/store/aggregate_codec.py: an execution as the JSON object that the text
-- backends store. A stored object is its entries.
pub mod Roundtrip
use glyff.Prelude.{
  Text, Bytes, Bool, true, false, Option, none, some, List, [], ◌∷◌, codes, if◌then◌else◌, ◌==◌,
  list_eq, nat_eq,
}
use glyff.Types.{ExecutionId}
use glyff.Result.{
  Result, ok, err, ◌>>=◌, ◌>>◌, serialization, key_error, type_error, attribute_error,
}
use glyff.Json
use glyff.Json.{Json, Fields, Platform, field_of}
use glyff.Text.Utf8.{encode_utf8}
use glyff.Arguments.{CanonicalArguments, from_recorded_bytes}
use glyff.Dict
use glyff.Dict.{Dict}
use glyff.Execution.{
  Execution, ExecutionStatus, started, completed, SerializedValue, Metadata, post_init,
}

-- What the codec takes from the standard library.
pub record JsonText : Type 0 where
  -- data.decode("utf-8"); none where it raises UnicodeDecodeError
  pub decode_text : Bytes → Option Text
  -- json.loads; none where it raises JSONDecodeError
  pub loads : Text → Option Json
  -- json.dumps(…, sort_keys=True, ensure_ascii=False, separators=JSON_SEPARATORS)
  pub dumps : Json → Text

abbrev pub or_refuse {ℓ} : {A : Type ℓ} → Option A → Result A
or_refuse none = err serialization
or_refuse (some a) = ok a

-- _STATUS_NAMES
abbrev pub status_name : ExecutionStatus → Text
status_name started = codes "started"
status_name completed = codes "completed"

abbrev pub status_named : Text → Result ExecutionStatus
status_named name =
    if name == codes "started"
    then ok started
    else if name == codes "completed"
    then ok completed
    else err key_error

-- _NAME_TO_STATUS[stored["status"]]. A list or a dict cannot be a key.
abbrev pub stored_status : Option Json → Result ExecutionStatus
stored_status none = err key_error
stored_status (some (Json.string name)) = status_named name
stored_status (some (Json.array _)) = err type_error
stored_status (some (Json.object _)) = err type_error
stored_status (some _) = err key_error

-- stored["arguments"].encode("utf-8")
abbrev pub stored_arguments : Option Json → Result Bytes
stored_arguments none = err key_error
stored_arguments (some (Json.string text)) = encode_utf8 text
stored_arguments (some _) = err attribute_error

-- stored.get(key)
abbrev pub json_or_none : Option Json → Json
json_or_none none = Json.null
json_or_none (some v) = v

-- the keys of a stored object, in the order of the literal
abbrev pub stored_fields : Text → ExecutionStatus → Json → Fields → Fields
stored_fields arguments status result metadata =
    Fields.field (codes "arguments") (Json.string arguments) (
      Fields.field (codes "status") (Json.string (status_name status)) (
        Fields.field (codes "result") result
          (Fields.field (codes "metadata") (Json.object metadata) Fields.end)))

module _ ⦃j : JsonText⦄ where
  -- validate_json_text_value
  unfoldable pub validate_json_text_value : SerializedValue → Result Json
  validate_json_text_value v = do
    text ← or_refuse (j.decode_text v.data_bytes)
    or_refuse (j.loads text)

  -- _pack_value
  unfoldable pub pack_value : Option SerializedValue → Result Json
  unfolding validate_json_text_value
  pack_value none = ok Json.null
  pack_value (some v) = validate_json_text_value v

  -- _json_bytes
  unfoldable pub json_bytes : Json → Result Bytes
  json_bytes v = encode_utf8 (j.dumps v)

  -- _unpack_value
  unfoldable pub unpack_value : Json → Result SerializedValue
  unfolding json_bytes
  unpack_value v = json_bytes v >>= λ b. ok (record { data_bytes = b })

  -- _pack_metadata
  unfoldable pub pack_metadata : Dict Text Metadata → Result Fields
  unfolding validate_json_text_value
  pack_metadata [] = ok Fields.end
  pack_metadata ((key, item) ∷ d) = validate_json_text_value item.value >>= λ v.
      pack_metadata d >>= λ fs. ok (Fields.field key v fs)

  -- the loop of _unpack_metadata
  unfoldable pub unpack_entries : Dict Text Metadata → Fields → Result (Dict Text Metadata)
  unfolding unpack_value
  unpack_entries result Fields.end = ok result
  unpack_entries result (Fields.field key v fs) = unpack_value v >>= λ value.
      unpack_entries (Dict.set result key (record { key = key; value = value })) fs

  -- _unpack_metadata
  unfoldable pub unpack_metadata : Json → Result (Dict Text Metadata)
  unfolding unpack_entries
  unpack_metadata (Json.object fs) = unpack_entries [] fs
  unpack_metadata _ = ok []

  -- _pack_arguments
  unfoldable pub pack_arguments : CanonicalArguments → Result Text
  pack_arguments a = or_refuse (j.decode_text a.data_bytes)

  -- execution_to_dict
  unfoldable pub execution_to_dict : Execution → Result Fields
  unfolding pack_arguments pack_value pack_metadata
  execution_to_dict e = do
    arguments ← pack_arguments e.arguments
    result ← pack_value e.result
    metadata ← pack_metadata e.metadata
    ok (stored_fields arguments e.status result metadata)

  abbrev pub stored_result : ExecutionStatus → Option Json → Result (Option SerializedValue)
  stored_result started stored = ok none
  stored_result completed stored = unpack_value (json_or_none stored) >>= λ v. ok (some v)

  -- execution_from_dict
  unfoldable pub execution_from_dict : ⦃p : Platform⦄ → ExecutionId → Fields → Result Execution
  unfolding unpack_value unpack_metadata
  execution_from_dict execution_id stored = do
    status ← stored_status (field_of (codes "status") stored)
    data_bytes ← stored_arguments (field_of (codes "arguments") stored)
    arguments ← from_recorded_bytes data_bytes
    result ← stored_result status (field_of (codes "result") stored)
    metadata ← unpack_metadata (json_or_none (field_of (codes "metadata") stored))
    post_init (record {
      id = execution_id;
      status = status;
      arguments = arguments;
      result = result;
      metadata = metadata;
    })
