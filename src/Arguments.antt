-- ===== src/Arguments.antt =====
-- packages/glyff/src/glyff/_canonical_arguments.py, and CanonicalFallback of _types/canonical.py
pub mod Roundtrip
pub mod Sorting
pub mod Recorded
use glyff.Prelude.{
  Text, Bytes, ℕ, Bool, true, false, Option, none, some, ◌≡◌, if◌then◌else◌, ◌==◌, list_eq, nat_eq,
  codes, ◌&&◌, not, is_some, Eq, ◌↔◌, arith, list_beq_iff,
}
use glyff.Types.{ArgumentsDigest}
use glyff.Result.{
  Result, ok, err, ◌>>=◌, ◌>>◌, require, invalid_execution, argument_canonicalization,
}
use glyff.Json
use glyff.Json.{Json, Items, Fields, ℤ, Platform, field_of, field_count}

-- CanonicalArgumentValue. Keys are `str` here, so the tests that a key is one always pass.
mutual
  pub data Value : Type 0 where
    null : Value
    boolean : Bool → Value
    integer : ℤ → Value
    float : ℕ → Value
    string : Text → Value
    -- CanonicalFallback(representation)
    fallback : Value → Value
    list : Values → Value
    dict : Entries → Value

  pub data Values : Type 0 where
    nil : Values
    value : Value → Values → Values

  pub data Entries : Type 0 where
    end : Entries
    entry : Text → Value → Entries → Entries

abbrev pub marker_key : Text
marker_key = codes "__glyff_fallback__"

-- _FALLBACK_MARKER_KEY in value
abbrev pub is_reserved : Entries → Bool
is_reserved end = false
is_reserved (entry k v es) = if k == marker_key then true else is_reserved es

-- _require_unreserved_mapping
abbrev pub require_unreserved_mapping : Entries → Result (Unit {0})
require_unreserved_mapping es = require (not (is_reserved es)) argument_canonicalization

unfoldable mutual
  pub encode_argument_value : Value → Result Json
  encode_argument_value (fallback v) =
      encode_argument_value v >>= λ j. ok (Json.object (Fields.field marker_key j Fields.end))
  encode_argument_value (list vs) = encode_values vs >>= λ js. ok (Json.array js)
  encode_argument_value (dict es) =
      require_unreserved_mapping es >> (encode_entries es >>= λ fs. ok (Json.object fs))
  encode_argument_value null = ok Json.null
  encode_argument_value (boolean b) = ok (Json.boolean b)
  encode_argument_value (integer n) = ok (Json.integer n)
  encode_argument_value (float n) = ok (Json.float n)
  encode_argument_value (string s) = ok (Json.string s)

  pub encode_values : Values → Result Items
  encode_values nil = ok Items.nil
  encode_values (value v vs) =
      encode_argument_value v >>= λ j. encode_values vs >>= λ js. ok (Items.item j js)

  pub encode_entries : Entries → Result Fields
  encode_entries end = ok Fields.end
  encode_entries (entry k v es) =
      encode_argument_value v >>= λ j. encode_entries es >>= λ fs. ok (Fields.field k j fs)

unfoldable pub encode_argument_mapping : Entries → Result Fields
encode_argument_mapping es = require_unreserved_mapping es >> encode_entries es

-- The value of the only entry.
abbrev pub only_value : Result Entries → Result Value
only_value (ok (entry _ v end)) = ok (fallback v)
only_value (ok _) = err invalid_execution
only_value (err e) = err e

-- `isinstance(value, dict)` of _restore_recorded_value. Every error is an InvalidExecutionError, so
-- it does not matter that the entries are restored before the tests.
abbrev pub restored_dict : Fields → Result Entries → Result Value
restored_dict fs es =
    if is_some (field_of marker_key fs)
    then (if field_count fs == 1 then only_value es else err invalid_execution)
    else es >>= λ e. ok (dict e)

unfoldable mutual
  pub restore_recorded_value : Json → Result Value
  restore_recorded_value (Json.object fs) = restored_dict fs (restore_fields fs)
  restore_recorded_value (Json.array xs) = restore_items xs >>= λ vs. ok (list vs)
  restore_recorded_value Json.null = ok null
  restore_recorded_value (Json.boolean b) = ok (boolean b)
  restore_recorded_value (Json.integer n) = ok (integer n)
  restore_recorded_value (Json.float n) = ok (float n)
  restore_recorded_value (Json.string s) = ok (string s)

  pub restore_items : Items → Result Values
  restore_items Items.nil = ok nil
  restore_items (Items.item x xs) =
      restore_recorded_value x >>= λ v. restore_items xs >>= λ vs. ok (value v vs)

  pub restore_fields : Fields → Result Entries
  restore_fields Fields.end = ok end
  restore_fields (Fields.field k v fs) =
      restore_recorded_value v >>= λ w. restore_fields fs >>= λ es. ok (entry k w es)

pub record CanonicalArguments : Type 0 where
  pub data_bytes : Bytes

abbrev pub arguments_beq : CanonicalArguments → CanonicalArguments → Bool
arguments_beq a b = a.data_bytes == b.data_bytes

module _ ⦃p : Platform⦄ where
  abbrev pub encoded : Option Bytes → Result CanonicalArguments
  encoded none = err argument_canonicalization
  encoded (some b) = ok (record { data_bytes = b })

  -- encode_canonical, with the object around the mapping
  unfoldable pub encode_canonical : Json → Result CanonicalArguments
  encode_canonical v = encoded (p.json_dumps v)

  -- CanonicalArguments(arguments)
  unfoldable pub canonical_arguments : Entries → Result CanonicalArguments
  canonical_arguments es = encode_argument_mapping es >>= λ fs. encode_canonical (Json.object fs)

  abbrev pub decoded : Option Json → Result Entries
  decoded (some (Json.object fs)) = restore_fields fs
  decoded _ = err invalid_execution

  -- decode
  unfoldable pub decode : CanonicalArguments → Result Entries
  decode a = decoded (p.json_loads a.data_bytes)

  -- from_recorded_bytes
  unfoldable pub from_recorded_bytes : Bytes → Result CanonicalArguments
  from_recorded_bytes data_bytes = do
    let instance_of : CanonicalArguments = record { data_bytes = data_bytes }
    es ← decode instance_of
    again ← canonical_arguments es
    require (again.data_bytes == data_bytes) invalid_execution
    ok instance_of

  -- digest
  unfoldable pub digest : CanonicalArguments → ArgumentsDigest
  digest a = record { value = p.sha256_hexdigest a.data_bytes }
