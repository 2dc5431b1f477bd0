-- ===== src/Execution.antt =====
-- packages/glyff/src/glyff/_execution.py: the aggregate that one call is recorded as.
pub mod Lifecycle
pub mod Snapshot
use glyff.Prelude.{
  Text, Bytes, Bool, true, false, Option, none, some, ◌≡◌, if◌then◌else◌, ◌==◌, is_some, [],
  list_eq, nat_eq,
}
use glyff.Types.{ExecutionId, ArgumentsDigest, frame, arguments_digest_eq}
use glyff.Result.{Result, ok, err, ◌>>=◌, ◌>>◌, require, invalid_execution, value_error}
use glyff.Json.{Platform}
use glyff.Arguments.{CanonicalArguments, digest}
use glyff.Dict
use glyff.Dict.{Dict}

pub data ExecutionStatus : Type 0 where
  started completed : ExecutionStatus

abbrev pub is_completed : ExecutionStatus → Bool
is_completed started = false
is_completed completed = true

pub record SerializedValue : Type 0 where
  pub data_bytes : Bytes

pub record Metadata : Type 0 where
  pub key : Text
  pub value : SerializedValue

pub record Execution : Type 0 where
  pub id : ExecutionId
  pub status : ExecutionStatus
  pub arguments : CanonicalArguments
  pub result : Option SerializedValue
  pub metadata : Dict Text Metadata

module _ ⦃p : Platform⦄ where
  -- id.arguments_digest == arguments.digest
  abbrev pub is_keyed : Execution → Bool
  is_keyed e = (frame e.id).arguments_digest == digest e.arguments

  -- Execution.__post_init__
  unfoldable pub post_init : Execution → Result Execution
  post_init e = do
    require (is_keyed e) invalid_execution
    if is_completed e.status
        then require (is_some e.result) invalid_execution
        else require (if is_some e.result then false else true) invalid_execution
    ok e

  -- Execution.start
  unfoldable pub start : ExecutionId → CanonicalArguments → Result Execution
  unfolding post_init
  start execution_id arguments = post_init (record {
    id = execution_id;
    status = started;
    arguments = arguments;
    result = none;
    metadata = [];
  })

-- Execution.complete
unfoldable pub complete : Execution → SerializedValue → Result Execution
complete e result =
    if is_completed e.status
    then err value_error
    else ok (record e { status = completed; result = some result })

-- Execution.set_metadata
unfoldable pub set_metadata : Execution → Text → SerializedValue → Execution
set_metadata e key value = record e {
  metadata = Dict.set e.metadata key (record { key = key; value = value });
}

-- Execution.get_metadata
unfoldable pub get_metadata : Execution → Text → Option Metadata
get_metadata e key = Dict.get e.metadata key
