-- ===== src/Sqlite/Rows.antt =====
-- The rows of a SQLite store (packages/glyff-sqlite/src/glyff_sqlite/_sqlite_client.py), how they are
-- made from executions, and what the queries give. A table is its rows under their primary keys. ORDER
-- BY path and the comparisons of paths are those of the BINARY collation.
use glyff.Prelude.{
  ℕ, suc, Text, Bool, true, ◌&&◌, not, Option, none, some, List, [], ◌∷◌, codes, sorted, text_leb,
  ltb, if◌then◌else◌, ◌==◌, list_eq, nat_eq, pair_eq,
}
use glyff.Types.{ExecutionId, DomainId, DomainVersion}
use glyff.Types.Checks.{domain_id, domain_version, domain_version_map}
use glyff.Result.{Result, ok, err, ◌>>=◌, value_error, lookup_error, key_error, type_error}
use glyff.Json.{Json, Fields, Platform, field_of}
use glyff.Dict
use glyff.Dict.{Dict}
use glyff.Execution.{Execution, SerializedValue}
use glyff.Codec.{JsonText, execution_to_dict, execution_from_dict, json_or_none}

-- FORMAT_VERSION
abbrev pub format_version : ℕ
format_version = 1

-- SQLiteExecutionRecord
pub record ExecutionRecord : Type 0 where
  pub arguments : Text
  pub status : Text
  pub result : Option Text
  pub metadata : Text

-- The tables that one prefix names: executions by (session_id, path), versions by (session_id,
-- domain_id), and the row of the meta table.
pub record Tables : Type 0 where
  pub executions : Dict (Text × Text) ExecutionRecord
  pub session_domains : Dict (Text × Text) Text
  pub meta : Option ℕ

-- _prefix_upper_bound. `chr` refuses what is past the last code point.
unfoldable pub prefix_upper_bound : Text → Result Text
prefix_upper_bound [] = err lookup_error
prefix_upper_bound (c ∷ []) = if ltb c 0x10ffff then ok (suc c ∷ []) else err value_error
prefix_upper_bound (c ∷ d ∷ cs) = prefix_upper_bound (d ∷ cs) >>= λ bound. ok (c ∷ bound)

-- a < b, on TEXT
abbrev pub text_ltb : Text → Text → Bool
text_ltb a b = not (text_leb b a)

abbrev pub path_leb : Text × ExecutionRecord → Text × ExecutionRecord → Bool
path_leb a b = text_leb a.0 b.0

-- the rows of one session whose path passes a test
abbrev pub rows_where :
    (Text → Bool) → Text → Dict (Text × Text) ExecutionRecord → List (Text × ExecutionRecord)
rows_where test session_id [] = []
rows_where test session_id ((key, r) ∷ rows) =
    let rest = rows_where test session_id rows in
    if (key.0 == session_id) && test (key.1) then (key.1, r) ∷ rest else rest

abbrev pub in_range : Text → Text → Text → Bool
in_range prefix bound path = text_leb prefix path && text_ltb path bound

-- _select_range, as the list of what the cursor gives
unfoldable pub select_range : Tables → Text → Text → Result (List (Text × ExecutionRecord))
unfolding prefix_upper_bound
select_range t session_id [] =
    ok (sorted path_leb (rows_where (λ path. true) session_id t.executions))
select_range t session_id (c ∷ cs) = prefix_upper_bound (c ∷ cs) >>= λ bound.
    ok (sorted path_leb (rows_where (in_range (c ∷ cs) bound) session_id t.executions))

-- read_session_executions
unfoldable pub read_session_executions : Tables → Text → List (Text × ExecutionRecord)
read_session_executions t session_id =
    sorted path_leb (rows_where (λ path. true) session_id t.executions)

-- read_committed
unfoldable pub read_committed : Tables → Text → Text → Option ExecutionRecord
read_committed t session_id path = Dict.get t.executions (session_id, path)

abbrev pub versions_of : Text → Dict (Text × Text) Text → Result (List (DomainId × DomainVersion))
versions_of session_id [] = ok []
versions_of session_id ((key, version) ∷ rows) =
    let rest = versions_of session_id rows in
    let here = domain_id (key.1) >>= λ d.
    domain_version version >>= λ v. rest >>= λ later. ok ((d, v) ∷ later) in
    if key.0 == session_id then here else rest

-- read_domain_versions
unfoldable pub read_domain_versions : Tables → Text → Result (Dict DomainId DomainVersion)
read_domain_versions t session_id =
    versions_of session_id t.session_domains >>= domain_version_map []

-- json.loads of a column. JSONDecodeError is a ValueError.
abbrev pub or_value_error {ℓ} : {A : Type ℓ} → Option A → Result A
or_value_error none = err value_error
or_value_error (some a) = ok a

-- stored[key], of an entry that is text
abbrev pub text_in : Option Json → Result Text
text_in none = err key_error
text_in (some (Json.string text)) = ok text
text_in (some _) = err type_error

module _ ⦃j : JsonText⦄ where
  abbrev pub result_column : Option SerializedValue → Json → Option Text
  result_column none stored = none
  result_column (some r) stored = some (j.dumps stored)

  -- SQLiteExecutionRecord.from_execution
  unfoldable pub from_execution : Execution → Result ExecutionRecord
  from_execution e = execution_to_dict e >>= λ stored.
      text_in (field_of (codes "arguments") stored) >>= λ arguments.
      text_in (field_of (codes "status") stored) >>= λ status. ok (record {
        arguments = arguments;
        status = status;
        result = result_column e.result (json_or_none (field_of (codes "result") stored));
        metadata = j.dumps (json_or_none (field_of (codes "metadata") stored));
      })

  abbrev pub loaded_result : Option Text → Result Json
  loaded_result none = ok Json.null
  loaded_result (some text) = or_value_error (j.loads text)

  abbrev pub stored_columns : ExecutionRecord → Json → Json → Fields
  stored_columns r result metadata = Fields.field (codes "arguments") (Json.string r.arguments) (
      Fields.field (codes "status") (Json.string r.status) (
        Fields.field (codes "result") result (Fields.field (codes "metadata") metadata Fields.end)))

  module _ ⦃p : Platform⦄ where
    -- SQLiteExecutionRecord.to_execution
    unfoldable pub record_to_execution : ExecutionId → ExecutionRecord → Result Execution
    record_to_execution execution_id r = loaded_result r.result >>= λ result.
        or_value_error (j.loads r.metadata) >>= λ metadata.
        execution_from_dict execution_id (stored_columns r result metadata)
