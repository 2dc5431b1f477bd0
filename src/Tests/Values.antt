-- ===== src/Tests/Values.antt =====
-- Canonical arguments and executions.
use glyff.Prelude.{Text, Bytes, codes, ◌≡◌, refl}
use glyff.Types.{frame}
use glyff.Result.{ok, err, value_error, argument_canonicalization}
use glyff.Json.{Json, Fields}
use glyff.Arguments.{
  Value, Entries, entry, end, canonical_arguments, from_recorded_bytes, digest,
  encode_argument_mapping, encode_canonical, encode_entries, decode, restore_fields,
}
use glyff.Arguments.Recorded.{
  from_recorded_bytes-is_reserved, from_recorded_bytes-canonical,
  from_recorded_bytes-canonical_arguments,
}
use glyff.Execution.{SerializedValue, complete, set_metadata, get_metadata}
use glyff.Execution.Lifecycle.{
  IsValid, started_execution-IsValid, complete-IsValid, set_metadata-IsValid, completed_execution,
}
use glyff.Execution.Snapshot.{from_execution, to_execution}
use glyff.Execution.Snapshot.Restore.{to_execution-from_execution, restored}
use glyff.Tests.Data.{test_platform, test_platform-IsStandard, a_call, some_arguments, a_started}

abbrev some_entries : Entries
some_entries = entry (codes "x") Value.null end

encoded : canonical_arguments some_entries ≡ ok some_arguments
unfolding canonical_arguments encode_argument_mapping encode_canonical encode_entries
encoded = refl

readable : from_recorded_bytes (codes "x") ≡ ok some_arguments
unfolding from_recorded_bytes canonical_arguments encode_argument_mapping encode_canonical decode
    restore_fields encode_entries
readable = refl

from_recorded_bytes-canonical_arguments_example :
    from_recorded_bytes (codes "x") ≡ ok some_arguments
from_recorded_bytes-canonical_arguments_example =
    from_recorded_bytes-canonical_arguments test_platform-IsStandard some_entries some_arguments
      encoded

from_recorded_bytes-canonical_example :
    (codes "x" ≡ codes "x") × ((es : Entries) × (canonical_arguments es ≡ ok some_arguments))
from_recorded_bytes-canonical_example =
    from_recorded_bytes-canonical (codes "x") some_arguments readable

keyed : (frame a_call).arguments_digest ≡ digest some_arguments
unfolding digest
keyed = refl

a_started-IsValid : IsValid a_started
a_started-IsValid = started_execution-IsValid a_call some_arguments keyed

abbrev answer : SerializedValue
answer = record { data_bytes = codes "42" }

complete-IsValid_example :
    (complete a_started answer ≡ ok (completed_execution a_started answer))
    × IsValid (completed_execution a_started answer)
    × ((s : SerializedValue) → complete (completed_execution a_started answer) s ≡ err value_error)
complete-IsValid_example = complete-IsValid a_started answer a_started-IsValid refl

set_metadata-IsValid_example : IsValid (set_metadata a_started (codes "note") answer)
set_metadata-IsValid_example =
    set_metadata-IsValid a_started (codes "note") answer a_started-IsValid

to_execution-from_execution_example :
    (to_execution (from_execution a_started) ≡ ok (restored a_started))
    × IsValid (restored a_started)
    × ((k : Text) → get_metadata (restored a_started) k ≡ get_metadata a_started k)
to_execution-from_execution_example =
    to_execution-from_execution a_started a_started-IsValid readable

abbrev reserved_entries : Entries
reserved_entries = entry (codes "__glyff_fallback__") Value.null end

abbrev reserved_bytes : Bytes
reserved_bytes = codes "__glyff_fallback__"

abbrev reserved_object : Fields
reserved_object = Fields.field (codes "__glyff_fallback__") Json.null Fields.end

reserved_fields : encode_entries reserved_entries ≡ ok reserved_object
unfolding encode_entries
reserved_fields = refl

from_recorded_bytes-is_reserved_example :
    ((es' : Entries) × (decode (record { data_bytes = reserved_bytes }) ≡ ok es'))
    × (from_recorded_bytes reserved_bytes ≡ err argument_canonicalization)
from_recorded_bytes-is_reserved_example =
    from_recorded_bytes-is_reserved test_platform-IsStandard reserved_entries reserved_object
      reserved_bytes refl reserved_fields refl
