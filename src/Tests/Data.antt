-- ===== src/Tests/Data.antt =====
-- A platform that writes objects of one null entry as their key, and a call recorded with it.
use glyff.Prelude.{
  Text, Bytes, Bool, true, false, Option, none, some, [], codes, ◌≡◌, refl, arith, text_leb,
  if◌then◌else◌, Bool-cases, inl, inr, ◌∙◌, sym,
}
use glyff.Types.{SessionId, Frame, ExecutionId, top, child}
use glyff.Json.{Json, Fields, Platform, IsStandard, sort_keys, sort_fields, insert_field}
use glyff.Arguments.{CanonicalArguments}
use glyff.Execution.{Execution, started, completed}

abbrev write_fields : Fields → Option Bytes
write_fields (Fields.field k Json.null Fields.end) = some k
write_fields _ = none

abbrev write : Json → Option Bytes
write (Json.object fs) = write_fields fs
write _ = none

abbrev read : Bytes → Option Json
read b = some (Json.object (Fields.field b Json.null Fields.end))

instance abbrev pub test_platform : Platform
test_platform = record { sha256_hexdigest = λ b. b; json_dumps = write; json_loads = read }

not_single :
    (k : Text) (v : Json) (j : Text) (w : Json) (fs : Fields)
    → write_fields (Fields.field k v (Fields.field j w fs)) ≡ none
not_single k v j w fs = ground arith

not_single_if :
    (test : Bool) (k j : Text) (v w : Json) (fs gs : Fields)
    → write_fields (
        if test
        then Fields.field k v (Fields.field j w fs)
        else Fields.field j w (insert_field k v gs))
      ≡ none
unfolding insert_field
not_single_if true k j v w fs gs = not_single k v j w fs
not_single_if false k j v w fs Fields.end = not_single j w k v Fields.end
not_single_if false k j v w fs (Fields.field i u gs) = elim (Bool-cases (text_leb k i)) [
  | inl le ↦ rw le (not_single j w k v (Fields.field i u gs))
  | inr gt ↦ rw gt (not_single j w i u (insert_field k v gs))
]

write-insert :
    (k : Text) (v : Json) (j : Text) (w : Json) (fs : Fields)
    → write_fields (insert_field k v (Fields.field j w fs)) ≡ none
unfolding insert_field
write-insert k v j w fs = not_single_if (text_leb k j) k j v w fs fs

write-insert_insert :
    (k : Text) (v : Json) (j : Text) (w : Json) (fs : Fields)
    → write_fields (insert_field k v (insert_field j w fs)) ≡ none
unfolding insert_field
write-insert_insert k v j w Fields.end = write-insert k v j w Fields.end
write-insert_insert k v j w (Fields.field i u fs) = elim (Bool-cases (text_leb j i)) [
  | inl le ↦ rw le (write-insert k v j w (Fields.field i u fs))
  | inr gt ↦ rw gt (write-insert k v i u (insert_field j w fs))
]

write-sort : (v : Json) → write (sort_keys v) ≡ write v
unfolding sort_keys insert_field
write-sort Json.null = refl
write-sort (Json.boolean b) = refl
write-sort (Json.integer n) = refl
write-sort (Json.float n) = refl
write-sort (Json.string t) = refl
write-sort (Json.array xs) = refl
write-sort (Json.object Fields.end) = refl
write-sort (Json.object (Fields.field k Json.null Fields.end)) = refl
write-sort (Json.object (Fields.field k (Json.boolean b) Fields.end)) = refl
write-sort (Json.object (Fields.field k (Json.integer n) Fields.end)) = refl
write-sort (Json.object (Fields.field k (Json.float n) Fields.end)) = refl
write-sort (Json.object (Fields.field k (Json.string t) Fields.end)) = refl
write-sort (Json.object (Fields.field k (Json.array xs) Fields.end)) = refl
write-sort (Json.object (Fields.field k (Json.object fs) Fields.end)) = refl
write-sort (Json.object (Fields.field k v (Fields.field j w fs))) =
    write-insert_insert k (sort_keys v) j (sort_keys w) (sort_fields fs)
    ∙ sym (not_single k v j w fs)

read-write : (v : Json) (b : Bytes) → write v ≡ some b → read b ≡ some (sort_keys v)
unfolding sort_keys insert_field
read-write v b h = ground (arith, h)

pub test_platform-IsStandard : IsStandard test_platform
test_platform-IsStandard = record { dumps_sorted = write-sort; loads_dumps = read-write }

abbrev pub session : SessionId
session = record { value = codes "run" }

abbrev pub a_frame : Frame
a_frame = record {
  domain_id = record { value = codes "billing" };
  name = record { value = codes "Job/go" };
  sequence = 12;
  arguments_digest = record { value = codes "x" };
}

abbrev pub a_call : ExecutionId
a_call = child (top a_frame) a_frame

abbrev pub some_arguments : CanonicalArguments
some_arguments = record { data_bytes = codes "x" }

abbrev pub a_started : Execution
a_started = record {
  id = a_call;
  status = started;
  arguments = some_arguments;
  result = none;
  metadata = [];
}

abbrev pub a_completed : Execution
a_completed = record {
  id = a_call;
  status = completed;
  arguments = some_arguments;
  result = some (record { data_bytes = codes "42" });
  metadata = [];
}
