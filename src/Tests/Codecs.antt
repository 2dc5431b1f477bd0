-- ===== src/Tests/Codecs.antt =====
-- A completed record of a call in the form that the text backends store.
use glyff.Prelude.{
  ℕ, Text, Bytes, Option, none, some, [], ◌∷◌, codes, ◌≡◌, refl, sym, arith, if◌then◌else◌, ltb,
  ◌==◌, list_eq, nat_eq, Bool-cases, Option-cases, inl, inr,
}
use glyff.Result.{ok}
use glyff.Json.{Json, Fields, ℤ}
use glyff.Text.Utf8.{encode_utf8, encode_char}
use glyff.Text.Decimal.{decimal}
use glyff.Execution.Lifecycle.{IsValid}
use glyff.Arguments.{digest}
use glyff.Dict
use glyff.Codec.{JsonText, json_bytes, execution_to_dict, execution_from_dict}
use glyff.Codec.Roundtrip.{IsDecoder, IsJsonText, execution_from_dict-execution_to_dict}
use glyff.Tests.Data.{test_platform, a_call, a_completed}
use glyff.Tests.Calls.{readable}

-- ASCII, numbers and null.
abbrev prepended : ℕ → Option Text → Option Text
prepended b none = none
prepended b (some t) = some (b ∷ t)

abbrev decode_ascii : Bytes → Option Text
decode_ascii [] = some []
decode_ascii (b ∷ bs) = if ltb b 0x80 then prepended b (decode_ascii bs) else none

abbrev pub read_json : Text → Option Json
read_json t = if t == codes "42" then some (Json.integer (ℤ.pos 42)) else none

abbrev pub write_json : Json → Text
write_json (Json.integer (ℤ.pos n)) = decimal n
write_json _ = codes "null"

instance abbrev pub ascii_json : JsonText
ascii_json = record { decode_text = decode_ascii; loads = read_json; dumps = write_json }

encode-decode_ascii : (b : Bytes) (t : Text) → decode_ascii b ≡ some t → encode_utf8 t ≡ ok b
unfolding encode_utf8 encode_char
encode-decode_ascii [] t h = ground (arith, h)
encode-decode_ascii (b ∷ bs) t h = elim (Bool-cases (ltb b 0x80)) [
  | inr high ↦ absurd (ground (arith, rw high at h))
  | inl low ↦ elim (Option-cases (decode_ascii bs)) [
    | inl bad ↦ absurd (ground (arith, rw bad at (rw low at h)))
    | inr (u, good) ↦
        let q : b ∷ u ≡ t = ground (arith, rw good at (rw low at h)) in
        rw (sym q) (rw (encode-decode_ascii bs u good) (ground arith))
  ]
]

ascii_json-IsDecoder : IsDecoder ascii_json
ascii_json-IsDecoder = record { encode-decode = encode-decode_ascii }

answer-IsJsonText : IsJsonText (codes "42")
unfolding json_bytes encode_utf8 encode_char decimal
answer-IsJsonText = record {
  text = codes "42";
  value = Json.integer (ℤ.pos 42);
  decoded = refl;
  loaded = refl;
  written = refl;
}

a_completed-IsValid : IsValid a_completed
unfolding digest Dict.get
a_completed-IsValid = record {
  keyed = refl;
  finished = refl;
  filed = record { unique = tt; keyed = λ k m h. absurd (ground (arith, h)) };
}

execution_from_dict-execution_to_dict_example :
    (fs : Fields) × (execution_to_dict a_completed ≡ ok fs)
    × (execution_from_dict a_call fs ≡ ok a_completed)
execution_from_dict-execution_to_dict_example =
    execution_from_dict-execution_to_dict ascii_json-IsDecoder a_completed (codes "x")
      a_completed-IsValid refl readable answer-IsJsonText tt
