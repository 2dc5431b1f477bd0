-- ===== src/Codec/Roundtrip.antt =====
-- About execution_from_dict of what execution_to_dict gave.
use glyff.Prelude.{
  Text, Bytes, Option, none, some, [], ◌∷◌, ◌≡◌, refl, arith, ap, sym, ◌∙◌, is_some, list_eq,
  nat_eq, list_beq_iff, beq_refl,
}
use glyff.Result.{ok}
use glyff.Json.{Json, Fields, Platform}
use glyff.Text.Utf8.{encode_utf8}
use glyff.Arguments.{from_recorded_bytes}
use glyff.Dict
use glyff.Dict.{Dict}
use glyff.Dict.Laws.{IsUnique}
use glyff.Dict.Building.{from_entries-IsUnique}
use glyff.Execution.{
  Execution, ExecutionStatus, started, completed, is_completed, SerializedValue, Metadata,
}
use glyff.Execution.Lifecycle.{IsValid, IsFiled, post_init-IsValid}
use glyff.Codec.{
  JsonText, validate_json_text_value, pack_value, json_bytes, unpack_value, pack_metadata,
  unpack_entries, unpack_metadata, pack_arguments, execution_to_dict, execution_from_dict,
  stored_result, status_name, stored_status, stored_fields,
}

-- What the standard library documents of decoding: bytes decode only to the text that they encode.
pub record IsDecoder (j : JsonText) : Type 0 where
  pub encode-decode : (b : Bytes) (t : Text) → j.decode_text b ≡ some t → encode_utf8 t ≡ ok b

module _ ⦃j : JsonText⦄ where
  -- The bytes are JSON text, in the spelling that the codec writes.
  pub record IsJsonText (b : Bytes) : Type 0 where
    pub text : Text
    pub value : Json
    pub decoded : j.decode_text b ≡ some text
    pub loaded : j.loads text ≡ some value
    pub written : json_bytes value ≡ ok b

  abbrev pub IsJsonResult : Option SerializedValue → Type 0
  IsJsonResult none = Unit
  IsJsonResult (some v) = IsJsonText v.data_bytes

  abbrev pub AreJson : Dict Text Metadata → Type 0
  AreJson [] = Unit
  AreJson ((k, m) ∷ d) = IsJsonText m.value.data_bytes × AreJson d

  packed_value :
      (v : SerializedValue) (h : IsJsonText v.data_bytes) → validate_json_text_value v ≡ ok h.value
  unfolding validate_json_text_value
  packed_value v h = rw h.decoded (rw h.loaded refl)

  unpacked_value : (v : SerializedValue) (h : IsJsonText v.data_bytes) → unpack_value h.value ≡ ok v
  unfolding unpack_value
  unpacked_value v h = rw h.written refl

  -- Every entry is under its own key.
  abbrev AreKeyed : Dict Text Metadata → Type 0
  AreKeyed [] = Unit
  AreKeyed ((k, m) ∷ d) = (m.key ≡ k) × AreKeyed d

  IsFiled-AreKeyed :
      (d : Dict Text Metadata)
      → IsUnique d
      → ((k : Text) (m : Metadata) → Dict.get d k ≡ some m → m.key ≡ k)
      → AreKeyed d
  unfolding Dict.get
  IsFiled-AreKeyed [] unique keyed = tt
  IsFiled-AreKeyed ((k, m) ∷ d) unique keyed = (
    keyed k m (rw (beq_refl k) refl),
    IsFiled-AreKeyed d unique.1
        (λ i n q. keyed i n (ground (arith, q, unique.0, list_beq_iff k i))),
  )

  unpack-pack_entries :
      (acc d : Dict Text Metadata)
      → AreJson d
      → AreKeyed d
      → (fs : Fields) × (pack_metadata d ≡ ok fs)
        × (unpack_entries acc fs ≡ ok (Dict.set_all acc d))
  unfolding pack_metadata unpack_entries
  unpack-pack_entries acc [] texts keyed = (Fields.end, refl, refl)
  unpack-pack_entries acc ((k, m) ∷ d) texts keyed =
      let (fs, packed, unpacked) = unpack-pack_entries (Dict.set acc k m) d texts.1 keyed.1 in
      let same : record { key = k; value = m.value } ≡ m =
        ap (λ x. record { key = x; value = m.value }) (sym keyed.0) in
      (
        Fields.field k (texts.0).value fs,
        rw (packed_value m.value texts.0) (rw packed refl),
        rw (unpacked_value m.value texts.0) (rw same unpacked),
      )

  unpack-pack_result :
      (status : ExecutionStatus) (result : Option SerializedValue)
      → is_some result ≡ is_completed status
      → IsJsonResult result
      → (v : Json) × (pack_value result ≡ ok v) × (stored_result status (some v) ≡ ok result)
  unfolding pack_value
  unpack-pack_result started none finished text = (Json.null, refl, refl)
  unpack-pack_result started (some r) finished text = absurd (ground (arith, finished))
  unpack-pack_result completed none finished text = absurd (ground (arith, finished))
  unpack-pack_result completed (some r) finished text =
      (text.value, packed_value r text, rw (unpacked_value r text) refl)

  unpack-pack_metadata :
      (d : Dict Text Metadata)
      → IsFiled d
      → AreJson d
      → (fs : Fields) × (pack_metadata d ≡ ok fs) × (unpack_metadata (Json.object fs) ≡ ok d)
  unfolding unpack_metadata
  unpack-pack_metadata d filed texts =
      let keyed = IsFiled-AreKeyed d filed.unique filed.keyed in
      let (fs, packed, unpacked) = unpack-pack_entries [] d texts keyed in
      (fs, packed, unpacked ∙ ap ok (from_entries-IsUnique d filed.unique))

  status-status_name :
      (s : ExecutionStatus) → stored_status (some (Json.string (status_name s))) ≡ ok s
  status-status_name started = refl
  status-status_name completed = refl

  -- Where bytes decode only to the text that they encode: the object that a valid execution is stored
  -- as gives that execution back, if its arguments decode and are accepted when they are read back, and
  -- its result and its metadata are JSON text as the codec writes it.
  pub execution_from_dict-execution_to_dict :
      ⦃p : Platform⦄ (documented : IsDecoder j) (e : Execution) (t : Text)
      → IsValid e
      → j.decode_text e.arguments.data_bytes ≡ some t
      → from_recorded_bytes e.arguments.data_bytes ≡ ok e.arguments
      → IsJsonResult e.result
      → AreJson e.metadata
      → (fs : Fields) × (execution_to_dict e ≡ ok fs) × (execution_from_dict e.id fs ≡ ok e)
  unfolding execution_to_dict execution_from_dict pack_arguments
  execution_from_dict-execution_to_dict documented e t valid text readable result metadata =
      let (v, packed, unpacked) = unpack-pack_result e.status e.result valid.finished result in
      let (fs, filed, refiled) = unpack-pack_metadata e.metadata valid.filed metadata in
      let encoded = documented.encode-decode e.arguments.data_bytes t text in
      (
        stored_fields t e.status v fs,
        rw text (rw packed (rw filed refl)),
        rw (status-status_name e.status)
            (rw encoded (rw readable (rw unpacked (rw refiled (post_init-IsValid e valid))))),
      )
