-- ===== src/Arguments/Roundtrip.antt =====
-- About _encode_argument_value and _restore_recorded_value, one after the other.
use glyff.Prelude.{◌≡◌, list_eq, nat_eq, arith, is_some, list_beq_iff, inl, inr}
use glyff.Result.{ok, Result-cases}
use glyff.Json.{Json, Items, Fields, field_of}
use glyff.Arguments.{
  Value, Values, Entries, marker_key, is_reserved, encode_argument_value, encode_values,
  encode_entries, restore_recorded_value, restore_items, restore_fields,
}

-- an encoded mapping has the marker exactly if its entries do
pub field_of-encode_entries :
    (es : Entries) (fs : Fields)
    → encode_entries es ≡ ok fs
    → is_some (field_of marker_key fs) ≡ is_reserved es
unfolding encode_argument_value
field_of-encode_entries Entries.end fs h = ground arith
field_of-encode_entries (Entries.entry k v es) fs h =
    elim (Result-cases (encode_argument_value v)) [
      | inl (j, e) ↦ elim (Result-cases (encode_entries es)) [
        | inl (gs, q) ↦ ground (arith, field_of-encode_entries es gs q)
        | inr (x, q) ↦ ground arith
      ]
      | inr (x, e) ↦ ground arith
    ]

mutual
  unfolding encode_argument_value restore_recorded_value

  pub restore-encode_value :
      (v : Value) (j : Json) → encode_argument_value v ≡ ok j → restore_recorded_value j ≡ ok v
  restore-encode_value Value.null j h = ground arith
  restore-encode_value (Value.boolean b) j h = ground arith
  restore-encode_value (Value.integer n) j h = ground arith
  restore-encode_value (Value.float n) j h = ground arith
  restore-encode_value (Value.string s) j h = ground arith
  restore-encode_value (Value.fallback v) j h = elim (Result-cases (encode_argument_value v)) [
    | inl (j', e) ↦ ground (arith, restore-encode_value v j' e)
    | inr (x, e) ↦ ground arith
  ]
  restore-encode_value (Value.list vs) j h = elim (Result-cases (encode_values vs)) [
    | inl (j', e) ↦ ground (arith, restore-encode_values vs j' e)
    | inr (x, e) ↦ ground arith
  ]
  restore-encode_value (Value.dict es) j h = elim (Result-cases (encode_entries es)) [
    | inl (j', e) ↦ ground (arith, restore-encode_entries es j' e, field_of-encode_entries es j' e)
    | inr (x, e) ↦ ground arith
  ]

  restore-encode_values :
      (vs : Values) (js : Items) → encode_values vs ≡ ok js → restore_items js ≡ ok vs
  restore-encode_values Values.nil js h = ground arith
  restore-encode_values (Values.value v vs) js h = elim (Result-cases (encode_argument_value v)) [
    | inl (j, e) ↦ elim (Result-cases (encode_values vs)) [
      | inl (l, q) ↦ ground (arith, restore-encode_value v j e, restore-encode_values vs l q)
      | inr (x, q) ↦ ground arith
    ]
    | inr (x, e) ↦ ground arith
  ]

  pub restore-encode_entries :
      (es : Entries) (fs : Fields) → encode_entries es ≡ ok fs → restore_fields fs ≡ ok es
  restore-encode_entries Entries.end fs h = ground arith
  restore-encode_entries (Entries.entry k v es) fs h =
      elim (Result-cases (encode_argument_value v)) [
        | inl (j, e) ↦ elim (Result-cases (encode_entries es)) [
          | inl (l, q) ↦ ground (arith, restore-encode_value v j e, restore-encode_entries es l q)
          | inr (x, q) ↦ ground arith
        ]
        | inr (x, e) ↦ ground arith
      ]

-- restored entries have the marker exactly if the recorded ones do
pub is_reserved-restore_fields :
    (fs : Fields) (es : Entries)
    → restore_fields fs ≡ ok es
    → is_reserved es ≡ is_some (field_of marker_key fs)
unfolding restore_recorded_value
is_reserved-restore_fields Fields.end es h = ground arith
is_reserved-restore_fields (Fields.field k v fs) es h =
    elim (Result-cases (restore_recorded_value v)) [
      | inl (w, e) ↦ elim (Result-cases (restore_fields fs)) [
        | inl (gs, q) ↦ ground (arith, is_reserved-restore_fields fs gs q)
        | inr (x, q) ↦ ground arith
      ]
      | inr (x, e) ↦ ground arith
    ]

mutual
  unfolding encode_argument_value restore_recorded_value

  pub encode-restore_value :
      (j : Json) (v : Value) → restore_recorded_value j ≡ ok v → encode_argument_value v ≡ ok j
  encode-restore_value Json.null v h = ground arith
  encode-restore_value (Json.boolean b) v h = ground arith
  encode-restore_value (Json.integer n) v h = ground arith
  encode-restore_value (Json.float n) v h = ground arith
  encode-restore_value (Json.string s) v h = ground arith
  encode-restore_value (Json.array xs) v h = elim (Result-cases (restore_items xs)) [
    | inl (vs, e) ↦ ground (arith, encode-restore_items xs vs e)
    | inr (x, e) ↦ ground arith
  ]
  encode-restore_value (Json.object Fields.end) v h = ground arith
  encode-restore_value (Json.object (Fields.field k x Fields.end)) v h =
      elim (Result-cases (restore_recorded_value x)) [
        | inl (w, e) ↦ ground (arith, encode-restore_value x w e, list_beq_iff k marker_key)
        | inr (y, e) ↦ ground arith
      ]
  encode-restore_value (Json.object (Fields.field k x (Fields.field l y fs))) v h =
      elim (Result-cases (restore_fields (Fields.field k x (Fields.field l y fs)))) [
        | inl (es, e) ↦ ground (
          arith,
          encode-restore_fields (Fields.field k x (Fields.field l y fs)) es e,
          is_reserved-restore_fields (Fields.field k x (Fields.field l y fs)) es e,
        )
        | inr (z, e) ↦ ground arith
      ]

  encode-restore_items :
      (xs : Items) (vs : Values) → restore_items xs ≡ ok vs → encode_values vs ≡ ok xs
  encode-restore_items Items.nil vs h = ground arith
  encode-restore_items (Items.item x xs) vs h = elim (Result-cases (restore_recorded_value x)) [
    | inl (w, e) ↦ elim (Result-cases (restore_items xs)) [
      | inl (ws, q) ↦ ground (arith, encode-restore_value x w e, encode-restore_items xs ws q)
      | inr (y, q) ↦ ground arith
    ]
    | inr (y, e) ↦ ground arith
  ]

  pub encode-restore_fields :
      (fs : Fields) (es : Entries) → restore_fields fs ≡ ok es → encode_entries es ≡ ok fs
  encode-restore_fields Fields.end es h = ground arith
  encode-restore_fields (Fields.field k x fs) es h =
      elim (Result-cases (restore_recorded_value x)) [
        | inl (w, e) ↦ elim (Result-cases (restore_fields fs)) [
          | inl (ws, q) ↦ ground (arith, encode-restore_value x w e, encode-restore_fields fs ws q)
          | inr (y, q) ↦ ground arith
        ]
        | inr (y, e) ↦ ground arith
      ]
