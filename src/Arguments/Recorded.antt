-- ===== src/Arguments/Recorded.antt =====
-- About from_recorded_bytes of packages/glyff/src/glyff/_canonical_arguments.py.
use glyff.Prelude.{
  true, refl, Bool-cases, Bytes, ◌≡◌, ◌==◌, list_eq, nat_eq, arith, some, false, list_beq_iff,
  beq_refl, inl, inr, ◌∙◌, Option-cases,
}
use glyff.Result.{ok, err, argument_canonicalization, Result-cases}
use glyff.Json.{Json, Fields, Platform, IsStandard, sort_keys, sort_fields}
use glyff.Arguments.{
  Entries, CanonicalArguments, canonical_arguments, encode_canonical, encode_argument_mapping,
  encode_entries, decode, from_recorded_bytes, is_reserved, restore_fields,
}
use glyff.Arguments.Roundtrip.{
  restore-encode_entries, encode-restore_fields, field_of-encode_entries,
  is_reserved-restore_fields,
}
use glyff.Arguments.Sorting.{is_ok-restore-sort_fields, has_marker-sort}

module _ ⦃p : Platform⦄ where
  -- the bytes of a mapping, taken apart
  written :
      (es : Entries) (a : CanonicalArguments)
      → canonical_arguments es ≡ ok a
      → (fs : Fields) × (is_reserved es ≡ false)
        × (encode_entries es ≡ ok fs)
        × (p.json_dumps (Json.object fs) ≡ some a.data_bytes)
  unfolding canonical_arguments encode_argument_mapping encode_canonical
  written es a h = elim (Bool-cases (is_reserved es)) [
    | inl r ↦ absurd (ground arith)
    | inr r ↦ elim (Result-cases (encode_entries es)) [
      | inl (fs, e) ↦ (fs, r, e, ground (arith, Option-cases (p.json_dumps (Json.object fs))))
      | inr (x, e) ↦ absurd (ground arith)
    ]
  ]

  canonical_arguments-eq-ok :
      (es : Entries) (fs : Fields) (b : Bytes)
      → is_reserved es ≡ false
      → encode_entries es ≡ ok fs
      → p.json_dumps (Json.object fs) ≡ some b
      → canonical_arguments es ≡ ok (record { data_bytes = b })
  unfolding canonical_arguments encode_argument_mapping encode_canonical
  canonical_arguments-eq-ok es fs b r e d = ground arith

  -- Recorded bytes that `from_recorded_bytes` accepts are kept untouched, and are the canonical
  -- bytes of some mapping of arguments.
  pub from_recorded_bytes-canonical :
      (b : Bytes) (a : CanonicalArguments)
      → from_recorded_bytes b ≡ ok a
      → (a.data_bytes ≡ b) × ((es : Entries) × (canonical_arguments es ≡ ok a))
  unfolding from_recorded_bytes
  from_recorded_bytes-canonical b a h = elim (Result-cases (decode (record { data_bytes = b }))) [
    | inl (es, d) ↦ elim (Result-cases (canonical_arguments es)) [
      | inl (again, c) ↦ elim (Bool-cases (again.data_bytes == b)) [
        | inl same ↦ (ground arith, (es, ground (arith, list_beq_iff again.data_bytes b)))
        | inr other ↦ absurd (ground arith)
      ]
      | inr (x, c) ↦ absurd (ground arith)
    ]
    | inr (x, d) ↦ absurd (ground arith)
  ]

  module _ (standard : IsStandard p) where
    decode-written :
        (es : Entries) (a : CanonicalArguments) (fs : Fields)
        → encode_entries es ≡ ok fs
        → p.json_dumps (Json.object fs) ≡ some a.data_bytes
        → (es' : Entries) × (decode a ≡ ok es') × (restore_fields (sort_fields fs) ≡ ok es')
    unfolding decode sort_keys
    decode-written es a fs e d = elim (Result-cases (restore_fields (sort_fields fs))) [
      | inl (es', q) ↦
          (es', ground (arith, standard.loads_dumps (Json.object fs) a.data_bytes d), q)
      | inr (x, q) ↦
          absurd (ground (arith, is_ok-restore-sort_fields fs, restore-encode_entries es fs e))
    ]

    -- Given what the documentation of `json` says, canonical arguments are accepted when they
    -- are read back from their bytes, and have the very same bytes.
    pub from_recorded_bytes-canonical_arguments :
        (es : Entries) (a : CanonicalArguments)
        → canonical_arguments es ≡ ok a
        → from_recorded_bytes a.data_bytes ≡ ok a
    unfolding from_recorded_bytes sort_keys
    from_recorded_bytes-canonical_arguments es a h =
        let (fs, free, e, d) = written es a h in
        let (es', dec, r) = decode-written es a fs e d in
        let free' : is_reserved es' ≡ false = ground (
          arith,
          is_reserved-restore_fields (sort_fields fs) es' r,
          has_marker-sort fs,
          field_of-encode_entries es fs e,
        ) in
        let again =
          canonical_arguments-eq-ok es' (sort_fields fs) a.data_bytes free'
            (encode-restore_fields (sort_fields fs) es' r)
            (standard.dumps_sorted (Json.object fs) ∙ d) in
        ground (arith, dec, again, beq_refl a.data_bytes)

    -- Given what the documentation of `json` says, the bytes of a mapping that has the reserved key
    -- outermost, and that can be written as JSON, decode; and from_recorded_bytes refuses them with
    -- ArgumentCanonicalizationError.
    pub from_recorded_bytes-is_reserved :
        (es : Entries) (fs : Fields) (b : Bytes)
        → is_reserved es ≡ true
        → encode_entries es ≡ ok fs
        → p.json_dumps (Json.object fs) ≡ some b
        → ((es' : Entries) × (decode (record { data_bytes = b }) ≡ ok es'))
          × (from_recorded_bytes b ≡ err argument_canonicalization)
    unfolding from_recorded_bytes canonical_arguments encode_argument_mapping sort_keys
    from_recorded_bytes-is_reserved es fs b reserved e d =
        let (es', dec, r) = decode-written es (record { data_bytes = b }) fs e d in
        let reserved' : is_reserved es' ≡ true = ground (
          arith,
          is_reserved-restore_fields (sort_fields fs) es' r,
          has_marker-sort fs,
          field_of-encode_entries es fs e,
        ) in
        ((es', dec), rw dec (rw reserved' refl))
