-- ===== src/Execution/Snapshot/Restore.antt =====
-- About to_execution of a snapshot that from_execution took, in
-- packages/glyff/src/glyff/store/staging.py.
use glyff.Prelude.{
  Text, Bytes, Option, none, some, [], map, ◌≡◌, refl, arith, list_eq, nat_eq, sorted,
}
use glyff.Result.{ok}
use glyff.Json.{Platform}
use glyff.Arguments.{from_recorded_bytes}
use glyff.Dict
use glyff.Dict.{Dict, from_entries}
use glyff.Dict.Laws.{get-empty}
use glyff.Dict.Building.{
  get-set_all, get-sorted, get-map, map-IsUnique, map_option, set_all-IsUnique,
}
use glyff.Execution.{Execution, SerializedValue, Metadata, get_metadata}
use glyff.Execution.Lifecycle.{IsValid, IsFiled, post_init-IsValid}
use glyff.Execution.Snapshot.{
  item_leb, packed, unpacked, payload, serialized, from_execution, to_execution,
}

abbrev pub refiled : Dict Text Metadata → Dict Text Metadata
refiled d = from_entries (map unpacked (sorted item_leb (map packed d)))

abbrev pack_value : Text → Metadata → Bytes
pack_value k m = m.value.data_bytes

abbrev unpack_value : Text → Bytes → Metadata
unpack_value k b = record { key = k; value = record { data_bytes = b } }

pub get-refiled :
    (d : Dict Text Metadata) (k : Text) → IsFiled d → Dict.get (refiled d) k ≡ Dict.get d k
get-refiled d k h =
    let items = map packed d in
    let unique = map-IsUnique pack_value d h.unique in
    let (same, unique_sorted) = get-sorted item_leb items k unique in
    let entries = map unpacked (sorted item_leb items) in
    let unique_entries = map-IsUnique unpack_value (sorted item_leb items) unique_sorted in
    ground (
      arith,
      get-set_all entries [] k unique_entries,
      get-map unpack_value (sorted item_leb items) k,
      same,
      get-map pack_value d k,
      get-empty {V = Metadata} k,
      keyed (Dict.get d k) refl,
    )
  where
    keyed :
        (o : Option Metadata)
        → Dict.get d k ≡ o
        → map_option (unpack_value k) (map_option (pack_value k) o) ≡ o
    keyed none e = refl
    keyed (some m) e = ground (arith, h.keyed k m e)

refiled-IsFiled : (d : Dict Text Metadata) → IsFiled d → IsFiled (refiled d)
refiled-IsFiled d h = record {
  unique = set_all-IsUnique (map unpacked (sorted item_leb (map packed d))) [] tt;
  keyed = λ k m e. h.keyed k m (ground (arith, get-refiled d k h));
}

abbrev pub restored : Execution → Execution
restored e = record e { metadata = refiled e.metadata }

module _ ⦃p : Platform⦄ where
  restored-IsValid : (e : Execution) → IsValid e → IsValid (restored e)
  restored-IsValid e v = record {
    keyed = v.keyed;
    finished = v.finished;
    filed = refiled-IsFiled e.metadata v.filed;
  }

  serialized-payload : (o : Option SerializedValue) → serialized (payload o) ≡ o
  serialized-payload none = refl
  serialized-payload (some v) = refl

  -- Where an execution is valid and its arguments can be read back, its snapshot gives back a
  -- valid execution that differs at most in the order of the metadata.
  pub to_execution-from_execution :
      (e : Execution)
      → IsValid e
      → from_recorded_bytes e.arguments.data_bytes ≡ ok e.arguments
      → (to_execution (from_execution e) ≡ ok (restored e))
        × IsValid (restored e)
        × ((k : Text) → get_metadata (restored e) k ≡ get_metadata e k)
  unfolding to_execution from_execution get_metadata
  to_execution-from_execution e v readable = (
    rw (readable, serialized-payload e.result)
        (post_init-IsValid (restored e) (restored-IsValid e v)),
    restored-IsValid e v,
    λ k. get-refiled e.metadata k v.filed,
  )
