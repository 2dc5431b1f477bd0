-- ===== src/Arguments/Sorting.antt =====
-- About restoring a recorded value whose keys json.dumps has sorted.
use glyff.Prelude.{
  Text, Bool, ◌≡◌, refl, ◌==◌, list_eq, nat_eq, arith, is_some, suc, ◌&&◌, ◌||◌, not, list_beq_iff,
}
use glyff.Result.{is_ok}
use glyff.Json.{
  Json, Items, Fields, field_of, field_count, insert_field, sort_keys, sort_items, sort_fields,
}
use glyff.Arguments.{
  marker_key, restore_recorded_value, restore_items, restore_fields, restored_dict,
}

has_marker-insert :
    (k : Text) (v : Json) (fs : Fields)
    → is_some (field_of marker_key (insert_field k v fs))
      ≡ ((k == marker_key) || is_some (field_of marker_key fs))
unfolding insert_field
has_marker-insert k v Fields.end = ground arith
has_marker-insert k v (Fields.field j w fs) =
    ground (arith, has_marker-insert k v fs, list_beq_iff k marker_key, list_beq_iff j marker_key)

field_count-insert :
    (k : Text) (v : Json) (fs : Fields) → field_count (insert_field k v fs) ≡ suc (field_count fs)
unfolding insert_field
field_count-insert k v Fields.end = refl
field_count-insert k v (Fields.field j w fs) = ground (arith, field_count-insert k v fs)

is_ok-restore-insert :
    (k : Text) (v : Json) (fs : Fields)
    → is_ok (restore_fields (insert_field k v fs))
      ≡ (is_ok (restore_recorded_value v) && is_ok (restore_fields fs))
unfolding insert_field restore_recorded_value
is_ok-restore-insert k v Fields.end = ground arith
is_ok-restore-insert k v (Fields.field j w fs) = ground (arith, is_ok-restore-insert k v fs)

-- When a recorded object can be restored, by its entries.
restorable : Fields → Bool
restorable fs =
    is_ok (restore_fields fs) && (not (is_some (field_of marker_key fs)) || (field_count fs == 1))

is_ok-restored_dict : (fs : Fields) → is_ok (restored_dict fs (restore_fields fs)) ≡ restorable fs
unfolding restorable restore_recorded_value
is_ok-restored_dict Fields.end = ground arith
is_ok-restored_dict (Fields.field k v Fields.end) = ground arith
is_ok-restored_dict (Fields.field k v (Fields.field j w fs)) = ground arith

pub has_marker-sort :
    (fs : Fields)
    → is_some (field_of marker_key (sort_fields fs)) ≡ is_some (field_of marker_key fs)
unfolding sort_keys
has_marker-sort Fields.end = refl
has_marker-sort (Fields.field k v fs) =
    ground (arith, has_marker-insert k (sort_keys v) (sort_fields fs), has_marker-sort fs)

field_count-sort : (fs : Fields) → field_count (sort_fields fs) ≡ field_count fs
unfolding sort_keys
field_count-sort Fields.end = refl
field_count-sort (Fields.field k v fs) =
    ground (arith, field_count-insert k (sort_keys v) (sort_fields fs), field_count-sort fs)

restorable-sort :
    (fs : Fields)
    → is_ok (restore_fields (sort_fields fs)) ≡ is_ok (restore_fields fs)
    → is_ok (restored_dict (sort_fields fs) (restore_fields (sort_fields fs)))
      ≡ is_ok (restored_dict fs (restore_fields fs))
unfolding restorable
restorable-sort fs h = ground (
  arith,
  h,
  is_ok-restored_dict fs,
  is_ok-restored_dict (sort_fields fs),
  has_marker-sort fs,
  field_count-sort fs,
)

mutual
  unfolding sort_keys restore_recorded_value

  pub is_ok-restore-sort :
      (j : Json) → is_ok (restore_recorded_value (sort_keys j)) ≡ is_ok (restore_recorded_value j)
  is_ok-restore-sort Json.null = refl
  is_ok-restore-sort (Json.boolean b) = refl
  is_ok-restore-sort (Json.integer n) = refl
  is_ok-restore-sort (Json.float n) = refl
  is_ok-restore-sort (Json.string s) = refl
  is_ok-restore-sort (Json.array xs) = ground (arith, is_ok-restore-sort_items xs)
  is_ok-restore-sort (Json.object fs) = restorable-sort fs (is_ok-restore-sort_fields fs)

  pub is_ok-restore-sort_items :
      (xs : Items) → is_ok (restore_items (sort_items xs)) ≡ is_ok (restore_items xs)
  is_ok-restore-sort_items Items.nil = refl
  is_ok-restore-sort_items (Items.item x xs) =
      ground (arith, is_ok-restore-sort x, is_ok-restore-sort_items xs)

  pub is_ok-restore-sort_fields :
      (fs : Fields) → is_ok (restore_fields (sort_fields fs)) ≡ is_ok (restore_fields fs)
  is_ok-restore-sort_fields Fields.end = refl
  is_ok-restore-sort_fields (Fields.field k v fs) = ground (
    arith,
    is_ok-restore-insert k (sort_keys v) (sort_fields fs),
    is_ok-restore-sort v,
    is_ok-restore-sort_fields fs,
  )
