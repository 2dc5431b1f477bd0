-- ===== src/Json.antt =====
-- The JSON data model that canonical arguments are encoded into, and the parts of Python's `json`
-- and `hashlib` that the program calls, as parameters.
use glyff.Prelude.{
  Text, Bytes, ℕ, Bool, Option, none, some, ◌≡◌, text_leb, if◌then◌else◌, ◌==◌, list_eq, nat_eq,
  suc,
}

-- An `int`: `negsuc n` is -(n + 1).
pub data ℤ : Type 0 where
  pos : ℕ → ℤ
  negsuc : ℕ → ℤ

-- CanonicalValue. A `float` is given by the bits of its binary64 representation; an object is its
-- entries in insertion order.
mutual
  pub data Json : Type 0 where
    null : Json
    boolean : Bool → Json
    integer : ℤ → Json
    float : ℕ → Json
    string : Text → Json
    array : Items → Json
    object : Fields → Json

  pub data Items : Type 0 where
    nil : Items
    item : Json → Items → Items

  pub data Fields : Type 0 where
    end : Fields
    field : Text → Json → Fields → Fields

-- len(d)
abbrev pub field_count : Fields → ℕ
field_count end = 0
field_count (field _ _ fs) = suc (field_count fs)

-- d.get(key)
abbrev pub field_of : Text → Fields → Option Json
field_of k end = none
field_of k (field j v fs) = if j == k then some v else field_of k fs

unfoldable pub insert_field : Text → Json → Fields → Fields
insert_field k v end = field k v end
insert_field k v (field j w fs) =
    if text_leb k j then field k v (field j w fs) else field j w (insert_field k v fs)

-- The same value, with the keys of every object in the order of their code points.
unfoldable mutual
  unfolding insert_field

  pub sort_keys : Json → Json
  sort_keys (array xs) = array (sort_items xs)
  sort_keys (object fs) = object (sort_fields fs)
  sort_keys null = null
  sort_keys (boolean b) = boolean b
  sort_keys (integer n) = integer n
  sort_keys (float n) = float n
  sort_keys (string s) = string s

  pub sort_items : Items → Items
  sort_items nil = nil
  sort_items (item x xs) = item (sort_keys x) (sort_items xs)

  pub sort_fields : Fields → Fields
  sort_fields end = end
  sort_fields (field k v fs) = insert_field k (sort_keys v) (sort_fields fs)

-- What the program takes from the standard library.
pub record Platform : Type 0 where
  -- hashlib.sha256(data).hexdigest()
  pub sha256_hexdigest : Bytes → Text
  -- json.dumps(…, sort_keys=True, allow_nan=False).encode("utf-8"); none where it raises ValueError
  pub json_dumps : Json → Option Bytes
  -- json.loads with NaN and the infinities refused; none where it raises
  pub json_loads : Bytes → Option Json

-- What the standard library documents of them.
pub record IsStandard (p : Platform) : Type 0 where
  -- `sort_keys` writes the entries in the order of their keys
  pub dumps_sorted : (v : Json) → p.json_dumps (sort_keys v) ≡ p.json_dumps v
  -- reading back what was written gives the value, its keys in the order written
  pub loads_dumps :
      (v : Json) (b : Bytes) → p.json_dumps v ≡ some b → p.json_loads b ≡ some (sort_keys v)
