-- ===== src/Sqlite/Options.antt =====
-- What SQLiteClient accepts to be made with (__init__ of
-- packages/glyff-sqlite/src/glyff_sqlite/_sqlite_client.py). `upper` and `lower` are those of `str`.
use glyff.Prelude.{
  ℕ, Text, Bool, true, false, ◌||◌, ◌&&◌, not, [], ◌∷◌, ◌++◌, codes, nat_beq, leb, ◌==◌, list_eq,
  nat_eq, member, List,
}
use glyff.Result.{Result, ok, ◌>>◌, require, value_error}
use glyff.Memory.{starts_with}

abbrev within : ℕ → ℕ → ℕ → Bool
within lo hi c = leb lo c && leb c hi

-- [A-Za-z_] and [A-Za-z0-9_]
abbrev pub starts_identifier : ℕ → Bool
starts_identifier c = within b'A' b'Z' c || within b'a' b'z' c || nat_beq c b'_'

abbrev pub in_identifier : ℕ → Bool
in_identifier c = starts_identifier c || within b'0' b'9' c

-- `$` also matches before a newline that ends the text.
abbrev pub rest_matches : Text → Bool
rest_matches [] = true
rest_matches (c ∷ []) = in_identifier c || nat_beq c 10
rest_matches (c ∷ d ∷ cs) = in_identifier c && rest_matches (d ∷ cs)

-- _IDENTIFIER_RE.match
unfoldable pub matches_identifier : Text → Bool
matches_identifier [] = false
matches_identifier (c ∷ cs) = starts_identifier c && rest_matches cs

-- _VALID_SYNCHRONOUS_VALUES
abbrev pub synchronous_values : List Text
synchronous_values = codes "OFF" ∷ codes "NORMAL" ∷ codes "FULL" ∷ codes "EXTRA" ∷ []

-- The tables that a prefix names, and how durable a write is.
pub record Options : Type 0 where
  pub synchronous : Text
  pub table_name : Text
  pub session_domains_table_name : Text
  pub meta_table_name : Text

module _ (upper lower : Text → Text) where
  abbrev pub is_reserved : Text → Bool
  is_reserved prefix =
      (lower prefix == codes "sqlite") || starts_with (codes "sqlite_") (lower prefix)

  -- SQLiteClient.__init__, of a path, `synchronous` and a prefix
  unfoldable pub options : Text → Text → Text → Result Options
  unfolding matches_identifier
  options database_path synchronous table_prefix = do
    require (member (upper synchronous) synchronous_values) value_error
    require (matches_identifier table_prefix) value_error
    require (not (is_reserved table_prefix)) value_error
    require (not (database_path == codes ":memory:")) value_error
    ok (record {
      synchronous = upper synchronous;
      table_name = table_prefix ++ codes "_executions";
      session_domains_table_name = table_prefix ++ codes "_session_domains";
      meta_table_name = table_prefix ++ codes "_meta";
    })
