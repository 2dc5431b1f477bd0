-- ===== src/Sqlite/Statements.antt =====
-- How the statements of SQLiteClient (packages/glyff-sqlite/src/glyff_sqlite/_sqlite_client.py) fail:
-- each binds its texts as UTF-8, where a lone surrogate raises UnicodeEncodeError, which is a
-- ValueError, and is then executed. What SQLite answers is a parameter.
use glyff.Prelude.{Text, Bool, Option, none, some, List, [], ◌∷◌}
use glyff.Result.{Result, ok, ◌>>=◌, ◌>>◌}
use glyff.Text.Utf8.{encode_utf8}
use glyff.Dict.{Dict}
use glyff.Sqlite.Rows.{ExecutionRecord, Tables}

-- What SQLite answers to connecting and BEGIN IMMEDIATE, given the tables, to a statement that writes,
-- given the texts that are bound, and to COMMIT, each with the sqlite3.Error that is raised; and
-- whether a ROLLBACK succeeds.
pub record Engine : Type 0 where
  pub begin : Tables → Result (Unit {0})
  pub execute : List Text → Result (Unit {0})
  pub commit : Tables → Result (Unit {0})
  pub rollback : Tables → Bool

unfoldable pub bind_texts : List Text → Result (Unit {0})
bind_texts [] = ok tt
bind_texts (t ∷ ts) = encode_utf8 t >>= λ bytes. bind_texts ts

module _ ⦃engine : Engine⦄ where
  -- connection.execute of a statement that writes
  unfoldable pub run_statement : List Text → Result (Unit {0})
  unfolding bind_texts
  run_statement texts = bind_texts texts >> engine.execute texts

  -- the rows of an executemany, each with its texts in the order of session_id, domain_id and version
  unfoldable pub insert_versions : Dict (Text × Text) Text → Result (Unit {0})
  unfolding run_statement
  insert_versions [] = ok tt
  insert_versions ((key, version) ∷ rows) =
      run_statement (key.0 ∷ key.1 ∷ version ∷ []) >> insert_versions rows

-- a result, which may be NULL, and the metadata
abbrev result_texts : Option Text → Text → List Text
result_texts none metadata = metadata ∷ []
result_texts (some result) metadata = result ∷ metadata ∷ []

-- the texts of a row of the executions table
abbrev pub row_texts : Text → Text → ExecutionRecord → List Text
row_texts session_id path r =
    session_id ∷ path ∷ r.arguments ∷ r.status ∷ result_texts r.result r.metadata
