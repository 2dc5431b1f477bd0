-- ===== src/Files/Document.antt =====
-- The document of a file store (packages/glyff-file-store/src/glyff_file_store/_file_client.py), and
-- its bytes in the file.
use glyff.Prelude.{ℕ, Text, Bytes, Option, none, some, List, [], list_eq, nat_eq}
use glyff.Result.{Result, ok, err, ◌>>=◌, value_error}
use glyff.Json.{Fields}
use glyff.Text.Utf8.{encode_utf8}
use glyff.Dict
use glyff.Dict.{Dict}
use glyff.Codec.{JsonText}

-- Executions
abbrev pub Executions : Type 0
Executions = Dict Text Fields

-- What the document has of a session, where it has the keys.
pub record SessionDocument : Type 0 where
  pub executions : Option Executions
  pub domain_versions : Option (Dict Text Text)

pub record Document : Type 0 where
  pub format_version : Option ℕ
  pub sessions : Option (Dict Text SessionDocument)

abbrev pub empty_document : Document
empty_document = record { format_version = none; sessions = none }

abbrev pub empty_session : SessionDocument
empty_session = record { executions = none; domain_versions = none }

-- `{}` where a key is missing, in `get` and in `setdefault`
abbrev pub or_empty {ℓ} : {A : Type ℓ} → Option (List A) → List A
or_empty none = []
or_empty (some d) = d

abbrev pub session_or_empty : Option SessionDocument → SessionDocument
session_or_empty none = empty_session
session_or_empty (some s) = s

-- _session_executions
unfoldable pub session_executions : Document → Text → Executions
session_executions document session_id =
    or_empty (session_or_empty (Dict.get (or_empty document.sessions) session_id)).executions

abbrev pub versions_in : Document → Text → Dict Text Text
versions_in document session_id =
    or_empty (session_or_empty (Dict.get (or_empty document.sessions) session_id)).domain_versions

-- The bytes of the file, where it is there.
abbrev pub File : Type 0
File = Option Bytes

-- What the client takes from the standard library.
pub record DocumentFile : Type 0 where
  -- json.loads; none where it raises JSONDecodeError, or where the text is no document
  pub loads_document : Text → Option Document
  -- json.dumps(…, indent=2, sort_keys=True, ensure_ascii=False); none where it raises ValueError
  pub dumps_document : Document → Option Text
  -- the temporary file, os.fsync and, after its retries, os.replace, with the OSError raised
  pub replace_file : Bytes → Result (Unit {0})

abbrev or_value_error {ℓ} : {A : Type ℓ} → Option A → Result A
or_value_error none = err value_error
or_value_error (some a) = ok a

module _ ⦃j : JsonText⦄ ⦃d : DocumentFile⦄ where
  -- _read_document_sync. UnicodeDecodeError and JSONDecodeError are each a ValueError.
  unfoldable pub read_document : File → Result Document
  read_document none = ok empty_document
  read_document (some raw) =
      or_value_error (j.decode_text raw) >>= λ text. or_value_error (d.loads_document text)

-- the bytes that _write_document_sync makes of a document. A lone surrogate raises
-- UnicodeEncodeError, which is a ValueError.
unfoldable pub document_bytes : ⦃d : DocumentFile⦄ → Document → Result Bytes
document_bytes ⦃d = d⦄ document = or_value_error (d.dumps_document document) >>= encode_utf8

-- read_committed_executions
unfoldable pub read_committed_executions :
    ⦃j : JsonText⦄ → ⦃d : DocumentFile⦄ → File → Text → Result Executions
unfolding read_document session_executions
read_committed_executions file session_id =
    read_document file >>= λ document. ok (session_executions document session_id)
