-- ===== src/Files/Update.antt =====
-- The write primitive of FileClient (packages/glyff-file-store/src/glyff_file_store/_file_client.py),
-- with what may fail of it, and the first write to a store.
use glyff.Prelude.{ℕ, Bool, Option, none, some, [], if◌then◌else◌, ◌==◌, nat_eq}
use glyff.Result.{Result, store_format_version}
use glyff.Exec.{Exec, pure, raise, lift, put, ◌>>=◌, ◌>>◌}
use glyff.Codec.{JsonText}
use glyff.Files.Document.{Document, File, DocumentFile, document_bytes, read_document}

-- _write_document_sync: an error leaves the file as it was.
unfoldable pub write_document : ⦃d : DocumentFile⦄ → Document → Exec File (Unit {0})
unfolding document_bytes
write_document ⦃d = d⦄ document = do
  bytes ← lift (document_bytes document)
  lift (d.replace_file bytes)
  put (some bytes)

-- DocumentUpdate
pub record DocumentUpdate (T : Type 0) : Type 0 where
  pub result : T
  pub changed : Bool

module _ ⦃j : JsonText⦄ ⦃d : DocumentFile⦄ where
  abbrev pub updated : {T : Type 0} → DocumentUpdate T × Document → Exec File T
  updated (update, document) =
      if update.changed
      then (do write_document document; pure update.result)
      else pure update.result

  -- update_document
  unfoldable pub update_document :
      {T : Type 0} → (Document → Result (DocumentUpdate T × Document)) → Exec File T
  unfolding read_document write_document
  update_document operation file =
      (do document ← lift (read_document file); update ← lift (operation document); updated update)
        file

  abbrev pub initialized : ℕ → Option ℕ → Exec File (Unit {0})
  initialized format_version none =
      write_document (record { format_version = some format_version; sessions = some [] })
  initialized format_version (some stored) =
      if stored == format_version then pure tt else raise store_format_version

  -- _initialize_sync
  unfoldable pub initialize : ℕ → Exec File (Unit {0})
  unfolding read_document write_document
  initialize format_version file =
      (do document ← lift (read_document file); initialized format_version document.format_version)
        file
