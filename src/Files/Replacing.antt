-- ===== src/Files/Replacing.antt =====
-- About commit_mutations of the file client: the file has all of a batch, or is as it was.
use glyff.Prelude.{
  Text, Bytes, Option, none, some, [], ◌∷◌, ◌≡◌, refl, ap, arith, list_eq, nat_eq, inl, inr,
  Option-cases,
}
use glyff.Result.{Result, Error, ok, err, ◌>>=◌, Result-cases}
use glyff.Json.{Fields, Platform, sort_fields}
use glyff.Text.Utf8.{encode_utf8}
use glyff.Dict
use glyff.Dict.{Dict}
use glyff.Staging.{ExecutionKey, ExecutionMutation, Batch}
use glyff.Codec.{JsonText}
use glyff.Store.Applied.{Rows, applied}
use glyff.Files.Document.{
  SessionDocument, Document, File, DocumentFile, read_document, document_bytes, session_executions,
  or_empty, versions_in,
}
use glyff.Files.Update.{update_document, write_document}
use glyff.Files.Client.{apply_mutations, commit_mutations, apply}
use glyff.Files.Commits.{Ran, entry, rows, apply_mutations-Ran}

abbrev pub sorted_row : Option Fields → Option Fields
sorted_row none = none
sorted_row (some stored) = some (sort_fields stored)

-- The second document is the first one as it is read back: the same keys and values, with the keys
-- of each stored record in their order.
pub record IsReread (d d' : Document) : Type 0 where
  pub rows_sorted : (s q : Text) → rows d' s q ≡ sorted_row (rows d s q)
  pub versions_same :
      (s domain : Text) → Dict.get (versions_in d' s) domain ≡ Dict.get (versions_in d s) domain
  pub format_same : d'.format_version ≡ d.format_version

-- What the standard library documents of UTF-8 and `json`: text that can be encoded decodes from its
-- bytes, and what json.dumps writes of a document is read back by json.loads.
pub record IsDocumentText (j : JsonText) (f : DocumentFile) : Type 0 where
  pub decode-encode : (t : Text) (b : Bytes) → encode_utf8 t ≡ ok b → j.decode_text b ≡ some t
  pub loads-dumps :
      (d : Document) (t : Text)
      → f.dumps_document d ≡ some t
      → (d' : Document) × (f.loads_document t ≡ some d') × IsReread d d'

module _ ⦃j : JsonText⦄ ⦃files : DocumentFile⦄ where
  -- The bytes that become the file, if nothing of the write fails.
  abbrev pub replacement : Document → Result Bytes
  replacement d = document_bytes d >>= λ bytes. files.replace_file bytes >>= λ u. ok bytes

  -- What a commit leaves, by what it has to write: the error and the file as it was, or bytes that
  -- are read as the document that was written.
  abbrev pub Stored : File → Document → Result Bytes → Result (Unit {0}) × File → Type 0
  Stored f d (err e) done = done ≡ (err e, f)
  Stored f d (ok b) done =
      (done ≡ (ok tt, some b))
      × ((d' : Document) × (read_document (some b) ≡ ok d') × IsReread d d')

  -- … by what the records would be: what is written has those, and the domain versions and the format
  -- version of the document that was read.
  abbrev pub Changed : File → Document → Result (Rows Fields) → Result (Unit {0}) × File → Type 0
  Changed f d (err e) done = done ≡ (err e, f)
  Changed f d (ok rows') done =
      (d' : Document) × (rows d' ≡ rows')
      × ((s : Text) → versions_in d' s ≡ versions_in d s)
      × (d'.format_version ≡ d.format_version)
      × Stored f d' (replacement d') done

  reread :
      IsDocumentText j files
      → (d : Document) (b : Bytes) → document_bytes d ≡ ok b
      → (d' : Document) × (read_document (some b) ≡ ok d') × IsReread d d'
  unfolding document_bytes read_document
  reread law d b h = elim (Option-cases (files.dumps_document d)) [
    | inl bad ↦ absurd (ground (arith, rw bad at h))
    | inr (t, good) ↦
        let (d', loaded, same) = law.loads-dumps d t good in
        (d', rw (law.decode-encode t b (rw good at h)) (rw loaded refl), same)
  ]

  module _ ⦃p : Platform⦄ where
    -- … and by what is read.
    abbrev pub Replaced : Batch → File → Result Document → Result (Unit {0}) × File → Type 0
    Replaced [] f read done = done ≡ (ok tt, f)
    Replaced (x ∷ m) f (err e) done = done ≡ (err e, f)
    Replaced (x ∷ m) f (ok d) done = Changed f d (applied entry (x ∷ m) (rows d)) done

    update_document-unread :
        (m : Batch) (f : File) (e : Error)
        → read_document f ≡ err e
        → update_document (apply m) f ≡ (err e, f)
    unfolding update_document
    update_document-unread m f e h = rw h refl

    update_document-refused :
        (m : Batch) (f : File) (d : Document) (e : Error)
        → read_document f ≡ ok d
        → apply_mutations m (or_empty d.sessions) ≡ err e
        → update_document (apply m) f ≡ (err e, f)
    unfolding update_document
    update_document-refused m f d e h a = rw (h, a) refl

    update_document-Stored :
        IsDocumentText j files
        → (m : Batch) (f : File) (d : Document) (ss : Dict Text SessionDocument)
        → read_document f ≡ ok d
        → apply_mutations m (or_empty d.sessions) ≡ ok ss
        → Stored f
            (record d { sessions = some ss })
            (replacement (record d { sessions = some ss }))
            (update_document (apply m) f)
    unfolding update_document write_document
    update_document-Stored law m f d ss h a =
        elim (Result-cases (document_bytes (record d { sessions = some ss }))) [
          | inr (e, g) ↦ rw (h, a, g) refl
          | inl (b, g) ↦ elim (Result-cases (files.replace_file b)) [
            | inr (e, r) ↦ rw (h, a, g, r) refl
            | inl (u, r) ↦ rw (h, a, g, r) (refl, reread law (record d { sessions = some ss }) b g)
          ]
        ]

    changed :
        IsDocumentText j files
        → (m : Batch) (f : File) (d : Document) (r : Result (Rows Fields)) → read_document f ≡ ok d
        → Ran (or_empty d.sessions) r (apply_mutations m (or_empty d.sessions))
        → Changed f d r (update_document (apply m) f)
    unfolding session_executions
    changed law m f d (err e) h ran = update_document-refused m f d e h ran
    changed law m f d (ok rows') h (ss, done, same, still) = (
      record d { sessions = some ss },
      same,
      λ s. ap (λ v. v s) still,
      refl,
      update_document-Stored law m f d ss h done,
    )

    replaced :
        IsDocumentText j files
        → (x : ExecutionKey × ExecutionMutation) (m : Batch) (f : File) (read : Result Document)
        → read_document f ≡ read
        → Replaced (x ∷ m) f read (update_document (apply (x ∷ m)) f)
    unfolding session_executions
    replaced law x m f (err e) h = update_document-unread (x ∷ m) f e h
    replaced law x m f (ok d) h =
        changed law (x ∷ m) f d (applied entry (x ∷ m) (rows d)) h
          (apply_mutations-Ran (x ∷ m) (or_empty d.sessions))

    -- Given what is documented of UTF-8 and `json`, a commit to the file store writes the batch,
    -- mutation after mutation, each at the path of its key and as the object that its execution is
    -- stored as, and leaves the domain versions and the format version: the bytes of the file are then
    -- read back as that document, with the keys of each stored object in their order. Where the file
    -- cannot be read, a mutation cannot be written, the document cannot be encoded, or the file cannot
    -- be replaced, it raises that and leaves the file as it was. An empty batch touches no file.
    pub commit_mutations-Replaced :
        IsDocumentText j files
        → (m : Batch) (f : File) → Replaced m f (read_document f) (commit_mutations m f)
    unfolding commit_mutations
    commit_mutations-Replaced law [] f = refl
    commit_mutations-Replaced law (x ∷ m) f = replaced law x m f (read_document f) refl
