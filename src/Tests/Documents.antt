-- ===== src/Tests/Documents.antt =====
-- A file store, and a batch that is committed to it.
use glyff.Prelude.{
  ℕ, Text, Option, none, some, [], ◌∷◌, ◌≡◌, refl, arith, if◌then◌else◌, ◌==◌, nat_eq, nat_beq_iff,
  list_eq, inl, inr, Bool-cases, ap, subst,
}
use glyff.Types.{top}
use glyff.Result.{ok}
use glyff.Text.Utf8.{decode_utf8}
use glyff.Text.Quote.Laws.{decode-encode_utf8}
use glyff.Dict
use glyff.Dict.{Dict}
use glyff.Staging.{Batch, delete_execution}
use glyff.Backend.{key_of}
use glyff.Codec.{JsonText}
use glyff.Files.Document.{
  SessionDocument, Document, File, DocumentFile, Executions, read_document, session_executions,
}
use glyff.Files.Client.{commit_mutations}
use glyff.Files.Replacing.{IsReread, IsDocumentText, Replaced, commit_mutations-Replaced}
use glyff.Tests.Data.{test_platform, session, a_frame}
use glyff.Tests.Codecs.{read_json, write_json}

abbrev utf8_json : JsonText
utf8_json = record {
  decode_text = λ b. some (decode_utf8 b);
  loads = read_json;
  dumps = write_json;
}

-- Documents of one session that has no records, written as the name of the session.
abbrev of_session : Text → Document
of_session name = record {
  format_version = some 1;
  sessions = some ((name, record { executions = some []; domain_versions = none }) ∷ []);
}

abbrev write_version : Option ℕ → Text → Option Text
write_version none name = none
write_version (some v) name = if v == 1 then some name else none

abbrev write_session : Option ℕ → Text → Option Executions → Option (Dict Text Text) → Option Text
write_session v name (some []) none = write_version v name
write_session v name (some []) (some vs) = none
write_session v name (some (e ∷ es)) vs = none
write_session v name none vs = none

abbrev write_sessions : Option ℕ → Option (Dict Text SessionDocument) → Option Text
write_sessions v (some ((name, d) ∷ [])) = write_session v name d.executions d.domain_versions
write_sessions v (some (a ∷ b ∷ ds)) = none
write_sessions v (some []) = none
write_sessions v none = none

abbrev a_file : DocumentFile
a_file = record {
  loads_document = λ t. some (of_session t);
  dumps_document = λ d. write_sessions d.format_version d.sessions;
  replace_file = λ b. ok tt;
}

written_version :
    (v : Option ℕ) (name t : Text)
    → write_version v name ≡ some t
    → of_session t ≡ record {
      format_version = v;
      sessions = some ((name, record { executions = some []; domain_versions = none }) ∷ []);
    }
written_version none name t h = ground arith
written_version (some v) name t h = ground (arith, nat_beq_iff v 1)

written_session :
    (v : Option ℕ) (name t : Text) (e : Option Executions) (vs : Option (Dict Text Text))
    → write_session v name e vs ≡ some t
    → of_session t ≡ record {
      format_version = v;
      sessions = some ((name, record { executions = e; domain_versions = vs }) ∷ []);
    }
written_session v name t (some []) none h = written_version v name t h
written_session v name t (some []) (some vs) h = absurd (ground arith)
written_session v name t (some (e ∷ es)) vs h = absurd (ground arith)
written_session v name t none vs h = absurd (ground arith)

written_sessions :
    (v : Option ℕ) (t : Text) (ss : Option (Dict Text SessionDocument))
    → write_sessions v ss ≡ some t
    → of_session t ≡ record { format_version = v; sessions = ss }
written_sessions v t (some ((name, d) ∷ [])) h =
    written_session v name t d.executions d.domain_versions h
written_sessions v t (some (a ∷ b ∷ ds)) h = absurd (ground arith)
written_sessions v t (some []) h = absurd (ground arith)
written_sessions v t none h = absurd (ground arith)

no_rows : (t s q : Text) → Dict.get (session_executions (of_session t) s) q ≡ none
unfolding session_executions Dict.get
no_rows t s q = elim (Bool-cases (t == s)) [ inl same ↦ rw same refl | inr other ↦ rw other refl ]

of_session-IsReread : (t : Text) → IsReread (of_session t) (of_session t)
of_session-IsReread t = record {
  rows_sorted = λ s q. rw (no_rows t s q) refl;
  versions_same = λ s domain. refl;
  format_same = refl;
}

a_file-IsDocumentText : IsDocumentText utf8_json a_file
a_file-IsDocumentText = record {
  decode-encode = λ t b h. ap (λ u. some u) (decode-encode_utf8 t b h);
  loads-dumps = λ d t h. (
    of_session t,
    refl,
    subst (λ x. IsReread x (of_session t)) (written_sessions d.format_version t d.sessions h)
        (of_session-IsReread t),
  );
}

abbrev a_batch : Batch
a_batch = (key_of session (top a_frame), delete_execution) ∷ []

abbrev stored_file : File
stored_file = some session.value

commit_mutations-Replaced_example :
    Replaced ⦃j = utf8_json⦄ ⦃files = a_file⦄ a_batch stored_file
      (read_document ⦃j = utf8_json⦄ ⦃d = a_file⦄ stored_file)
      (commit_mutations ⦃j = utf8_json⦄ ⦃d = a_file⦄ a_batch stored_file)
commit_mutations-Replaced_example =
    commit_mutations-Replaced ⦃j = utf8_json⦄ ⦃files = a_file⦄ a_file-IsDocumentText a_batch
      stored_file
