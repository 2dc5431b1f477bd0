-- ===== src/Tests/Durable.antt =====
-- A SQLite store, and a batch that is committed to it.
use glyff.Prelude.{Text, false, none, some, [], ◌∷◌, codes, ◌≡◌, refl}
use glyff.Types.{top}
use glyff.Result.{ok, ◌>>◌}
use glyff.Execution.Snapshot.{from_execution}
use glyff.Staging.{Batch, save_execution, delete_execution}
use glyff.Backend.{key_of}
use glyff.Text.Utf8.{encode_utf8, encode_char}
use glyff.Text.Quote.{quote, quote_bytes}
use glyff.Text.Split.{join}
use glyff.Text.Decimal.{decimal, digits_of}
use glyff.Path.{execution_id_to_path, format_frame, frames_up}
use glyff.Memory.{prefix_of}
use glyff.Store.Applied.{applied}
use glyff.Sqlite.Rows.{ExecutionRecord, Tables, select_range}
use glyff.Sqlite.Statements.{Engine}
use glyff.Sqlite.Client
use glyff.Sqlite.Commits
use glyff.Sqlite.Ranges.{rows_under, select_range_lem}
use glyff.Tests.Data.{test_platform, session, a_frame, a_call, a_completed}
use glyff.Tests.Codecs.{ascii_json}

abbrev outer_path : Text
outer_path = codes "billing:Job%2Fgo#12:x"

abbrev a_batch : Batch
a_batch =
    (key_of session (top a_frame), delete_execution)
    ∷ (key_of session a_call, save_execution (from_execution a_completed))
    ∷ []

abbrev old_row : ExecutionRecord
old_row = record {
  arguments = codes "x";
  status = codes "started";
  result = none;
  metadata = codes "null";
}

abbrev stored : Tables
stored = record {
  executions = ((session.value, outer_path), old_row) ∷ [];
  session_domains = ((session.value, codes "billing"), codes "v1") ∷ [];
  meta = some 1;
}

-- SQLite begins each transaction, and fails to roll one back.
instance abbrev an_engine : Engine
an_engine = record {
  begin = λ t. ok tt;
  execute = λ ts. ok tt;
  commit = λ t. ok tt;
  rollback = λ t. false;
}

commit_mutations-Committed_example :
    Commits.Committed a_batch stored
      (Commits.begun a_batch stored >> applied Commits.entry a_batch (Commits.rows stored))
      (Client.commit_mutations a_batch stored)
commit_mutations-Committed_example = Commits.commit_mutations-Committed a_batch stored

abbrev under_outer : Text
under_outer = codes "billing:Job%2Fgo#12:x/"

outer_prefix : prefix_of (some (top a_frame)) ≡ ok under_outer
unfolding prefix_of execution_id_to_path format_frame quote encode_utf8 join decimal digits_of
    frames_up quote_bytes encode_char
outer_prefix = refl

select_range_lem_example :
    select_range stored session.value under_outer ≡ ok (rows_under stored session.value under_outer)
select_range_lem_example =
    select_range_lem stored session.value (some (top a_frame)) under_outer outer_prefix
