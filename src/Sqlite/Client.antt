-- ===== src/Sqlite/Client.antt =====
-- The writes of SQLiteClient (packages/glyff-sqlite/src/glyff_sqlite/_sqlite_client.py). A statement
-- that SQLite carries out does to the rows what SQL says of it.
use glyff.Prelude.{
  ℕ, Text, not, Option, none, some, [], ◌∷◌, map, filter, if◌then◌else◌, ◌==◌, list_eq, nat_eq,
  pair_eq,
}
use glyff.Types.{DomainId, DomainVersion}
use glyff.Result.{assertion_error, store_format_version}
use glyff.Exec.{Exec, pure, raise, lift, put, ◌>>=◌, ◌>>◌}
use glyff.Json.{Platform}
use glyff.Dict
use glyff.Dict.{Dict}
use glyff.Execution.{Execution}
use glyff.Execution.Snapshot.{to_execution}
use glyff.Staging.{ExecutionKey, ExecutionMutation, save_execution, delete_execution, Batch}
use glyff.Path.{execution_id_to_path}
use glyff.Codec.{JsonText}
use glyff.Sqlite.Rows.{ExecutionRecord, Tables, format_version, from_execution}
use glyff.Sqlite.Statements.{Engine, run_statement, insert_versions, row_texts}
use glyff.Sqlite.Transaction.{run_immediate}

-- delete_session_executions
unfoldable pub delete_session_executions : ⦃engine : Engine⦄ → Text → Exec Tables (Unit {0})
unfolding run_statement
delete_session_executions session_id = do
  lift (run_statement (session_id ∷ []))
  λ t. put (record t { executions = filter (λ row. not (row.0.0 == session_id)) t.executions }) t

abbrev pub stamped : ⦃engine : Engine⦄ → Option ℕ → Exec Tables (Unit {0})
stamped none = do lift (run_statement []); λ t. put (record t { meta = some format_version }) t
stamped (some found) = if found == format_version then pure tt else raise store_format_version

-- _stamp_or_check_meta
unfoldable pub stamp_or_check_meta : ⦃engine : Engine⦄ → Exec Tables (Unit {0})
unfolding run_statement
stamp_or_check_meta t = stamped t.meta t

abbrev pub recorded_version : Option Text → Exec Tables Text
recorded_version none = raise assertion_error
recorded_version (some version) = pure version

-- INSERT … ON CONFLICT DO NOTHING into the session_domains table
abbrev pub insert_version : ⦃engine : Engine⦄ → Text × Text → Text → Exec Tables (Unit {0})
insert_version key version = do
  lift (run_statement (key.0 ∷ key.1 ∷ version ∷ []))
  λ t.
      if Dict.has t.session_domains key
      then pure tt t
      else put (record t { session_domains = Dict.set t.session_domains key version }) t

-- `claim` of claim_domain
abbrev pub claim : ⦃engine : Engine⦄ → Text → DomainId → Text → Exec Tables Text
claim session_id domain version t =
    (do
      insert_version (session_id, domain.value) version
      λ u. recorded_version (Dict.get u.session_domains (session_id, domain.value)) u)
      t

-- claim_domain
unfoldable pub claim_domain : ⦃engine : Engine⦄ → Text → DomainId → Text → Exec Tables Text
unfolding run_immediate run_statement
claim_domain session_id domain version = run_immediate (claim session_id domain version)

abbrev pub version_rows : Text → Dict DomainId DomainVersion → Dict (Text × Text) Text
version_rows session_id versions =
    map (λ entry. ((session_id, entry.0.value), entry.1.value)) versions

-- replace_domain_versions. The keys of a mapping are distinct, so no insertion conflicts, and what
-- comes before a row that cannot be bound is undone with the transaction.
unfoldable pub replace_domain_versions :
    ⦃engine : Engine⦄ → Text → Dict DomainId DomainVersion → Exec Tables (Unit {0})
unfolding insert_versions
replace_domain_versions session_id versions = do
  lift (run_statement (session_id ∷ []))
  lift (insert_versions (version_rows session_id versions))
  λ t.
      put
        (record t {
          session_domains =
              Dict.set_all (filter (λ row. not (row.0.0 == session_id)) t.session_domains)
                (version_rows session_id versions);
        })
        t

module _ ⦃j : JsonText⦄ ⦃p : Platform⦄ where
  abbrev pub written : Text → Text → ExecutionRecord → Exec Tables (Unit {0})
  written session_id path r t =
      put (record t { executions = Dict.set t.executions (session_id, path) r }) t

  -- upsert_execution
  unfoldable pub upsert_execution : ⦃engine : Engine⦄ → Text → Execution → Exec Tables (Unit {0})
  unfolding from_execution run_statement
  upsert_execution session_id e = do
    r ← lift (from_execution e)
    path ← lift (execution_id_to_path e.id)
    lift (run_statement (row_texts session_id path r))
    written session_id path r

  abbrev pub deleted : Text → Text → Exec Tables (Unit {0})
  deleted session_id path t =
      put (record t { executions = Dict.pop t.executions (session_id, path) }) t

  -- _apply_mutation
  unfoldable pub apply_mutation :
      ⦃engine : Engine⦄ → ExecutionKey → ExecutionMutation → Exec Tables (Unit {0})
  unfolding upsert_execution
  apply_mutation key delete_execution = do
    path ← lift (execution_id_to_path key.execution_id)
    lift (run_statement (key.session_id.value ∷ path ∷ []))
    deleted key.session_id.value path
  apply_mutation key (save_execution snapshot) = do
    e ← lift (to_execution snapshot)
    upsert_execution key.session_id.value e

  -- `apply` of commit_mutations
  unfoldable pub apply_mutations : ⦃engine : Engine⦄ → Batch → Exec Tables (Unit {0})
  unfolding apply_mutation
  apply_mutations [] = pure tt
  apply_mutations ((key, mutation) ∷ rest) = do apply_mutation key mutation; apply_mutations rest

  -- commit_mutations
  unfoldable pub commit_mutations : ⦃engine : Engine⦄ → Batch → Exec Tables (Unit {0})
  unfolding run_immediate apply_mutations
  commit_mutations [] = pure tt
  commit_mutations (m ∷ rest) = run_immediate (apply_mutations (m ∷ rest))
