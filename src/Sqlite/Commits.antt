-- ===== src/Sqlite/Commits.antt =====
-- About commit_mutations of the SQLite client: all of a batch, or none of it.
use glyff.Prelude.{
  Text, Option, none, some, [], ◌∷◌, list_eq, nat_eq, pair_eq, ◌≡◌, refl, ◌∙◌, fun_ext, inl, inr,
}
use glyff.Result.{Result, ok, err, ◌>>=◌, ◌>>◌, Result-cases}
use glyff.Json.{Platform}
use glyff.Dict
use glyff.Dict.{Dict}
use glyff.Dict.Laws.{get-set, get-pop}
use glyff.Execution.Snapshot.{to_execution}
use glyff.Staging.{ExecutionKey, ExecutionMutation, save_execution, delete_execution, Batch}
use glyff.Path.{execution_id_to_path}
use glyff.Codec.{JsonText}
use glyff.Store.Applied.{Rows, row_set, applied}
use glyff.Sqlite.Rows.{ExecutionRecord, Tables, from_execution}
use glyff.Sqlite.Statements.{Engine, run_statement, row_texts}
use glyff.Sqlite.Transaction.{run_immediate}
use glyff.Sqlite.Atomic.{closed, run_immediate-unbegun, run_immediate-err, run_immediate-ok}
use glyff.Sqlite.Client.{upsert_execution, apply_mutation, apply_mutations, commit_mutations}

abbrev pub rows : Tables → Rows ExecutionRecord
rows t s q = Dict.get t.executions (s, q)

module _ ⦃j : JsonText⦄ ⦃p : Platform⦄ ⦃engine : Engine⦄ where
  -- Where the client writes a mutation, and what.
  abbrev pub entry : ExecutionKey → ExecutionMutation → Result (Text × Option ExecutionRecord)
  entry key delete_execution = execution_id_to_path key.execution_id >>= λ path.
      run_statement (key.session_id.value ∷ path ∷ []) >>= λ bound. ok (path, none)
  entry key (save_execution snapshot) = to_execution snapshot >>= λ e. from_execution e >>= λ r.
      execution_id_to_path e.id >>= λ path.
      run_statement (row_texts key.session_id.value path r) >>= λ bound. ok (path, some r)

  -- The tables after one write.
  abbrev after : Tables → Text → Text × Option ExecutionRecord → Tables
  after t s (path, none) = record t { executions = Dict.pop t.executions (s, path) }
  after t s (path, some r) = record t { executions = Dict.set t.executions (s, path) r }

  rows-after :
      (t : Tables) (s : Text) (w : Text × Option ExecutionRecord)
      → rows (after t s w) ≡ row_set (rows t) s (w.0) (w.1)
  rows-after t s (path, none) =
      fun_ext (λ s'. fun_ext (λ q. get-pop t.executions (s, path) (s', q)))
  rows-after t s (path, some r) =
      fun_ext (λ s'. fun_ext (λ q. get-set t.executions (s, path) (s', q) r))

  -- One mutation is written, or refused with the tables as they were.
  abbrev Written :
      Tables → Text → Result (Text × Option ExecutionRecord) → Result (Unit {0}) × Tables → Type 0
  Written t s (ok w) done = done ≡ (ok tt, after t s w)
  Written t s (err e) done = done ≡ (err e, t)

  apply_mutation-Written :
      (key : ExecutionKey) (m : ExecutionMutation) (t : Tables)
      → Written t key.session_id.value (entry key m) (apply_mutation key m t)
  unfolding apply_mutation upsert_execution
  apply_mutation-Written key delete_execution t =
      elim (Result-cases (execution_id_to_path key.execution_id)) [
        | inr (e, h) ↦ rw h refl
        | inl (path, h) ↦ elim (Result-cases (run_statement (key.session_id.value ∷ path ∷ []))) [
          | inr (x, g) ↦ rw (h, g) refl
          | inl (u, g) ↦ rw (h, g) refl
        ]
      ]
  apply_mutation-Written key (save_execution snapshot) t =
      elim (Result-cases (to_execution snapshot)) [
        | inr (x, h) ↦ rw h refl
        | inl (e, h) ↦ elim (Result-cases (from_execution e)) [
          | inr (x, g) ↦ rw (h, g) refl
          | inl (r, g) ↦ elim (Result-cases (execution_id_to_path e.id)) [
            | inr (x, f) ↦ rw (h, g, f) refl
            | inl (path, f) ↦
                elim (Result-cases (run_statement (row_texts key.session_id.value path r))) [
                  | inr (x, b) ↦ rw (h, g, f, b) refl
                  | inl (u, b) ↦ rw (h, g, f, b) refl
                ]
          ]
        ]
      ]

  -- What the loop over a batch leaves, by what the records would be. On an error, some of the batch
  -- may be written.
  abbrev Ran : Tables → Result (Rows ExecutionRecord) → Result (Unit {0}) × Tables → Type 0
  Ran t (err e) done = done.0 ≡ err e
  Ran t (ok rows') done =
      (done.0 ≡ ok tt)
      × (rows (done.1) ≡ rows')
      × ((done.1).session_domains ≡ t.session_domains)
      × ((done.1).meta ≡ t.meta)

  after-others :
      (t : Tables) (s : Text) (w : Text × Option ExecutionRecord)
      → ((after t s w).session_domains ≡ t.session_domains) × ((after t s w).meta ≡ t.meta)
  after-others t s (path, none) = (refl, refl)
  after-others t s (path, some r) = (refl, refl)

  Ran-through :
      (t t' : Tables) (r : Result (Rows ExecutionRecord)) (done : Result (Unit {0}) × Tables)
      → (t'.session_domains ≡ t.session_domains) × (t'.meta ≡ t.meta)
      → Ran t' r done
      → Ran t r done
  Ran-through t t' (ok rows') done (domains, meta) (a, b, c, d) = (a, b, c ∙ domains, d ∙ meta)
  Ran-through t t' (err e) done same h = h

  apply_mutations-Ran :
      (m : Batch) (t : Tables) → Ran t (applied entry m (rows t)) (apply_mutations m t)
  unfolding apply_mutations
  apply_mutations-Ran [] t = (refl, refl, refl, refl)
  apply_mutations-Ran ((key, x) ∷ rest) t = elim (Result-cases (entry key x)) [
    | inr (e, h) ↦
        let done : apply_mutation key x t ≡ (err e, t) = rw h at (apply_mutation-Written key x t) in
        rw h (rw done refl)
    | inl (w, h) ↦
        let s = key.session_id.value in
        let done : apply_mutation key x t ≡ (ok tt, after t s w) =
          rw h at (apply_mutation-Written key x t) in
        let later = rw (rows-after t s w) at (apply_mutations-Ran rest (after t s w)) in
        rw h (
          rw done (
            Ran-through t (after t s w) (applied entry rest (row_set (rows t) s (w.0) (w.1)))
              (apply_mutations rest (after t s w)) (after-others t s w) later))
  ]

  -- What SQLite answers to the start of the transaction of a batch, and to its end. An empty batch
  -- has none.
  abbrev pub begun : Batch → Tables → Result (Unit {0})
  begun [] t = ok tt
  begun (x ∷ m) t = engine.begin t

  abbrev pub ended : Batch → Tables → Result (Unit {0})
  ended [] t = ok tt
  ended (x ∷ m) t = engine.commit t

  -- What a commit leaves, by what the records would be: the error and the tables as they were, or
  -- the records that the batch makes, with the other tables as they were, if COMMIT succeeds.
  abbrev pub Committed :
      Batch → Tables → Result (Rows ExecutionRecord) → Result (Unit {0}) × Tables → Type 0
  Committed m t (err e) done = done ≡ (err e, t)
  Committed m t (ok rows') done =
      (t' : Tables) × (rows t' ≡ rows')
      × (t'.session_domains ≡ t.session_domains)
      × (t'.meta ≡ t.meta)
      × (done ≡ closed t t' tt (ended m t'))

  immediate :
      (x : ExecutionKey × ExecutionMutation) (m : Batch) (t : Tables) (began : Result (Unit {0}))
      → engine.begin t ≡ began
      → (r : Result (Rows ExecutionRecord)) → Ran t r (apply_mutations (x ∷ m) t)
      → Committed (x ∷ m) t (began >> r) (run_immediate (apply_mutations (x ∷ m)) t)
  immediate x m t (err e) failed r ran = run_immediate-unbegun (apply_mutations (x ∷ m)) t e failed
  immediate x m t (ok u) began (err e) ran =
      run_immediate-err (apply_mutations (x ∷ m)) t e began ran
  immediate x m t (ok u) began (ok rows') (a, b, c, d) = (
    (apply_mutations (x ∷ m) t).1,
    b,
    c,
    d,
    run_immediate-ok (apply_mutations (x ∷ m)) t tt began a,
  )

  -- A commit writes the batch in one transaction, mutation after mutation, each at the path of its
  -- record and in the form of a row, and leaves the other tables. Where SQLite does not begin the
  -- transaction, or a mutation cannot be written (its text cannot be bound as UTF-8, say, or
  -- SQLite refuses the statement), or SQLite refuses the COMMIT, it raises that and leaves all as it was, whether or not the ROLLBACK
  -- succeeds. An empty batch starts no transaction.
  pub commit_mutations-Committed :
      (m : Batch) (t : Tables)
      → Committed m t (begun m t >> applied entry m (rows t)) (commit_mutations m t)
  unfolding commit_mutations
  commit_mutations-Committed [] t = (t, refl, refl, refl, refl)
  commit_mutations-Committed (x ∷ m) t =
      immediate x m t (engine.begin t) refl (applied entry (x ∷ m) (rows t))
        (apply_mutations-Ran (x ∷ m) t)
