-- ===== src/Files/Commits.antt =====
-- About the loop of commit_mutations of the file client, over the sessions of a document.
use glyff.Prelude.{
  Text, Option, none, some, [], ◌∷◌, if◌then◌else◌, ◌==◌, list_eq, nat_eq, ◌≡◌, refl, ap, ◌∙◌,
  fun_ext, inl, inr, Bool-cases, list_beq_iff,
}
use glyff.Result.{Result, ok, err, ◌>>=◌, Result-cases}
use glyff.Json.{Fields, Platform}
use glyff.Dict
use glyff.Dict.{Dict}
use glyff.Dict.Laws.{get-set, get-pop}
use glyff.Execution.Snapshot.{to_execution}
use glyff.Staging.{ExecutionKey, ExecutionMutation, save_execution, delete_execution, Batch}
use glyff.Path.{execution_id_to_path}
use glyff.Codec.{JsonText, execution_to_dict}
use glyff.Store.Applied.{Rows, row_set, applied}
use glyff.Files.Document.{
  SessionDocument, Document, Executions, session_executions, or_empty, session_or_empty,
}
use glyff.Files.Client.{put_executions, apply_mutation, apply_mutations}

abbrev pub Sessions : Type 0
Sessions = Dict Text SessionDocument

abbrev pub executions_at : Sessions → Text → Executions
executions_at ss s = or_empty (session_or_empty (Dict.get ss s)).executions

abbrev pub versions_at : Sessions → Text → Dict Text Text
versions_at ss s = or_empty (session_or_empty (Dict.get ss s)).domain_versions

abbrev pub rows_at : Sessions → Rows Fields
rows_at ss s q = Dict.get (executions_at ss s) q

abbrev pub rows : Document → Rows Fields
rows d s q = Dict.get (session_executions d s) q

module _ (ss : Sessions) (s : Text) (change : Executions → Executions) where
  executions-put :
      (s' : Text)
      → executions_at (put_executions ss s change) s'
        ≡ (if s == s' then change (executions_at ss s) else executions_at ss s')
  executions-put s' = elim (Bool-cases (s == s')) [
    | inl same ↦ rw (get-set ss s s' _) (rw same refl)
    | inr other ↦ rw (get-set ss s s' _) (rw other refl)
  ]

  versions-put : versions_at (put_executions ss s change) ≡ versions_at ss
  versions-put = fun_ext (λ s'. elim (Bool-cases (s == s')) [
    | inl same ↦ rw (get-set ss s s' _) (rw same (ap (versions_at ss) ((list_beq_iff s s').0 same)))
    | inr other ↦ rw (get-set ss s s' _) (rw other refl)
  ])

module _ ⦃j : JsonText⦄ ⦃p : Platform⦄ where
  -- Where the client writes a mutation, and what.
  abbrev pub entry : ExecutionKey → ExecutionMutation → Result (Text × Option Fields)
  entry key delete_execution = execution_id_to_path key.execution_id >>= λ path. ok (path, none)
  entry key (save_execution snapshot) = execution_id_to_path key.execution_id >>= λ path.
      to_execution snapshot >>= λ e. execution_to_dict e >>= λ stored. ok (path, some stored)

  abbrev changed : Text × Option Fields → Executions → Executions
  changed (path, none) es = Dict.pop es path
  changed (path, some stored) es = Dict.set es path stored

  abbrev after : Sessions → Text → Text × Option Fields → Sessions
  after ss s w = put_executions ss s (changed w)

  get-changed :
      (w : Text × Option Fields) (es : Executions) (q : Text)
      → Dict.get (changed w es) q ≡ (if w.0 == q then w.1 else Dict.get es q)
  get-changed (path, none) es q = get-pop es path q
  get-changed (path, some stored) es q = get-set es path q stored

  rows-after :
      (ss : Sessions) (s : Text) (w : Text × Option Fields)
      → rows_at (after ss s w) ≡ row_set (rows_at ss) s (w.0) (w.1)
  rows-after ss s w = fun_ext (λ s'. fun_ext (λ q. elim (Bool-cases (s == s')) [
    | inl same ↦ rw (executions-put ss s (changed w) s') (
        rw same (
          get-changed w (executions_at ss s) q
          ∙ ap (λ x. if w.0 == q then w.1 else rows_at ss x q) ((list_beq_iff s s').0 same)))
    | inr other ↦ rw (executions-put ss s (changed w) s') (rw other refl)
  ]))

  -- One mutation is written, or refused.
  abbrev Written : Sessions → Text → Result (Text × Option Fields) → Result Sessions → Type 0
  Written ss s (ok w) done = done ≡ ok (after ss s w)
  Written ss s (err e) done = done ≡ err e

  apply_mutation-Written :
      (key : ExecutionKey) (m : ExecutionMutation) (ss : Sessions)
      → Written ss key.session_id.value (entry key m) (apply_mutation key m ss)
  unfolding apply_mutation
  apply_mutation-Written key delete_execution ss =
      elim (Result-cases (execution_id_to_path key.execution_id)) [
        | inl (path, h) ↦ rw h refl
        | inr (e, h) ↦ rw h refl
      ]
  apply_mutation-Written key (save_execution snapshot) ss =
      elim (Result-cases (execution_id_to_path key.execution_id)) [
        | inr (x, h) ↦ rw h refl
        | inl (path, h) ↦ elim (Result-cases (to_execution snapshot)) [
          | inr (x, g) ↦ rw h (rw g refl)
          | inl (e, g) ↦ elim (Result-cases (execution_to_dict e)) [
            | inr (x, f) ↦ rw h (rw g (rw f refl))
            | inl (stored, f) ↦ rw h (rw g (rw f refl))
          ]
        ]
      ]

  -- What the loop leaves.
  abbrev pub Ran : Sessions → Result (Rows Fields) → Result Sessions → Type 0
  Ran ss (err e) done = done ≡ err e
  Ran ss (ok rows') done =
      (ss' : Sessions) × (done ≡ ok ss')
      × (rows_at ss' ≡ rows')
      × (versions_at ss' ≡ versions_at ss)

  Ran-through :
      (ss ss' : Sessions) (r : Result (Rows Fields)) (done : Result Sessions)
      → versions_at ss' ≡ versions_at ss
      → Ran ss' r done
      → Ran ss r done
  Ran-through ss ss' (ok rows') done same (end, a, b, c) = (end, a, b, c ∙ same)
  Ran-through ss ss' (err e) done same h = h

  pub apply_mutations-Ran :
      (m : Batch) (ss : Sessions) → Ran ss (applied entry m (rows_at ss)) (apply_mutations m ss)
  unfolding apply_mutations
  apply_mutations-Ran [] ss = (ss, refl, refl, refl)
  apply_mutations-Ran ((key, x) ∷ rest) ss = elim (Result-cases (entry key x)) [
    | inr (e, h) ↦
        let done : apply_mutation key x ss ≡ err e = rw h at (apply_mutation-Written key x ss) in
        rw h (rw done refl)
    | inl (w, h) ↦
        let s = key.session_id.value in
        let done : apply_mutation key x ss ≡ ok (after ss s w) =
          rw h at (apply_mutation-Written key x ss) in
        let later = rw (rows-after ss s w) at (apply_mutations-Ran rest (after ss s w)) in
        rw h (
          rw done (
            Ran-through ss (after ss s w) (applied entry rest (row_set (rows_at ss) s (w.0) (w.1)))
              (apply_mutations rest (after ss s w)) (versions-put ss s (changed w)) later))
  ]
