-- ===== src/Migration/Runner/Origins.antt =====
-- About the result of a transition's run: where its records come from.
use glyff.Prelude.{
  ℕ, zero, suc, Option, some, List, [], Text, ◌≡◌, refl, arith, ap, sym, ◌∙◌, inl, inr, option_eq,
  option_beq_iff, List-cases, Option-cases, filter, sorted, length, sorted-Memᴰ, filter-Memᴰ, subst,
}
use mathlib.Core.List.{Memᴰ}
use mathlib.Core.List.Memᴰ
use glyff.Types.{ExecutionId, execution_id_eq, parent_id}
use glyff.Types.Checks.{replacing}
use glyff.Result.{Result, ok, Result-cases}
use glyff.Json.{Platform}
use glyff.Dict
use glyff.Dict.{Dict}
use glyff.Arguments.{CanonicalArguments}
use glyff.Execution.{Execution}
use glyff.Migration.Session.{StoredSession, SessionMetadata, stored_session}
use glyff.Migration.Session.Accepts.{stored_session_lem}
use glyff.Migration.Rules.{DomainVersionTransition}
use glyff.Migration.Runner.{
  Children, listed, Rebuilding, by_sequence, round, rebuild_loop, rebuild, run_plan,
  require_source_versions, first_round, add_children, children_by_parent,
}
use glyff.Migration.Runner.Below.{has_parent}
use glyff.Migration.Runner.Rounds.{add_children-filter}
use glyff.Migration.Runner.Contents.{Rebuilt, root, Origin, IsSound, visit-IsSound}

module _ ⦃p : Platform⦄ {V : Type 0} (plan : DomainVersionTransition V)
    (canonicalize : Dict Text V → Result CanonicalArguments) where
  module _ (source : List Execution) (children : Children)
      (filed : (q : Option ExecutionId)
        → listed (Dict.get children q) ≡ filter (has_parent q) source) where
    pub kids-held :
        (q : Option ExecutionId) (e : Execution)
        → Memᴰ e (sorted by_sequence (listed (Dict.get children q)))
        → Memᴰ e source × (parent_id e.id ≡ q)
    kids-held q e m =
        let kid =
          subst (Memᴰ e) (filed q) (sorted-Memᴰ by_sequence e (listed (Dict.get children q)) m) in
        let (held, under) = filter-Memᴰ (has_parent q) e source kid in
        (held, (option_beq_iff (parent_id e.id) q).0 under)

    loop-Origin :
        (fuel : ℕ) (s : Rebuilding) (es : List Execution)
        → IsSound plan canonicalize source s
        → rebuild_loop plan canonicalize fuel children s ≡ some (ok es)
        → (m : Execution) → Memᴰ m es
        → Origin plan canonicalize source m
    unfolding rebuild_loop round
    loop-Origin zero s es sound h m q = elim (List-cases s.stack) [
      | inl done ↦
          let same : s.migrated ≡ es = ground (arith, rw done at h) in sound.origins m (rw same q)
      | inr (x, xs, e) ↦ absurd (ground (arith, rw e at h))
    ]
    loop-Origin (suc fuel) s es sound h m q = elim (List-cases s.stack) [
      | inl done ↦
          let same : s.migrated ≡ es = ground (arith, rw done at h) in sound.origins m (rw same q)
      | inr (x, xs, e) ↦
          let t = record s { stack = xs } in
          let popped : IsSound plan canonicalize source t = record {
            origins = sound.origins;
            converted = sound.converted;
            links = λ o n w. sound.links o n (rw e (Memᴰ.tail w));
          } in
          let link = sound.links (x.0) (x.1) (rw e (Memᴰ.head refl)) in
          elim (Result-cases (round plan canonicalize children x t)) [
            | inl (t', ran) ↦
                let next =
                  visit-IsSound plan canonicalize source (x.0) (x.1)
                    (sorted by_sequence (listed (Dict.get children (x.0)))) t t' (kids-held (x.0))
                    link popped ran in
                loop-Origin fuel t' es next (rw ran at (rw e at h)) m q
            | inr (raised, ran) ↦ absurd (ground (arith, rw ran at (rw e at h)))
          ]
    ]

  first_round-IsSound :
      (source : List Execution) → IsSound plan canonicalize source (first_round plan canonicalize)
  unfolding Dict.get
  first_round-IsSound source = record {
    origins = λ m q. absurd (Memᴰ.not-nil q);
    links = λ o n q.
        subst (λ w. Rebuilt plan canonicalize source (w.0) (w.1)) (sym (Memᴰ.eq_of_singleton q))
          root;
    converted = λ scope a q. absurd (ground (arith, q));
  }

  rebuild-Origin :
      (source : StoredSession) (es : List Execution)
      → rebuild plan canonicalize source ≡ some (ok es)
      → (m : Execution) → Memᴰ m es
      → Origin plan canonicalize source.executions m
  unfolding rebuild children_by_parent Dict.get
  rebuild-Origin source es h m q =
      let us = source.executions in
      elim (Result-cases (add_children us [] us)) [
        | inl (children, built) ↦
            loop-Origin us children (λ x. add_children-filter us [] us children built x)
              (suc (length us)) (first_round plan canonicalize) es (first_round-IsSound us)
              (rw built at h) m q
        | inr (e, raised) ↦ absurd (ground (arith, rw raised at h))
      ]

  pub run_plan-rebuild :
      (source s : StoredSession)
      → run_plan plan canonicalize source ≡ some (ok s)
      → (es : List Execution) × (rebuild plan canonicalize source ≡ some (ok es))
        × (s.executions ≡ es)
  unfolding run_plan
  run_plan-rebuild source s h =
      elim (Result-cases
        (require_source_versions plan canonicalize source.metadata.domain_versions)) [
          | inr (e, raised) ↦ absurd (ground (arith, rw raised at h))
          | inl (u, agreed) ↦ elim (Option-cases (rebuild plan canonicalize source)) [
            | inl out ↦ absurd (ground (arith, rw out at (rw agreed at h)))
            | inr (r, ends) ↦ elim (Result-cases r) [
              | inr (e, raised) ↦
                  absurd (ground (arith, rw raised at (rw ends at (rw agreed at h))))
              | inl (es, done) ↦
                  let metadata : SessionMetadata = record {
                    domain_versions =
                        replacing source.metadata.domain_versions plan.domain_id
                          plan.target_version;
                  } in
                  let built : stored_session metadata es ≡ ok s =
                    ground (arith, rw done at (rw ends at (rw agreed at h))) in
                  let (same, unique, covered) = rw built at (stored_session_lem metadata es) in
                  (es, ends ∙ ap some done, ap (λ x. x.executions) same)
            ]
          ]
        ]

  -- Each record that a transition's run returns comes from a record of the session that no rule
  -- drops, rebuilt: its status, its result, its metadata, its sequence and its domain are that
  -- record's, its name is the one that the rule gives, its digest is that of its arguments, these are
  -- what the rule makes of the arguments of a record in the same scope, and its ancestors are the
  -- record's ancestors, rebuilt in turn.
  pub run_plan-Origin :
      (source s : StoredSession)
      → run_plan plan canonicalize source ≡ some (ok s)
      → (m : Execution) → Memᴰ m s.executions
      → Origin plan canonicalize source.executions m
  unfolding run_plan
  run_plan-Origin source s h m q =
      let (es, rebuilt, same) = run_plan-rebuild source s h in
      rebuild-Origin source es rebuilt m (rw (sym same) q)
