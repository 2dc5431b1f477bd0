-- ===== src/Migration/Runner/Kept.antt =====
-- About the result of a transition's run: that no record is lost.
use glyff.Prelude.{
  ℕ, zero, suc, ◌+◌, false, Option, none, some, List, [], ◌∷◌, ◌++◌, Text, ◌≡◌, refl, arith, ap,
  ◌∙◌, inl, inr, option_eq, List-cases, filter, sorted, length,
}
use mathlib.Core.List.{Memᴰ}
use glyff.Types.{ExecutionId, execution_id_eq}
use glyff.Result.{Result, ok, >>=-eq-ok, Result-cases}
use glyff.Json.{Platform}
use glyff.Dict
use glyff.Dict.{Dict}
use glyff.Arguments.{CanonicalArguments}
use glyff.Execution.{Execution}
use glyff.Migration.Ids.{HaveUniqueIds}
use glyff.Migration.Session.{StoredSession}
use glyff.Migration.Rules.{DomainVersionTransition, Rule, remap_rule, drop_rule}
use glyff.Migration.Runner.{
  Children, listed, Rebuilding, by_sequence, visit_by, visit, round, rebuild_loop, rebuild,
  run_plan, first_round, add_children, children_by_parent,
}
use glyff.Migration.Runner.Below.{has_parent, below_count}
use glyff.Migration.Runner.Moves.{move-eq-ok}
use glyff.Migration.Runner.Weights.{rounds_of}
use glyff.Migration.Runner.Rounds.{add_children-filter}
use glyff.Migration.Runner.Contents.{drops, rule_of}
use glyff.Migration.Runner.Origins.{kids-held, run_plan-rebuild}
use glyff.Migration.Runner.Covering.{IsClosed, add_children-IsClosed, child_rounds_all}

length-concat {ℓ} : {A : Type ℓ} (xs : List A) (x : A) → length (xs ++ x ∷ []) ≡ suc (length xs)
length-concat [] x = refl
length-concat (y ∷ xs) x = omega (arith, length-concat xs x)

-- The records that a stack still leads to.
abbrev ahead : List (Option ExecutionId × Option ExecutionId) → List Execution → ℕ
ahead [] us = 0
ahead (x ∷ xs) us = below_count (x.0) us + ahead xs us

abbrev total : Rebuilding → List Execution → ℕ
total s us = length s.migrated + ahead s.stack us

below_all : (us : List Execution) → below_count none us ≡ length us
below_all [] = refl
below_all (u ∷ us) = omega (arith, below_all us)

module _ ⦃p : Platform⦄ {V : Type 0} (plan : DomainVersionTransition V)
    (canonicalize : Dict Text V → Result CanonicalArguments) (us : List Execution) where
  visit_by-total :
      (np : Option ExecutionId) (e : Execution) (s s' : Rebuilding) (rule : Option (Rule V))
      → drops rule ≡ false
      → visit_by plan canonicalize rule np e s ≡ ok s'
      → total s' us ≡ suc (below_count (some e.id) us) + total s us
  unfolding visit_by
  visit_by-total np e s s' none kept h =
      let m = move-eq-ok plan canonicalize np e none s s' h in
      rw m.state (omega (arith, length-concat s.migrated m.moved))
  visit_by-total np e s s' (some (remap_rule r)) kept h =
      let m = move-eq-ok plan canonicalize np e (some r) s s' h in
      rw m.state (omega (arith, length-concat s.migrated m.moved))
  visit_by-total np e s s' (some (drop_rule d)) kept h = absurd (ground (arith, kept))

  visit-total :
      (np : Option ExecutionId) (es : List Execution) (s s' : Rebuilding)
      → ((e : Execution) → Memᴰ e es → drops (rule_of plan canonicalize us e) ≡ false)
      → visit plan canonicalize np es s ≡ ok s'
      → total s' us ≡ rounds_of es us + total s us
  unfolding visit
  visit-total np [] s s' kept h =
      let back : s ≡ s' = ground (arith, h) in omega (arith, ap (λ x. total x us) back)
  visit-total np (e ∷ es) s s' kept h =
      let rule = rule_of plan canonicalize us e in
      let (t, first, rest) = >>=-eq-ok (visit_by plan canonicalize rule np e s) _ h in
      omega (
        arith,
        visit_by-total np e s t rule (kept e (Memᴰ.head refl)) first,
        visit-total np es t s' (λ x m. kept x (Memᴰ.tail m)) rest,
      )

  -- No rule drops a record of the session.
  abbrev pub DropsNone : Type 0
  DropsNone = (e : Execution) → Memᴰ e us → drops (rule_of plan canonicalize us e) ≡ false

  module _ (children : Children)
      (filed : (q : Option ExecutionId) → listed (Dict.get children q) ≡ filter (has_parent q) us)
      (unique : HaveUniqueIds us) (closed : IsClosed us) (keeps : DropsNone) where
    round-total :
        (x : Option ExecutionId × Option ExecutionId) (s s' : Rebuilding)
        → round plan canonicalize children x s ≡ ok s'
        → total s' us ≡ below_count (x.0) us + total s us
    unfolding round
    round-total x s s' h =
        let kids = sorted by_sequence (listed (Dict.get children (x.0))) in
        let stay = λ (e : Execution) (m : Memᴰ e kids).
          keeps e ((kids-held plan canonicalize us children filed (x.0) e m).0) in
        omega (
          arith,
          visit-total (x.1) kids s s' stay h,
          ap (λ w. rounds_of (sorted by_sequence w) us) (filed (x.0)),
          child_rounds_all us closed (x.0) unique,
        )

    loop-length :
        (fuel : ℕ) (s : Rebuilding) (es : List Execution)
        → rebuild_loop plan canonicalize fuel children s ≡ some (ok es)
        → length es ≡ total s us
    unfolding rebuild_loop
    loop-length zero s es h = elim (List-cases s.stack) [
      | inl done ↦
          let same : s.migrated ≡ es = ground (arith, rw done at h) in
          omega (arith, ap length same, ap (λ w. ahead w us) done)
      | inr (x, xs, e) ↦ absurd (ground (arith, rw e at h))
    ]
    loop-length (suc fuel) s es h = elim (List-cases s.stack) [
      | inl done ↦
          let same : s.migrated ≡ es = ground (arith, rw done at h) in
          omega (arith, ap length same, ap (λ w. ahead w us) done)
      | inr (x, xs, e) ↦
          let t = record s { stack = xs } in
          elim (Result-cases (round plan canonicalize children x t)) [
            | inl (t', ran) ↦ omega (
              arith,
              loop-length fuel t' es (rw ran at (rw e at h)),
              round-total x t t' ran,
              ap (λ w. ahead w us) e,
            )
            | inr (raised, ran) ↦ absurd (ground (arith, rw ran at (rw e at h)))
          ]
    ]

module _ ⦃p : Platform⦄ {V : Type 0} (plan : DomainVersionTransition V)
    (canonicalize : Dict Text V → Result CanonicalArguments) where
  rebuild-length :
      (source : StoredSession) (es : List Execution)
      → HaveUniqueIds source.executions
      → DropsNone plan canonicalize source.executions
      → rebuild plan canonicalize source ≡ some (ok es)
      → length es ≡ length source.executions
  unfolding rebuild children_by_parent Dict.get
  rebuild-length source es unique keeps h =
      let us = source.executions in
      elim (Result-cases (add_children us [] us)) [
        | inl (children, built) ↦ omega (
          arith,
          below_all us,
          loop-length plan canonicalize us children
              (λ x. add_children-filter us [] us children built x) unique
              (add_children-IsClosed us us [] children built) keeps (suc (length us))
              (first_round plan canonicalize) es (rw built at h),
        )
        | inr (e, raised) ↦ absurd (ground (arith, rw raised at h))
      ]

  -- Where no two records of the session have one id and no rule drops one of them, a transition's
  -- run returns as many records as the session has.
  pub length-run_plan :
      (source s : StoredSession)
      → HaveUniqueIds source.executions
      → DropsNone plan canonicalize source.executions
      → run_plan plan canonicalize source ≡ some (ok s)
      → length s.executions ≡ length source.executions
  length-run_plan source s unique keeps h =
      let (es, rebuilt, same) = run_plan-rebuild plan canonicalize source s h in
      ap length same ∙ rebuild-length source es unique keeps rebuilt
