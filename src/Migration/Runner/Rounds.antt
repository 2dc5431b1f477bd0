-- ===== src/Migration/Runner/Rounds.antt =====
-- About the outer loop of _rebuild: how many rounds it takes.
use glyff.Prelude.{
  ℕ, zero, suc, ◌+◌, ◌≤◌, Option, none, some, List, [], ◌∷◌, ◌++◌, Text, ◌==◌, option_eq,
  option_beq_iff, length, filter, sorted, ◌≡◌, refl, arith, Bool-cases, List-cases, inl, inr, ap,
  ◌∙◌,
}
use mathlib.Core.List.{append_assoc, append-nil}
use glyff.Types.{ExecutionId, execution_id_eq, parent_id, frame}
use glyff.Result.{Result, ok, err, Result-cases, >>=-eq-ok}
use glyff.Json.{Platform}
use glyff.Dict
use glyff.Dict.{Dict}
use glyff.Dict.Laws.{get-set}
use glyff.Arguments.{CanonicalArguments}
use glyff.Execution.{Execution}
use glyff.Migration.Session.{StoredSession}
use glyff.Migration.Rules.{DomainVersionTransition, Rule, remap_rule, drop_rule, rule_for}
use glyff.Migration.Runner.{
  Children, listed, is_known, add_children, children_by_parent, Rebuilding, by_sequence, visit_by,
  visit, recorded, round, rebuild_loop, rebuild, first_round,
}
use glyff.Migration.Runner.Moves.{move-eq-ok}
use glyff.Migration.Runner.Weights.{weight, rounds_of, child_rounds, weight_start}
use glyff.Migration.Ids.{HaveUniqueIds}
use glyff.Migration.Runner.Below.{below_count, has_parent}

-- The children of each record, in the order of the session.
pub add_children-filter :
    (known : List Execution) (children : Children) (es : List Execution) (result : Children)
    → add_children known children es ≡ ok result
    → (p : Option ExecutionId)
    → listed (Dict.get result p) ≡ listed (Dict.get children p) ++ filter (has_parent p) es
unfolding add_children
add_children-filter known children [] result h p =
    ground (arith, h, append-nil (listed (Dict.get children p)))
add_children-filter known children (e ∷ es) result h p =
    elim (Bool-cases (is_known known (parent_id e.id))) [
      | inl held ↦
          let parent = parent_id e.id in
          let kids = listed (Dict.get children parent) ++ e ∷ [] in
          let rest =
            add_children-filter known (Dict.set children parent kids) es result (rw held at h) p in
          let here = get-set children parent p kids in
          elim (Bool-cases (parent == p)) [
            | inl same ↦
                let q : parent ≡ p = (option_beq_iff parent p).0 same in
                rw same (
                  rest
                  ∙ ap (λ o. listed o ++ filter (has_parent p) es) (rw same at here)
                  ∙ append_assoc (listed (Dict.get children parent)) (e ∷ [])
                      (filter (has_parent p) es)
                  ∙ ap (λ o. listed (Dict.get children o) ++ e ∷ filter (has_parent p) es) q)
            | inr other ↦
                rw other (rest ∙ ap (λ o. listed o ++ filter (has_parent p) es) (rw other at here))
          ]
      | inr missing ↦ absurd (ground (arith, h))
    ]

module _ ⦃pl : Platform⦄ {V : Type 0} (plan : DomainVersionTransition V)
    (canonicalize : Dict Text V → Result CanonicalArguments) (us : List Execution) where
  visit_by-weight :
      (rule : Option (Rule V)) (np : Option ExecutionId) (e : Execution) (s s' : Rebuilding)
      → visit_by plan canonicalize rule np e s ≡ ok s'
      → weight s'.stack us ≤ suc (below_count (some e.id) us) + weight s.stack us
  unfolding visit_by
  visit_by-weight none np e s s' h =
      let m = move-eq-ok plan canonicalize np e none s s' h in
      omega (arith, ap (λ x. weight x.stack us) (m.state))
  visit_by-weight (some (remap_rule r)) np e s s' h =
      let m = move-eq-ok plan canonicalize np e (some r) s s' h in
      omega (arith, ap (λ x. weight x.stack us) (m.state))
  visit_by-weight (some (drop_rule d)) np e s s' h =
      let (_, _, same) = >>=-eq-ok (recorded e d) (λ _. ok s) h in
      let q : s ≡ s' = ground (arith, same) in omega (arith, ap (λ x. weight x.stack us) q)

  visit-weight :
      (np : Option ExecutionId) (es : List Execution) (s s' : Rebuilding)
      → visit plan canonicalize np es s ≡ ok s'
      → weight s'.stack us ≤ rounds_of es us + weight s.stack us
  unfolding visit
  visit-weight np [] s s' h =
      let q : s ≡ s' = ground (arith, h) in omega (arith, ap (λ x. weight x.stack us) q)
  visit-weight np (e ∷ es) s s' h =
      let rule = rule_for plan (frame e.id).domain_id (frame e.id).name in
      let (t, first, rest) = >>=-eq-ok (visit_by plan canonicalize rule np e s) _ h in
      omega (arith, visit_by-weight rule np e s t first, visit-weight np es t s' rest)

  module _ (children : Children) (unique : HaveUniqueIds us)
      (filed : (p : Option ExecutionId)
        → listed (Dict.get children p) ≡ filter (has_parent p) us) where
    round-weight :
        (top : Option ExecutionId × Option ExecutionId) (s s' : Rebuilding)
        → round plan canonicalize children top s ≡ ok s'
        → weight s'.stack us ≤ below_count (top.0) us + weight s.stack us
    unfolding round
    round-weight top s s' h =
        let kids = sorted by_sequence (listed (Dict.get children (top.0))) in
        omega (
          arith,
          visit-weight (top.1) kids s s' h,
          ap (λ x. rounds_of (sorted by_sequence x) us) (filed (top.0)),
          child_rounds (top.0) us unique,
        )

    loop_ends :
        (fuel : ℕ) (s : Rebuilding)
        → weight s.stack us ≤ fuel
        → (r : Result (List Execution)) × (rebuild_loop plan canonicalize fuel children s ≡ some r)
    unfolding rebuild_loop
    loop_ends zero s h = elim (List-cases s.stack) [
      | inl done ↦ (ok s.migrated, rw done refl)
      | inr (x, xs, e) ↦ absurd (omega (arith, ap (λ q. weight q us) e))
    ]
    loop_ends (suc fuel) s h = elim (List-cases s.stack) [
      | inl done ↦ (ok s.migrated, rw done refl)
      | inr (x, xs, e) ↦
          elim (Result-cases (round plan canonicalize children x (record s { stack = xs }))) [
            | inl (s', ran) ↦
                let (r, ends) = loop_ends fuel s' (
                  omega (
                    arith,
                    ap (λ q. weight q us) e,
                    round-weight x (record s { stack = xs }) s' ran,
                  )) in
                (r, rw e (rw ran ends))
            | inr (x', raised) ↦ (err x', rw e (rw raised refl))
          ]
    ]

module _ ⦃p : Platform⦄ {V : Type 0} where
  -- Where no two records have one id, the rebuilding of a session returns or raises: it ends within
  -- a round for each record and one for the root.
  pub rebuild_ends :
      (plan : DomainVersionTransition V) (canonicalize : Dict Text V → Result CanonicalArguments)
      (source : StoredSession)
      → HaveUniqueIds source.executions
      → (r : Result (List Execution)) × (rebuild plan canonicalize source ≡ some r)
  unfolding rebuild children_by_parent Dict.get
  rebuild_ends plan canonicalize source unique =
      let us = source.executions in
      elim (Result-cases (add_children us [] us)) [
        | inl (children, built) ↦
            let filed = λ (q : Option ExecutionId). add_children-filter us [] us children built q in
            let (r, ends) =
              loop_ends plan canonicalize us children unique filed (suc (length us))
                (first_round plan canonicalize) (omega (arith, weight_start us)) in
            (r, rw built ends)
        | inr (x, raised) ↦ (err x, rw raised refl)
      ]
