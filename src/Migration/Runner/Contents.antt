-- ===== src/Migration/Runner/Contents.antt =====
-- About the records that _rebuild gives: where each comes from, and what of it is kept.
use glyff.Prelude.{
  Bool, true, false, Option, none, some, List, [], ◌∷◌, Text, ◌≡◌, refl, subst, arith, ap, sym, ◌∙◌,
  inl, inr, ◌==◌, Bool-cases, Option-cases,
}
use mathlib.Core.List.{Memᴰ}
use mathlib.Core.List.Memᴰ
use glyff.Types.{
  ExecutionId, ExecutionName, Frame, ExecutionSequenceScope, frame, parent_id, from_execution_id,
  execution_id, scope_eq, scope_beq_iff,
}
use glyff.Result.{Result, ok, >>=-eq-ok}
use glyff.Json.{Platform}
use glyff.Dict
use glyff.Dict.{Dict}
use glyff.Dict.Laws.{get-set}
use glyff.Arguments.{CanonicalArguments, digest}
use glyff.Execution.{Execution, post_init}
use glyff.Migration.Rules.{DomainVersionTransition, Rule, Remap, remap_rule, drop_rule, rule_for}
use glyff.Migration.Runner.{
  Rebuilding, memoized, arguments, target_name, move, visit_by, visit, recorded,
}
use glyff.Migration.Runner.Moves.{move-eq-ok}

-- The remap that a rule makes, whether it drops, and the name that it gives.
module _ {V : Type 0} where
  abbrev pub remap_of : Option (Rule V) → Option (Remap V)
  remap_of none = none
  remap_of (some (remap_rule r)) = some r
  remap_of (some (drop_rule d)) = none

  abbrev pub drops : Option (Rule V) → Bool
  drops none = false
  drops (some (remap_rule r)) = false
  drops (some (drop_rule d)) = true

  abbrev pub renamed : Option (Rule V) → ExecutionName → ExecutionName
  renamed none name = name
  renamed (some (remap_rule r)) name = r.target.name
  renamed (some (drop_rule d)) name = name

frame-execution_id : (q : Option ExecutionId) (f : Frame) → frame (execution_id q f) ≡ f
frame-execution_id none f = refl
frame-execution_id (some q) f = refl

parent_id-execution_id : (q : Option ExecutionId) (f : Frame) → parent_id (execution_id q f) ≡ q
parent_id-execution_id none f = refl
parent_id-execution_id (some q) f = refl

post_init-same : ⦃p : Platform⦄ (e m : Execution) → post_init e ≡ ok m → m ≡ e
unfolding post_init
post_init-same e m h = ground (arith, h)

module _ ⦃p : Platform⦄ {V : Type 0} (plan : DomainVersionTransition V)
    (canonicalize : Dict Text V → Result CanonicalArguments) (source : List Execution) where
  abbrev pub rule_of : Execution → Option (Rule V)
  rule_of e = rule_for plan (frame e.id).domain_id (frame e.id).name

  -- The arguments are what the rule makes of those of a record in the same scope.
  abbrev pub AreConverted : ExecutionSequenceScope → CanonicalArguments → Type 0
  AreConverted scope a =
      (d : Execution) × Memᴰ d source
      × (from_execution_id d.id ≡ scope)
      × (arguments plan canonicalize d (remap_of (rule_of d)) ≡ ok a)

  -- `e` is rebuilt as `m`.
  pub record Carried (e m : Execution) : Type 0 where
    pub kept : drops (rule_of e) ≡ false
    pub status : m.status ≡ e.status
    pub result : m.result ≡ e.result
    pub metadata : m.metadata ≡ e.metadata
    pub sequence : (frame m.id).sequence ≡ (frame e.id).sequence
    pub domain_id : (frame m.id).domain_id ≡ (frame e.id).domain_id
    pub name : (frame m.id).name ≡ renamed (rule_of e) (frame e.id).name
    pub keyed : (frame m.id).arguments_digest ≡ digest m.arguments
    pub converted : AreConverted (from_execution_id e.id) m.arguments

  -- An id's chain is rebuilt frame by frame.
  pub data Rebuilt : Option ExecutionId → Option ExecutionId → Type 0 where
    root : Rebuilt none none
    onto :
        (e m : Execution)
        → Memᴰ e source
        → Carried e m
        → Rebuilt (parent_id e.id) (parent_id m.id)
        → Rebuilt (some e.id) (some m.id)

  abbrev pub Origin : Execution → Type 0
  Origin m =
      (e : Execution) × Memᴰ e source × Carried e m × Rebuilt (parent_id e.id) (parent_id m.id)

  -- What the loop keeps.
  pub record IsSound (s : Rebuilding) : Type 0 where
    pub origins : (m : Execution) → Memᴰ m s.migrated → Origin m
    pub links : (old new : Option ExecutionId) → Memᴰ (old, new) s.stack → Rebuilt old new
    pub converted :
        (scope : ExecutionSequenceScope) (a : CanonicalArguments)
        → Dict.get s.arguments_by_source_scope scope ≡ some a
        → AreConverted scope a

  memoized-AreConverted :
      (s : Rebuilding)
      → IsSound s
      → (e : Execution) → Memᴰ e source
      → (a : CanonicalArguments)
      → memoized plan canonicalize e
          (remap_of (rule_of e))
          (Dict.get s.arguments_by_source_scope (from_execution_id e.id))
        ≡ ok a
      → AreConverted (from_execution_id e.id) a
  memoized-AreConverted s sound e held a h =
      elim (Option-cases (Dict.get s.arguments_by_source_scope (from_execution_id e.id))) [
        | inl first ↦ (e, held, refl, rw first at h)
        | inr (b, known) ↦
            sound.converted (from_execution_id e.id) a (ground (arith, known, rw known at h))
      ]

  target_name-remap_of :
      (i : ExecutionId) (rule : Option (Rule V))
      → target_name plan canonicalize i (remap_of rule) ≡ renamed rule (frame i).name
  target_name-remap_of i none = refl
  target_name-remap_of i (some (remap_rule r)) = refl
  target_name-remap_of i (some (drop_rule d)) = refl

  module _ (np : Option ExecutionId) (e : Execution) (a : CanonicalArguments) where
    abbrev new_frame : Frame
    new_frame = record {
      domain_id = (frame e.id).domain_id;
      name = target_name plan canonicalize e.id (remap_of (rule_of e));
      sequence = (frame e.id).sequence;
      arguments_digest = digest a;
    }

    abbrev rebuilt : Execution
    rebuilt = record e { id = execution_id np new_frame; arguments = a }

    rebuilt-Carried :
        drops (rule_of e) ≡ false → AreConverted (from_execution_id e.id) a → Carried e rebuilt
    rebuilt-Carried kept converted =
        let same = frame-execution_id np new_frame in
        record {
          kept = kept;
          status = refl;
          result = refl;
          metadata = refl;
          sequence = ap (λ f. f.sequence) same;
          domain_id = ap (λ f. f.domain_id) same;
          name = ap (λ f. f.name) same ∙ target_name-remap_of e.id (rule_of e);
          keyed = ap (λ f. f.arguments_digest) same;
          converted = converted;
        }

  -- A record that is moved keeps the invariant.
  move-IsSound :
      (np : Option ExecutionId) (e : Execution) (s s' : Rebuilding)
      → Memᴰ e source
      → drops (rule_of e) ≡ false
      → Rebuilt (parent_id e.id) np
      → IsSound s
      → move plan canonicalize np e (remap_of (rule_of e)) s ≡ ok s'
      → IsSound s'
  move-IsSound np e s s' held kept link sound h =
      let m = move-eq-ok plan canonicalize np e (remap_of (rule_of e)) s s' h in
      let a = m.arguments in
      let converted = memoized-AreConverted s sound e held a m.memoized_lem in
      let carried = rebuilt-Carried np e a kept converted in
      let up : Rebuilt (parent_id e.id) (parent_id (rebuilt np e a).id) =
        rw (parent_id-execution_id np (new_frame np e a)) link in
      let same : m.moved ≡ rebuilt np e a = post_init-same (rebuilt np e a) m.moved m.built in
      rw m.state (record {
        origins = λ x q. elim (Memᴰ.append_cases s.migrated q) [
          | inl old ↦ sound.origins x old
          | inr last ↦ subst Origin (sym (Memᴰ.eq_of_singleton last ∙ same)) (e, held, carried, up)
        ];
        links = λ o n q. elim (Memᴰ.cases_cons q) [
          | inl here ↦
              subst (λ w. Rebuilt (w.0) (w.1)) (sym here) (onto e (rebuilt np e a) held carried up)
          | inr old ↦ sound.links o n old
        ];
        converted = λ scope b q. elim (Bool-cases (from_execution_id e.id == scope)) [
          | inl here ↦
              let law = get-set s.arguments_by_source_scope (from_execution_id e.id) scope a in
              let agree : a ≡ b = ground (arith, q, here, law) in
              subst (λ x. AreConverted x b) ((scope_beq_iff (from_execution_id e.id) scope).0 here)
                (subst (AreConverted (from_execution_id e.id)) agree converted)
          | inr other ↦ sound.converted scope b (
              ground (
                arith,
                q,
                other,
                get-set s.arguments_by_source_scope (from_execution_id e.id) scope a,
              ))
        ];
      })

  visit_by-IsSound :
      (np : Option ExecutionId) (e : Execution) (s s' : Rebuilding)
      → Memᴰ e source
      → Rebuilt (parent_id e.id) np
      → IsSound s
      → (rule : Option (Rule V)) → rule_of e ≡ rule
      → visit_by plan canonicalize rule np e s ≡ ok s'
      → IsSound s'
  unfolding visit_by
  visit_by-IsSound np e s s' held link sound none q h =
      move-IsSound np e s s' held (rw q refl) link sound (rw q h)
  visit_by-IsSound np e s s' held link sound (some (remap_rule r)) q h =
      move-IsSound np e s s' held (rw q refl) link sound (rw q h)
  visit_by-IsSound np e s s' held link sound (some (drop_rule d)) q h =
      let (_, _, same) = >>=-eq-ok (recorded e d) (λ _. ok s) h in
      let back : s ≡ s' = ground (arith, same) in subst IsSound back sound

  pub visit-IsSound :
      (op np : Option ExecutionId) (es : List Execution) (s s' : Rebuilding)
      → ((e : Execution) → Memᴰ e es → Memᴰ e source × (parent_id e.id ≡ op))
      → Rebuilt op np
      → IsSound s
      → visit plan canonicalize np es s ≡ ok s'
      → IsSound s'
  unfolding visit
  visit-IsSound op np [] s s' held link sound h =
      let back : s ≡ s' = ground (arith, h) in subst IsSound back sound
  visit-IsSound op np (e ∷ es) s s' held link sound h =
      let (t, first, rest) = >>=-eq-ok (visit_by plan canonicalize (rule_of e) np e s) _ h in
      let (here, under) = held e (Memᴰ.head refl) in
      let next = visit_by-IsSound np e s t here (rw under link) sound (rule_of e) refl first in
      visit-IsSound op np es t s' (λ x q. held x (Memᴰ.tail q)) link next rest
