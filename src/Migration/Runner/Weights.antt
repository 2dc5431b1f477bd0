-- ===== src/Migration/Runner/Weights.antt =====
-- The rounds that _rebuild may still take, as a number that falls with each round.
use glyff.Prelude.{
  ℕ, suc, ◌+◌, ◌≤◌, true, false, Option, none, some, List, [], ◌∷◌, map, ◌==◌, option_eq, length,
  filter, member, insert_sorted, sorted, ◌≡◌, refl, arith, Bool-cases, inl, inr, ap, beq_refl,
}
use glyff.Types.{ExecutionId, execution_id_eq, execution_id_beq_iff}
use glyff.Execution.{Execution}
use glyff.Migration.Runner.{by_sequence}
use glyff.Migration.Ids.{is_below, at_or_below, HaveUniqueIds}
use glyff.Migration.Runner.Below.{
  depth, count, below_count, has_parent, children_count, children_count-le, is_below-depth,
}

-- The rounds that a stack may still take.
abbrev pub weight : List (Option ExecutionId × Option ExecutionId) → List Execution → ℕ
weight [] us = 0
weight (x ∷ xs) us = suc (below_count (x.0) us) + weight xs us

-- The rounds that the children of a record may take.
abbrev pub rounds_of : List Execution → List Execution → ℕ
rounds_of [] us = 0
rounds_of (c ∷ cs) us = suc (below_count (some c.id) us) + rounds_of cs us

rounds_of-insert :
    (c : Execution) (cs us : List Execution)
    → rounds_of (insert_sorted by_sequence c cs) us ≡ rounds_of (c ∷ cs) us
rounds_of-insert c [] us = refl
rounds_of-insert c (d ∷ cs) us = elim (Bool-cases (by_sequence c d)) [
  | inl before ↦ rw before refl
  | inr after ↦ rw after (omega (arith, rounds_of-insert c cs us))
]

pub rounds_of-sorted :
    (cs us : List Execution) → rounds_of (sorted by_sequence cs) us ≡ rounds_of cs us
rounds_of-sorted [] us = refl
rounds_of-sorted (c ∷ cs) us =
    omega (arith, rounds_of-insert c (sorted by_sequence cs) us, rounds_of-sorted cs us)

not_below_self : (c i : ExecutionId) → (i == c) ≡ true → is_below (some c) i ≡ false
not_below_self c i same = elim (Bool-cases (is_below (some c) i)) [
  | inl below ↦
      absurd (omega (arith, is_below-depth c i below, ap depth ((execution_id_beq_iff i c).0 same)))
  | inr apart ↦ apart
]

-- A record that is there is counted with what lies below it.
counted_apart :
    (c : ExecutionId) (us : List Execution)
    → count (λ e. e.id == c) us + count (λ e. is_below (some c) e.id) us
      ≤ count (λ e. at_or_below c e.id) us
counted_apart c [] = omega arith
counted_apart c (u ∷ us) = elim (Bool-cases (u.id == c)) [
  | inl same ↦ rw (same, not_below_self c u.id same) (omega (arith, counted_apart c us))
  | inr other ↦ elim (Bool-cases (is_below (some c) u.id)) [
    | inl below ↦ rw (other, below) (omega (arith, counted_apart c us))
    | inr apart ↦ rw (other, apart) (omega (arith, counted_apart c us))
  ]
]

count-member :
    (c : ExecutionId) (us : List Execution)
    → member c (map (λ e. e.id) us) ≡ true
    → 1 ≤ count (λ e. e.id == c) us
count-member c [] h = absurd (ground (arith, h))
count-member c (u ∷ us) h = elim (Bool-cases (u.id == c)) [
  | inl same ↦ rw same (omega arith)
  | inr other ↦ rw other (count-member c us (rw other at h))
]

-- The rounds for the children of a record are fewer than those for the record.
abbrev AreHeld : List Execution → List Execution → Type 0
AreHeld [] us = Unit
AreHeld (c ∷ cs) us = (member c.id (map (λ e. e.id) us) ≡ true) × AreHeld cs us

rounds_of-le : (cs us : List Execution) → AreHeld cs us → rounds_of cs us ≤ children_count cs us
rounds_of-le [] us h = omega arith
rounds_of-le (c ∷ cs) us h =
    omega (arith, rounds_of-le cs us h.1, counted_apart c.id us, count-member c.id us h.0)

AreHeld-cons : (u : Execution) (cs us : List Execution) → AreHeld cs us → AreHeld cs (u ∷ us)
AreHeld-cons u [] us h = tt
AreHeld-cons u (c ∷ cs) us h = (ground (arith, h.0), AreHeld-cons u cs us h.1)

filter-AreHeld :
    (p : Option ExecutionId) (us : List Execution) → AreHeld (filter (has_parent p) us) us
filter-AreHeld p [] = tt
filter-AreHeld p (u ∷ us) = elim (Bool-cases (has_parent p u)) [
  | inl child_of ↦ rw child_of (rw (beq_refl u.id) refl, AreHeld-cons u _ us (filter-AreHeld p us))
  | inr other ↦ rw other (AreHeld-cons u _ us (filter-AreHeld p us))
]

pub child_rounds :
    (p : Option ExecutionId) (us : List Execution)
    → HaveUniqueIds us
    → rounds_of (sorted by_sequence (filter (has_parent p) us)) us ≤ below_count p us
child_rounds p us h = omega (
  arith,
  rounds_of-sorted (filter (has_parent p) us) us,
  rounds_of-le (filter (has_parent p) us) us (filter-AreHeld p us),
  children_count-le p us us h,
)

pub weight_start : (us : List Execution) → weight ((none, none) ∷ []) us ≡ suc (length us)
weight_start [] = refl
weight_start (u ∷ us) = omega (arith, weight_start us)
