-- ===== src/Migration/Runner/Covering.antt =====
-- About the walk of _rebuild: the children of a record lead to every record below it.
use glyff.Prelude.{
  ◌+◌, ◌≤◌, Bool, true, false, Option, none, some, List, [], ◌∷◌, ◌==◌, option_eq, option_beq_iff,
  filter, member, sorted, ◌≡◌, refl, arith, Bool-cases, inl, inr, ap, sym, ◌∙◌, beq_refl,
}
use mathlib.Core.List.{Memᴰ}
use mathlib.Core.List.Memᴰ
use glyff.Types.{ExecutionId, Frame, top, child, execution_id_eq, execution_id_beq_iff, parent_id}
use glyff.Result.{ok}
use glyff.Execution.{Execution}
use glyff.Migration.Ids.{ids, is_below, at_or_below, HaveUniqueIds, or_cases}
use glyff.Migration.Runner.{Children, is_known, add_children, by_sequence}
use glyff.Migration.Runner.Below.{
  count, below_count, has_parent, on_the_way, children_count, children_count-cons, count-filter,
}
use glyff.Migration.Runner.Weights.{rounds_of, rounds_of-sorted, child_rounds}

none_equal :
    (c : ExecutionId) (us : List Execution)
    → member c (ids us) ≡ false
    → count (λ e. e.id == c) us ≡ 0
none_equal c [] h = refl
none_equal c (u ∷ us) h = ground (arith, h, none_equal c us)

one_equal :
    (c : ExecutionId) (us : List Execution) → HaveUniqueIds us → count (λ e. e.id == c) us ≤ 1
one_equal c [] h = omega arith
one_equal c (u ∷ us) h = elim (Bool-cases (u.id == c)) [
  | inl same ↦
      let q = (execution_id_beq_iff u.id c).0 same in
      rw same (omega (arith, none_equal c us (ap (λ x. member x (ids us)) (sym q) ∙ h.0)))
  | inr other ↦ rw other (one_equal c us h.1)
]

counted_or :
    (c : ExecutionId) (us : List Execution)
    → count (λ e. at_or_below c e.id) us
      ≤ count (λ e. e.id == c) us + count (λ e. is_below (some c) e.id) us
counted_or c [] = omega arith
counted_or c (u ∷ us) = elim (Bool-cases (u.id == c)) [
  | inl same ↦ elim (Bool-cases (is_below (some c) u.id)) [
    | inl below ↦ rw (same, below) (omega (arith, counted_or c us))
    | inr apart ↦ rw (same, apart) (omega (arith, counted_or c us))
  ]
  | inr other ↦ elim (Bool-cases (is_below (some c) u.id)) [
    | inl below ↦ rw (other, below) (omega (arith, counted_or c us))
    | inr apart ↦ rw (other, apart) (omega (arith, counted_or c us))
  ]
]

children_count-le_rounds :
    (cs us : List Execution) → HaveUniqueIds us → children_count cs us ≤ rounds_of cs us
children_count-le_rounds [] us h = omega arith
children_count-le_rounds (c ∷ cs) us h =
    omega (arith, counted_or c.id us, one_equal c.id us h, children_count-le_rounds cs us h)

count-Memᴰ {ℓ} :
    {A : Type ℓ} (test : A → Bool) (x : A) (xs : List A)
    → Memᴰ x xs
    → test x ≡ true
    → 1 ≤ count test xs
count-Memᴰ test x [] m h = absurd (Memᴰ.not-nil m)
count-Memᴰ test x (y ∷ ys) m h = elim (Bool-cases (test y)) [
  | inl passes ↦ rw passes (omega arith)
  | inr fails ↦ elim (Memᴰ.cases_cons m) [
    | inl here ↦ absurd (ground (arith, fails, h, ap test here))
    | inr later ↦ rw fails (count-Memᴰ test x ys later h)
  ]
]

member-Memᴰ :
    (i : ExecutionId) (us : List Execution)
    → member i (ids us) ≡ true
    → (e : Execution) × Memᴰ e us × (e.id ≡ i)
member-Memᴰ i [] h = absurd (ground (arith, h))
member-Memᴰ i (u ∷ us) h = elim (Bool-cases (u.id == i)) [
  | inl same ↦ (u, Memᴰ.head refl, (execution_id_beq_iff u.id i).0 same)
  | inr other ↦ let (e, held, q) = member-Memᴰ i us (rw other at h) in (e, Memᴰ.tail held, q)
]

Memᴰ-member : (e : Execution) (us : List Execution) → Memᴰ e us → member e.id (ids us) ≡ true
Memᴰ-member e [] m = absurd (Memᴰ.not-nil m)
Memᴰ-member e (u ∷ us) m = elim (Memᴰ.cases_cons m) [
  | inl here ↦ rw here (rw (beq_refl u.id) refl)
  | inr later ↦ ground (arith, Memᴰ-member e us later)
]

-- Every record's parent is there.
abbrev pub IsClosed : List Execution → Type 0
IsClosed us = (e : Execution) → Memᴰ e us → is_known us (parent_id e.id) ≡ true

pub add_children-IsClosed :
    (known es : List Execution) (children result : Children)
    → add_children known children es ≡ ok result
    → (e : Execution) → Memᴰ e es
    → is_known known (parent_id e.id) ≡ true
unfolding add_children
add_children-IsClosed known [] children result h e m = absurd (Memᴰ.not-nil m)
add_children-IsClosed known (x ∷ es) children result h e m =
    elim (Bool-cases (is_known known (parent_id x.id))) [
      | inr missing ↦ absurd (ground (arith, rw missing at h))
      | inl held ↦ elim (Memᴰ.cases_cons m) [
        | inl here ↦ rw here held
        | inr later ↦ add_children-IsClosed known es _ result (rw held at h) e later
      ]
    ]

module _ (us : List Execution) (closed : IsClosed us) where
  -- A child of `q` on the way down to a record.
  WayDown : Option ExecutionId → ExecutionId → Type 0
  WayDown q i = (c : Execution) × Memᴰ c us × (parent_id c.id ≡ q) × (at_or_below c.id i ≡ true)

  further :
      (q : Option ExecutionId) (r : ExecutionId) (f : Frame) → WayDown q r → WayDown q (child r f)
  unfolding WayDown
  further q r f (c, held, under, h) = (c, held, under, ground (arith, h))

  way_down :
      (q : Option ExecutionId) (i : ExecutionId)
      → member i (ids us) ≡ true
      → is_below q i ≡ true
      → WayDown q i
  unfolding WayDown
  way_down none (top f) h below =
      let (c, held, same) = member-Memᴰ (top f) us h in
      (c, held, ap parent_id same, rw same (rw (beq_refl (top f)) refl))
  way_down (some a) (top f) h below = absurd (ground (arith, below))
  way_down none (child r f) h below =
      let (e, held, same) = member-Memᴰ (child r f) us h in
      let known : member r (ids us) ≡ true =
        ap (λ x. is_known us (parent_id x)) (sym same) ∙ closed e held in
      further none r f (way_down none r known refl)
  way_down (some a) (child r f) h below =
      let (e, held, same) = member-Memᴰ (child r f) us h in
      let known : member r (ids us) ≡ true =
        ap (λ x. is_known us (parent_id x)) (sym same) ∙ closed e held in
      elim (or_cases (r == a) (is_below (some a) r) below) [
        | inl here ↦ (
          e,
          held,
          ap parent_id same ∙ ap some ((execution_id_beq_iff r a).0 here),
          rw same (rw (beq_refl (child r f)) refl),
        )
        | inr above ↦ further (some a) r f (way_down (some a) r known above)
      ]

  counted_below :
      (q : Option ExecutionId) (vs : List Execution)
      → ((e : Execution) → Memᴰ e vs → member e.id (ids us) ≡ true)
      → below_count q vs ≤ children_count (filter (has_parent q) us) vs
  unfolding WayDown
  counted_below q [] held = omega arith
  counted_below q (v ∷ vs) held =
      let rest = counted_below q vs (λ e m. held e (Memᴰ.tail m)) in
      let split = children_count-cons (filter (has_parent q) us) v vs in
      let filtered = count-filter q v.id us in
      elim (Bool-cases (is_below q v.id)) [
        | inr apart ↦ rw apart (omega (arith, rest, split))
        | inl below ↦
            let (c, here, under, way) = way_down q v.id (held v (Memᴰ.head refl)) below in
            let on_it : on_the_way q v.id c ≡ true =
              ground (arith, (option_beq_iff (parent_id c.id) q).1 under, way) in
            rw below
              (omega (arith, rest, split, filtered, count-Memᴰ (on_the_way q v.id) c us here on_it))
      ]

  -- The rounds for the children of a record are as many as the records below it.
  pub child_rounds_all :
      (q : Option ExecutionId)
      → HaveUniqueIds us
      → rounds_of (sorted by_sequence (filter (has_parent q) us)) us ≡ below_count q us
  child_rounds_all q unique =
      let kids = filter (has_parent q) us in
      omega (
        arith,
        child_rounds q us unique,
        rounds_of-sorted kids us,
        children_count-le_rounds kids us unique,
        counted_below q us (λ e m. Memᴰ-member e us m),
      )
