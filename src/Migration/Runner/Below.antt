-- ===== src/Migration/Runner/Below.antt =====
-- How many records of a session lie below one, against how many lie below its children.
use glyff.Prelude.{
  ℕ, suc, ◌+◌, ◌≤◌, ◌<◌, Bool, true, false, ◌&&◌, Option, none, some, List, [], ◌∷◌, map,
  if◌then◌else◌, ◌==◌, option_eq, option_beq_iff, filter, member, ◌≡◌, refl, arith, Bool-cases, inl,
  inr, ap, sym, ◌∙◌,
}
use glyff.Types.{
  ExecutionId, top, child, frame_eq, execution_id_eq, execution_id_beq_iff, parent_id,
}
use glyff.Execution.{Execution}
use glyff.Migration.Ids.{is_below, at_or_below, at_or_below_cases, HaveUniqueIds}

abbrev pub depth : ExecutionId → ℕ
depth (top f) = 1
depth (child p f) = suc (depth p)

at_or_below-depth : (a i : ExecutionId) → at_or_below a i ≡ true → depth a ≤ depth i
at_or_below-depth a (top f) h = elim (at_or_below_cases a (top f) h) [
  | inl same ↦ omega (arith, ap depth same)
  | inr below ↦ absurd (ground (arith, below))
]
at_or_below-depth a (child p f) h = elim (at_or_below_cases a (child p f) h) [
  | inl same ↦ omega (arith, ap depth same)
  | inr below ↦ omega (arith, at_or_below-depth a p below)
]

pub is_below-depth : (a i : ExecutionId) → is_below (some a) i ≡ true → depth a < depth i
is_below-depth a (top f) h = absurd (ground (arith, h))
is_below-depth a (child p f) h = omega (arith, at_or_below-depth a p h)

-- An id has one ancestor at each depth.
one_at_depth :
    (a b i : ExecutionId)
    → at_or_below a i ≡ true
    → at_or_below b i ≡ true
    → depth a ≡ depth b
    → a ≡ b
one_at_depth a b (top f) ha hb d = elim (at_or_below_cases a (top f) ha) [
  | inl ea ↦ elim (at_or_below_cases b (top f) hb) [
    | inl eb ↦ sym ea ∙ eb
    | inr below ↦ absurd (ground (arith, below))
  ]
  | inr below ↦ absurd (ground (arith, below))
]
one_at_depth a b (child p f) ha hb d = elim (at_or_below_cases a (child p f) ha) [
  | inl ea ↦ elim (at_or_below_cases b (child p f) hb) [
    | inl eb ↦ sym ea ∙ eb
    | inr below ↦ absurd (omega (arith, ap depth ea, at_or_below-depth b p below))
  ]
  | inr above ↦ elim (at_or_below_cases b (child p f) hb) [
    | inl eb ↦ absurd (omega (arith, ap depth eb, at_or_below-depth a p above))
    | inr below ↦ one_at_depth a b p above below d
  ]
]

-- sum(test(x) for x in xs)
abbrev pub count {ℓ} : {A : Type ℓ} → (A → Bool) → List A → ℕ
count test [] = 0
count test (x ∷ xs) = if test x then suc (count test xs) else count test xs

-- The records below one, and the records of its children.
abbrev pub below_count : Option ExecutionId → List Execution → ℕ
below_count p us = count (λ e. is_below p e.id) us

abbrev pub has_parent : Option ExecutionId → Execution → Bool
has_parent p e = parent_id e.id == p

below_parent :
    (p : Option ExecutionId) (c i : ExecutionId)
    → parent_id c ≡ p
    → at_or_below c i ≡ true
    → is_below p i ≡ true
below_parent none c i h q = refl
below_parent (some a) c (top f) h q = elim (at_or_below_cases c (top f) q) [
  | inl same ↦ absurd (ground (arith, h, ap parent_id same))
  | inr below ↦ absurd (ground (arith, below))
]
below_parent (some a) c (child r f) h q = elim (at_or_below_cases c (child r f) q) [
  | inl same ↦ ground (arith, ap parent_id same, h, execution_id_beq_iff r a)
  | inr below ↦ ground (arith, below_parent (some a) c r h below)
]

same_depth :
    (p : Option ExecutionId) (a b : ExecutionId)
    → parent_id a ≡ p
    → parent_id b ≡ p
    → depth a ≡ depth b
same_depth p (top f) (top g) ha hb = refl
same_depth p (top f) (child q g) ha hb = absurd (ground (arith, ha, hb))
same_depth p (child q f) (top g) ha hb = absurd (ground (arith, ha, hb))
same_depth p (child q f) (child r g) ha hb =
    let same : q ≡ r = ground (arith, ha, hb) in ap (λ x. suc (depth x)) same

module _ (p : Option ExecutionId) (i : ExecutionId) where
  -- a child of `p` that `i` is, or is below
  abbrev pub on_the_way : Execution → Bool
  on_the_way c = has_parent p c && at_or_below c.id i

  and_parts : (x y : Bool) → (x && y) ≡ true → (x ≡ true) × (y ≡ true)
  and_parts true y h = (refl, h)
  and_parts false y h = absurd (ground (arith, h))

  none_on_the_way :
      (c : Execution) (us : List Execution)
      → on_the_way c ≡ true
      → member c.id (map (λ x. x.id) us) ≡ false
      → count on_the_way us ≡ 0
  none_on_the_way c [] h fresh = refl
  none_on_the_way c (u ∷ us) h fresh = elim (Bool-cases (on_the_way u)) [
    | inl also ↦
        let (hp, hc) = and_parts (has_parent p c) (at_or_below c.id i) h in
        let (up, uc) = and_parts (has_parent p u) (at_or_below u.id i) also in
        let pc = (option_beq_iff (parent_id c.id) p).0 hp in
        let pu = (option_beq_iff (parent_id u.id) p).0 up in
        let same = one_at_depth c.id u.id i hc uc (same_depth p c.id u.id pc pu) in
        absurd (ground (arith, fresh, same, execution_id_beq_iff u.id c.id))
    | inr not_so ↦ rw not_so (none_on_the_way c us h (ground (arith, fresh)))
  ]

  -- At most one child is on the way down to a record, and then the record is below the parent.
  one_on_the_way :
      (us : List Execution)
      → HaveUniqueIds us
      → count on_the_way us ≤ (if is_below p i then 1 else 0)
  one_on_the_way [] h = omega arith
  one_on_the_way (u ∷ us) h = elim (Bool-cases (on_the_way u)) [
    | inl here ↦
        let (up, uc) = and_parts (has_parent p u) (at_or_below u.id i) here in
        let below = below_parent p u.id i ((option_beq_iff (parent_id u.id) p).0 up) uc in
        rw here (rw below (omega (arith, none_on_the_way u us here h.0)))
    | inr not_so ↦ rw not_so (one_on_the_way us h.1)
  ]

-- The records that are children of `p` or lie below one, each counted with the child.
abbrev pub children_count : List Execution → List Execution → ℕ
children_count [] us = 0
children_count (c ∷ cs) us = count (λ e. at_or_below c.id e.id) us + children_count cs us

pub children_count-empty : (cs : List Execution) → children_count cs [] ≡ 0
children_count-empty [] = refl
children_count-empty (c ∷ cs) = omega (arith, children_count-empty cs)

pub children_count-cons :
    (cs : List Execution) (u : Execution) (us : List Execution)
    → children_count cs (u ∷ us) ≡ count (λ c. at_or_below c.id u.id) cs + children_count cs us
children_count-cons [] u us = refl
children_count-cons (c ∷ cs) u us = elim (Bool-cases (at_or_below c.id u.id)) [
  | inl below ↦ rw below (omega (arith, children_count-cons cs u us))
  | inr apart ↦ rw apart (omega (arith, children_count-cons cs u us))
]

pub count-filter :
    (p : Option ExecutionId) (i : ExecutionId) (us : List Execution)
    → count (λ c. at_or_below c.id i) (filter (has_parent p) us) ≡ count (on_the_way p i) us
count-filter p i [] = refl
count-filter p i (u ∷ us) = elim (Bool-cases (has_parent p u)) [
  | inl yes_child ↦ rw yes_child (ground (arith, count-filter p i us))
  | inr no_child ↦ rw no_child (count-filter p i us)
]

-- The children of a record and what lies below them is no more than what lies below the record.
pub children_count-le :
    (p : Option ExecutionId) (ws us : List Execution)
    → HaveUniqueIds ws
    → children_count (filter (has_parent p) ws) us ≤ below_count p us
children_count-le p ws [] h = omega (arith, children_count-empty (filter (has_parent p) ws))
children_count-le p ws (u ∷ us) h =
    let rest = children_count-le p ws us h in
    let split = children_count-cons (filter (has_parent p) ws) u us in
    let once = one_on_the_way p u.id ws h in
    let filtered = count-filter p u.id ws in
    elim (Bool-cases (is_below p u.id)) [
      | inl below ↦ rw below (omega (arith, rest, split, filtered, rw below at once))
      | inr apart ↦ rw apart (omega (arith, rest, split, filtered, rw apart at once))
    ]
