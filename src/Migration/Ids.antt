-- ===== src/Migration/Ids.antt =====
-- About the ids of a session: which lie below which, and that none stands twice.
use glyff.Prelude.{
  Bool, true, false, ◌||◌, Option, none, some, List, [], ◌∷◌, map, ◌==◌, member, ◌≡◌, refl, inl,
  inr, ◌⊎◌, option_eq,
}
use glyff.Types.{ExecutionId, top, child, execution_id_eq, execution_id_beq_iff}
use glyff.Execution.{Execution}

abbrev pub ids : List Execution → List ExecutionId
ids es = map (λ e. e.id) es

-- Whether an id is an ancestor of another; everything is below the root.
abbrev pub is_below : Option ExecutionId → ExecutionId → Bool
is_below none i = true
is_below (some a) (top f) = false
is_below (some a) (child p f) = (p == a) || is_below (some a) p

abbrev pub at_or_below : ExecutionId → ExecutionId → Bool
at_or_below a i = (i == a) || is_below (some a) i

pub or_cases : (x y : Bool) → (x || y) ≡ true → (x ≡ true) ⊎ (y ≡ true)
or_cases true y h = inl refl
or_cases false y h = inr h

pub at_or_below_cases :
    (a i : ExecutionId) → at_or_below a i ≡ true → (i ≡ a) ⊎ (is_below (some a) i ≡ true)
at_or_below_cases a i h = elim (or_cases (i == a) (is_below (some a) i) h) [
  | inl same ↦ inl ((execution_id_beq_iff i a).0 same)
  | inr below ↦ inr below
]

-- No two records have one id.
abbrev pub HaveUniqueIds : List Execution → Type 0
HaveUniqueIds [] = Unit
HaveUniqueIds (e ∷ es) = (member e.id (map (λ x. x.id) es) ≡ false) × HaveUniqueIds es
