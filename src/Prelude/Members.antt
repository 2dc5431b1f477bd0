-- ===== src/Prelude/Members.antt =====
-- Membership in a list that is sorted or filtered.
use mathlib.Core.Path.{◌≡◌}
use mathlib.Core.Logic.{◌⊎◌, inl, inr}
use mathlib.Core.Bool.{Bool, true}
use mathlib.Core.List.{List, [], ◌∷◌, Memᴰ}
use mathlib.Core.List.Memᴰ
use glyff.Prelude.Tests.{Bool-cases}
use glyff.Prelude.Order.{insert_sorted, sorted}
use glyff.Prelude.Lists.{filter}

module _ {ℓ} {A : Type ℓ} where
  insert_sorted-Memᴰ :
      (le : A → A → Bool) (x y : A) (ys : List A)
      → Memᴰ x (insert_sorted le y ys)
      → (x ≡ y) ⊎ Memᴰ x ys
  insert_sorted-Memᴰ le x y [] m = Memᴰ.cases_cons m
  insert_sorted-Memᴰ le x y (z ∷ zs) m = elim (Bool-cases (le y z)) [
    | inl before ↦ Memᴰ.cases_cons (rw before at m)
    | inr after ↦ elim (Memᴰ.cases_cons (rw after at m)) [
      | inl here ↦ inr (Memᴰ.head here)
      | inr later ↦ elim (insert_sorted-Memᴰ le x y zs later) [
        | inl same ↦ inl same
        | inr old ↦ inr (Memᴰ.tail old)
      ]
    ]
  ]

  pub sorted-Memᴰ : (le : A → A → Bool) (x : A) (ys : List A) → Memᴰ x (sorted le ys) → Memᴰ x ys
  sorted-Memᴰ le x [] m = m
  sorted-Memᴰ le x (y ∷ ys) m = elim (insert_sorted-Memᴰ le x y (sorted le ys) m) [
    | inl same ↦ Memᴰ.head same
    | inr old ↦ Memᴰ.tail (sorted-Memᴰ le x ys old)
  ]

  pub filter-Memᴰ :
      (test : A → Bool) (x : A) (ys : List A)
      → Memᴰ x (filter test ys)
      → Memᴰ x ys × (test x ≡ true)
  filter-Memᴰ test x [] m = absurd (Memᴰ.not-nil m)
  filter-Memᴰ test x (y ∷ ys) m = elim (Bool-cases (test y)) [
    | inl passes ↦ elim (Memᴰ.cases_cons (rw passes at m)) [
      | inl here ↦ (Memᴰ.head here, rw here passes)
      | inr later ↦ let (held, passed) = filter-Memᴰ test x ys later in (Memᴰ.tail held, passed)
    ]
    | inr fails ↦
        let (held, passed) = filter-Memᴰ test x ys (rw fails at m) in (Memᴰ.tail held, passed)
  ]
