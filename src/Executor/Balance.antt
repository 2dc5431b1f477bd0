-- ===== src/Executor/Balance.antt =====
-- Actions that leave open the transactions that were open, and the call stack as it was.
use glyff.Prelude.{ℕ, Bool, true, false, some, List, [], ◌∷◌, ◌≡◌, refl, arith, ◌∙◌}
use glyff.Result.{ok}
use glyff.Exec.{Exec}
use glyff.Json.{Platform}
use glyff.Staging.{Batch, key_eq}
use glyff.Backend.{Backend, View, Contract, overlay}
use glyff.Session.{Context}
use glyff.Session.Scope.{TransactionScope, new_scope, aenter, aexit}

-- The same open transactions; what the innermost has staged may differ.
abbrev pub SameFrames : List (ℕ × Batch) → List (ℕ × Batch) → Type 0
SameFrames [] [] = Unit
SameFrames [] (_ ∷ _) = ⊥
SameFrames (_ ∷ _) [] = ⊥
SameFrames ((t, m) ∷ fs) ((t', m') ∷ fs') = (t ≡ t') × (fs ≡ fs')

pub SameFrames-refl : (fs : List (ℕ × Batch)) → SameFrames fs fs
SameFrames-refl [] = tt
SameFrames-refl (f ∷ fs) = (refl, refl)

pub SameFrames-trans :
    (xs ys zs : List (ℕ × Batch)) → SameFrames xs ys → SameFrames ys zs → SameFrames xs zs
SameFrames-trans [] [] zs h k = k
SameFrames-trans [] (y ∷ ys) zs h k = absurd h
SameFrames-trans (x ∷ xs) [] zs h k = absurd h
SameFrames-trans (x ∷ xs) (y ∷ ys) [] h k = absurd k
SameFrames-trans (x ∷ xs) (y ∷ ys) (z ∷ zs) h k = (h.0 ∙ k.0, h.1 ∙ k.1)

pub open_scope : ℕ → TransactionScope
open_scope t = record { transaction = some t; closed = false }

-- The view once the innermost transaction has ended.
abbrev pub ended : Bool → View → Batch → List (ℕ × Batch) → View
ended true v m fs = record v { frames = fs }
ended false v m fs = record v { committed = overlay m v.committed; frames = fs }

module _ ⦃p : Platform⦄ {S : Type 0} (b : Backend S) (contract : Contract b) where
  open contract use {Models}

  pub record Balanced {A : Type 0} (m : Exec (Context S) A) : Type 0 where
    pub at :
        (c : Context S) (v : View)
        → Models c.store v
        → (v' : View) × Models ((m c).1).store v'
          × SameFrames v.frames v'.frames
          × (((m c).1).stack ≡ c.stack)

  pub enter_lem :
      (c : Context S) (v : View)
      → Models c.store v
      → (t : ℕ) × (s : S) × (aenter b new_scope c ≡ (ok (open_scope t), record c { store = s }))
        × Models s (record v { frames = (t, []) ∷ v.frames })
  unfolding aenter open_scope
  enter_lem c v h = let (t, s, e, m) = contract.begin_lem c.store v h in (t, s, rw e refl, m)

  pub exit_lem :
      (c : Context S) (v : View) (t : ℕ) (m : Batch) (fs : List (ℕ × Batch)) (raised : Bool)
      → Models c.store v
      → v.frames ≡ (t, m) ∷ fs
      → (s : S) × (aexit b (open_scope t) raised c ≡ (ok tt, record c { store = s }))
        × Models s (ended raised v m fs)
  unfolding aexit open_scope
  exit_lem c v t m fs true h q =
      let (s, e, k) = contract.rollback_lem c.store v t m fs h q in (s, rw e refl, k)
  exit_lem c v t m fs false h q =
      let (s, e, k) = contract.commit_lem c.store v t m fs h q in (s, rw e refl, k)

  pub innermost :
      (t : ℕ) (fs gs : List (ℕ × Batch))
      → SameFrames ((t, []) ∷ fs) gs
      → (m : Batch) × (gs ≡ (t, m) ∷ fs)
  innermost t fs [] h = absurd h
  innermost t fs ((t', m) ∷ gs) h = (m, ground (arith, h))
