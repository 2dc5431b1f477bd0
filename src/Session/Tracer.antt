-- ===== src/Session/Tracer.antt =====
-- ExecutionTracer of packages/glyff/src/glyff/_context.py.
use glyff.Prelude.{Option, none, some, List, [], ◌∷◌, ◌++◌, ◌≡◌, refl, ap}
use glyff.Types.{ExecutionId}
use glyff.Exec.{Exec, put}
use glyff.Session.{Context}

-- stack[-1]
abbrev pub last {ℓ} : {A : Type ℓ} → List A → Option A
last [] = none
last (x ∷ []) = some x
last (x ∷ y ∷ ys) = last (y ∷ ys)

-- stack[:-1]
abbrev pub but_last {ℓ} : {A : Type ℓ} → List A → List A
but_last [] = []
but_last (x ∷ []) = []
but_last (x ∷ y ∷ ys) = x ∷ but_last (y ∷ ys)

module _ {S : Type 0} where
  -- ExecutionTracer.current
  abbrev pub current : Context S → Option ExecutionId
  current c = last c.stack

  -- ExecutionTracer.start
  unfoldable pub start : ExecutionId → Exec (Context S) (Unit {0})
  start execution_id c = put (record c { stack = c.stack ++ execution_id ∷ [] }) c

  -- ExecutionTracer.end
  unfoldable pub end : Exec (Context S) (Unit {0})
  end c = put (record c { stack = but_last c.stack }) c

pub but_last-snoc {ℓ} : {A : Type ℓ} (xs : List A) (x : A) → but_last (xs ++ x ∷ []) ≡ xs
but_last-snoc [] x = refl
but_last-snoc (y ∷ []) x = refl
but_last-snoc (y ∷ z ∷ xs) x = ap (◌∷◌ y) (but_last-snoc (z ∷ xs) x)

pub last-snoc {ℓ} : {A : Type ℓ} (xs : List A) (x : A) → last (xs ++ x ∷ []) ≡ some x
last-snoc [] x = refl
last-snoc (y ∷ []) x = refl
last-snoc (y ∷ z ∷ xs) x = last-snoc (z ∷ xs) x
