-- ===== src/Exec.antt =====
-- A method that may raise, over the state that it mutates: what was written before a raise stays.
use glyff.Result.{Error, Result, ok, err}

abbrev pub Exec {ℓ κ} : Type ℓ → Type κ → Type (ℓ ⊔ κ)
Exec S A = S → Result A × S

module _ {ℓ κ} {S : Type ℓ} {A : Type κ} where
  abbrev pub pure : A → Exec S A
  pure a s = (ok a, s)

  abbrev pub raise : Error → Exec S A
  raise e s = (err e, s)

  abbrev pub lift : Result A → Exec S A
  lift r s = (r, s)

module _ {ℓ} {S : Type ℓ} where
  abbrev pub put : S → Exec S (Unit {0})
  put s' s = (ok tt, s')

  abbrev pub read : Exec S S
  read s = (ok s, s)

module _ {ℓ κ ι} {S : Type ℓ} {A : Type κ} {B : Type ι} where
  abbrev pub continue : Result A → (A → Exec S B) → Exec S B
  continue (ok a) f s = f a s
  continue (err e) f s = (err e, s)

  infixl 10 ◌>>=◌ ◌>>◌
  abbrev pub ◌>>=◌ : Exec S A → (A → Exec S B) → Exec S B
  ◌>>=◌ m f s = continue (m s).0 f (m s).1

  abbrev pub ◌>>◌ : Exec S A → Exec S B → Exec S B
  m >> n = m >>= λ _. n

  -- try: m except BaseException as e: handler(e), and on a result the rest
  abbrev pub settle : Exec S A → (Result A → Exec S B) → Exec S B
  settle m f s = f (m s).0 (m s).1
