-- ===== src/Sqlite/Atomic.antt =====
-- About run_immediate of the SQLite client: all of what a body did, or none of it.
use glyff.Prelude.{◌≡◌, refl, inl, inr, Bool-cases}
use glyff.Result.{Result, Error, ok, err, Result-cases}
use glyff.Exec.{Exec}
use glyff.Sqlite.Rows.{Tables}
use glyff.Sqlite.Statements.{Engine}
use glyff.Sqlite.Transaction.{immediate_transaction, run_immediate}

-- What is left of a transaction over the tables, by what COMMIT answers: its working tables, or the
-- tables as they were.
abbrev pub closed {ℓ} : {A : Type ℓ} → Tables → Tables → A → Result (Unit {0}) → Result A × Tables
closed t t' a (ok _) = (ok a, t')
closed t t' a (err e) = (err e, t)

module _ ⦃engine : Engine⦄ {A : Type 0} (operation : Exec Tables A) (t : Tables) where
  pub run_immediate-unbegun :
      (e : Error) → engine.begin t ≡ err e → run_immediate operation t ≡ (err e, t)
  unfolding run_immediate immediate_transaction
  run_immediate-unbegun e b = rw b refl

  pub run_immediate-err :
      (e : Error)
      → engine.begin t ≡ ok tt
      → (operation t).0 ≡ err e
      → run_immediate operation t ≡ (err e, t)
  unfolding run_immediate immediate_transaction
  run_immediate-err e b h =
      rw (b, h)
        (elim (Bool-cases (engine.rollback (operation t).1)) [
          | inl r ↦ rw r refl
          | inr r ↦ rw r refl
        ])

  pub run_immediate-ok :
      (a : A)
      → engine.begin t ≡ ok tt
      → (operation t).0 ≡ ok a
      → run_immediate operation t ≡ closed t (operation t).1 a (engine.commit (operation t).1)
  unfolding run_immediate immediate_transaction
  run_immediate-ok a b h = elim (Result-cases (engine.commit (operation t).1)) [
    | inl (u, c) ↦ rw (b, h, c) refl
    | inr (e, c) ↦
        rw (b, h, c)
          (elim (Bool-cases (engine.rollback (operation t).1)) [
            | inl r ↦ rw r refl
            | inr r ↦ rw r refl
          ])
  ]
