-- ===== src/Session/Scope.antt =====
-- TransactionScope of packages/glyff/src/glyff/_context.py, and `async with` over one.
use glyff.Prelude.{ℕ, Bool, true, false, Option, none, some, if◌then◌else◌, is_some, ◌||◌}
use glyff.Result.{Result, ok, err, runtime_error}
use glyff.Exec.{Exec, pure, raise, lift, settle, ◌>>=◌, ◌>>◌}
use glyff.Backend.{Backend}
use glyff.Session.{Context, in_store}

pub record TransactionScope : Type 0 where
  pub transaction : Option ℕ
  pub closed : Bool

abbrev pub new_scope : TransactionScope
new_scope = record { transaction = none; closed = false }

module _ {S : Type 0} (b : Backend S) where
  -- TransactionScope.__aenter__
  unfoldable pub aenter : TransactionScope → Exec (Context S) TransactionScope
  aenter scope = if scope.closed || is_some scope.transaction then raise runtime_error else (do
    t ← in_store b.begin_transaction
    pure (record { transaction = some t; closed = false }))

  abbrev pub take_open : Option ℕ → Result (ℕ × TransactionScope)
  take_open none = err runtime_error
  take_open (some t) = ok (t, record { transaction = none; closed = true })

  -- TransactionScope._take_transaction
  unfoldable pub take_transaction : TransactionScope → Result (ℕ × TransactionScope)
  take_transaction scope = if scope.closed then err runtime_error else take_open scope.transaction

  -- TransactionScope.commit
  unfoldable pub commit : TransactionScope → Exec (Context S) TransactionScope
  unfolding take_transaction
  commit scope = do (t, scope') ← lift (take_transaction scope); in_store (b.commit t); pure scope'

  -- TransactionScope.rollback
  unfoldable pub rollback : TransactionScope → Exec (Context S) TransactionScope
  unfolding take_transaction
  rollback scope = do
    (t, scope') ← lift (take_transaction scope)
    in_store (b.rollback t)
    pure scope'

  -- TransactionScope.__aexit__, given whether the block raised
  unfoldable pub aexit : TransactionScope → Bool → Exec (Context S) (Unit {0})
  unfolding commit rollback
  aexit scope raised =
      if is_some scope.transaction
      then (do (if raised then rollback scope else commit scope); pure tt)
      else pure tt

  abbrev pub is_raised : {A : Type 0} → Result A → Bool
  is_raised (ok _) = false
  is_raised (err _) = true

  -- async with TransactionScope(…): body
  unfoldable pub within : {A : Type 0} → Exec (Context S) A → Exec (Context S) A
  within body = do scope ← aenter new_scope; settle body (λ r. do aexit scope (is_raised r); lift r)
