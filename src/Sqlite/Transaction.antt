-- ===== src/Sqlite/Transaction.antt =====
-- One write transaction of SQLiteClient (packages/glyff-sqlite/src/glyff_sqlite/_sqlite_client.py), over
-- a connection of its own. What SQLite answers to the statements that delimit it is a parameter.
use glyff.Prelude.{Option, none, some, if◌then◌else◌}
use glyff.Result.{Result, ok, err}
use glyff.Exec.{Exec, pure, raise, settle, ◌>>=◌, ◌>>◌}
use glyff.Sqlite.Rows.{Tables}
use glyff.Sqlite.Statements.{Engine}

-- What other connections see, and the tables of the open transaction.
pub record Connection : Type 0 where
  pub committed : Tables
  pub working : Option Tables

abbrev pub opened : Tables → Connection
opened t = record { committed = t; working = none }

abbrev pub tables_of : Connection → Option Tables → Tables
tables_of c none = c.committed
tables_of c (some working) = working

abbrev pub left_in : Connection → Option Tables → Tables → Connection
left_in c none t = record c { committed = t }
left_in c (some _) t = record c { working = some t }

-- Statements on a connection: in its transaction, where one is open.
abbrev pub on_connection : {A : Type 0} → Exec Tables A → Exec Connection A
on_connection body c =
    let done = body (tables_of c c.working) in (done.0, left_in c c.working done.1)

module _ ⦃engine : Engine⦄ where
  abbrev pub begun : Result (Unit {0}) → Exec Connection (Unit {0})
  begun (ok _) c = (ok tt, record c { working = some c.committed })
  begun (err e) c = (err e, c)

  -- BEGIN IMMEDIATE
  abbrev pub begin_immediate : Exec Connection (Unit {0})
  begin_immediate c = begun (engine.begin c.committed) c

  abbrev pub committed_to : Tables → Result (Unit {0}) → Exec Connection (Unit {0})
  committed_to t (ok _) c = (ok tt, opened t)
  committed_to t (err e) c = (err e, c)

  -- COMMIT. One that fails leaves the transaction open.
  abbrev pub commit : Exec Connection (Unit {0})
  commit c = let t = tables_of c c.working in committed_to t (engine.commit t) c

  -- with suppress(sqlite3.Error): ROLLBACK. One that fails leaves the transaction open.
  abbrev pub rollback : Exec Connection (Unit {0})
  rollback c =
      (ok tt, if engine.rollback (tables_of c c.working) then record c { working = none } else c)

  -- except BaseException: …; raise
  abbrev pub or_rolled_back : {A : Type 0} → Result A → Exec Connection A
  or_rolled_back (ok a) = pure a
  or_rolled_back (err e) = do rollback; raise e

  -- _immediate_transaction, around a body
  unfoldable pub immediate_transaction : {A : Type 0} → Exec Tables A → Exec Connection A
  immediate_transaction body = do
    begin_immediate
    settle (do a ← on_connection body; commit; pure a) or_rolled_back

  -- _connection: closing it drops a transaction that is still open.
  abbrev pub with_connection : {A : Type 0} → Exec Connection A → Exec Tables A
  with_connection body t = let done = body (opened t) in (done.0, (done.1).committed)

  -- run_immediate
  unfoldable pub run_immediate : {A : Type 0} → Exec Tables A → Exec Tables A
  unfolding immediate_transaction
  run_immediate operation = with_connection (immediate_transaction operation)
