-- ===== src/Session.antt =====
-- What one session keeps while it runs (packages/glyff/src/glyff/_session.py, _context.py): the
-- store, the sequencer, the observed domain versions and the call stack.
pub mod Tracer
pub mod Scope
pub mod Claims
use glyff.Prelude.{ℕ, Option, none, some, List, []}
use glyff.Types.{ExecutionId, DomainId, DomainVersion}
use glyff.Exec.{Exec}
use glyff.Dict.{Dict}
use glyff.Sequencer.{Sequencer, new_sequencer}

pub record Context (S : Type 0) : Type 0 where
  pub store : S
  pub sequencer : Sequencer
  -- DomainClaims._observed
  pub observed : Dict DomainId DomainVersion
  -- ExecutionTracer._stack, outermost first
  pub stack : List ExecutionId

-- Session.__aenter__: a session begins with nothing observed, counted or running.
abbrev pub enter : {S : Type 0} → S → Context S
enter s = record { store = s; sequencer = new_sequencer; observed = []; stack = [] }

module _ {S A : Type 0} where
  -- a call of the backend, and of the sequencer
  abbrev pub in_store : Exec S A → Exec (Context S) A
  in_store m c = ((m c.store).0, record c { store = (m c.store).1 })

  abbrev pub in_sequencer : Exec Sequencer A → Exec (Context S) A
  in_sequencer m c = ((m c.sequencer).0, record c { sequencer = (m c.sequencer).1 })
