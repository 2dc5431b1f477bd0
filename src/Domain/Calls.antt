-- ===== src/Domain/Calls.antt =====
-- About a call of an engraved function: when it runs, and what it finds recorded.
use glyff.Prelude.{false, some, Text, ◌==◌, ◌≡◌, refl, ◌∙◌, suc, beq_refl}
use glyff.Types.{
  ExecutionId, DomainVersion, ExecutionSequenceScope, execution_id, domain_version_eq, scope_eq,
}
use glyff.Result.{Result, ok, err, domain_version_mismatch}
use glyff.Exec.{Exec}
use glyff.Json.{Platform}
use glyff.Dict.{Dict}
use glyff.Arguments.{CanonicalArguments, digest}
use glyff.Execution.{Execution, completed, SerializedValue}
use glyff.Backend.{View, Contract, claim, visible, revive, key_of}
use glyff.Sequencer.{Sequencer, counter, next}
use glyff.Sequencer.Counting.{next_lem}
use glyff.Session.{Context}
use glyff.Session.Tracer.{current}
use glyff.Session.Claims.{ensure}
use glyff.Session.Claims.Agreement.{Agrees, ensure_lem, ensure-elsewhere}
use glyff.Executor.{Services}
use glyff.Executor.Replay.{execute-recorded}
use glyff.Function.{FunctionDefinition, bind}
use glyff.Domain.{Domain, call_frame, resolve_call_identity, call}

module _ ⦃p : Platform⦄ {S V T A : Type 0} (services : Services S V T)
    (canonicalize : Dict Text V → Result CanonicalArguments)
    (contract : Contract (services.backend)) where
  open services use {session_id, backend, serializer}
  open contract use {Models}

  -- Where what the session has observed agrees with the store, and the store has another version for
  -- the domain than the code: a call of an engraved function raises DomainVersionMismatchError,
  -- whatever its body and arguments are; no ordinal is given out, the call stack stays, and so do the
  -- store's records and transactions.
  pub call-refused :
      (c : Context S) (v : View) (domain : Domain) (definition : FunctionDefinition A V T)
      (func : A → Exec (Context S) V) (args : A) (recorded : DomainVersion)
      → Models c.store v
      → Agrees session_id c.observed v
      → v.claimed session_id domain.id ≡ some recorded
      → (recorded == domain.version) ≡ false
      → (c' : Context S) × (v' : View) × (call services canonicalize domain definition func args c
          ≡ (err (domain_version_mismatch domain.id recorded domain.version), c'))
        × (c'.sequencer ≡ c.sequencer)
        × (c'.stack ≡ c.stack)
        × Models c'.store v'
        × (v'.committed ≡ v.committed)
        × (v'.frames ≡ v.frames)
  unfolding call
  call-refused c v domain definition func args recorded h agrees known other =
      let d = domain.id in
      let (answer, (v', held, same, frames, claims, still)) =
        ensure_lem backend contract c v session_id d domain.version h agrees in
      let (sequencer, stack) =
        ensure-elsewhere backend contract c v session_id d domain.version h in
      let refused : (ensure backend session_id d domain.version c).0
          ≡ err (domain_version_mismatch d recorded domain.version) =
        rw (known, other) at answer in
      (
        (ensure backend session_id d domain.version c).1,
        v',
        rw refused refl,
        sequencer,
        stack,
        held,
        same,
        frames,
      )

  -- The scope that a call is counted in.
  abbrev pub call_scope :
      Context S → Domain → FunctionDefinition A V T → CanonicalArguments → ExecutionSequenceScope
  call_scope c domain definition a = record {
    parent_id = current c;
    domain_id = domain.id;
    name = definition.name;
    arguments_digest = digest a;
  }

  -- The identity of a call: its place on the call stack, its function, its arguments, and the next
  -- ordinal among the calls that have all of these in common.
  abbrev pub next_id :
      Context S → Domain → FunctionDefinition A V T → CanonicalArguments → ExecutionId
  next_id c domain definition a = execution_id (current c) (
      call_frame domain.id definition.name a
        (counter c.sequencer (call_scope c domain definition a)))

  resolved :
      (c : Context S) (domain : Domain) (definition : FunctionDefinition A V T) (args : A)
      (named : Dict Text V) (a : CanonicalArguments)
      → bind definition args ≡ ok named
      → canonicalize named ≡ ok a
      → (q : Sequencer) × (resolve_call_identity services canonicalize domain.id definition args c
          ≡ (ok (next_id c domain definition a, a), record c { sequencer = q }))
        × (counter q (call_scope c domain definition a)
            ≡ suc (counter c.sequencer (call_scope c domain definition a)))
  unfolding resolve_call_identity
  resolved c domain definition args named a bound canonical =
      let key = call_scope c domain definition a in
      let (given, counted) = next_lem c.sequencer key in
      (
        (next key.parent_id key.domain_id key.name key.arguments_digest c.sequencer).1,
        rw bound (rw canonical (rw given refl)),
        counted key ∙ rw (beq_refl key) refl,
      )

  -- Where what the session has observed agrees with the store, the store has the code's version for
  -- the domain, or none, the arguments bind and have a canonical form, and the call's record is there
  -- and completed with a result, under the identity that the call stack, the function, its arguments
  -- and the next ordinal make: a call of an engraved function returns the recorded result,
  -- deserialized, whatever its body is, counts its scope up by one, and leaves the call stack and the
  -- store's records and transactions.
  pub call-recorded :
      (c : Context S) (v : View) (domain : Domain) (definition : FunctionDefinition A V T)
      (func : A → Exec (Context S) V) (args : A) (named : Dict Text V) (a : CanonicalArguments)
      (e : Execution) (r : SerializedValue)
      → Models c.store v
      → Agrees session_id c.observed v
      → claim v session_id domain.id domain.version ≡ domain.version
      → bind definition args ≡ ok named
      → canonicalize named ≡ ok a
      → revive (visible v (key_of session_id (next_id c domain definition a))) ≡ ok (some e)
      → e.status ≡ completed
      → e.result ≡ some r
      → (c' : Context S) × (v' : View) × (call services canonicalize domain definition func args c
          ≡ (serializer.deserialize r.data_bytes definition.return_type, c'))
        × (counter c'.sequencer (call_scope c domain definition a)
            ≡ suc (counter c.sequencer (call_scope c domain definition a)))
        × (c'.stack ≡ c.stack)
        × Models c'.store v'
        × (v'.committed ≡ v.committed)
        × (v'.frames ≡ v.frames)
  unfolding call
  call-recorded c v domain definition func args named a e r h agrees ours bound canonical seen done
        result =
      let d = domain.id in
      let (answer, (v', held, same, frames, claims, still)) =
        ensure_lem backend contract c v session_id d domain.version h agrees in
      let (sequencer, stack) =
        ensure-elsewhere backend contract c v session_id d domain.version h in
      let passed : (ensure backend session_id d domain.version c).0 ≡ ok tt =
        rw (ours, beq_refl domain.version) at answer in
      let c1 = (ensure backend session_id d domain.version c).1 in
      let (q, identity, counted) = resolved c1 domain definition args named a bound canonical in
      let same_id : next_id c1 domain definition a ≡ next_id c domain definition a =
        rw (sequencer, stack) refl in
      let c2 = record c1 { sequencer = q } in
      let sees : visible v' ≡ visible v = rw (same, frames) refl in
      let found : revive (visible v' (key_of session_id (next_id c1 domain definition a)))
          ≡ ok (some e) =
        rw (sees, same_id) seen in
      let replayed =
        execute-recorded services contract c2 v' (next_id c1 domain definition a) a (func args)
          definition.return_type e r held found done result in
      (
        c2,
        v',
        rw passed (rw identity replayed),
        rw (sequencer, stack) at counted,
        stack,
        held,
        same,
        frames,
      )
