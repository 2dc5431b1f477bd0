-- ===== src/Executor/Started.antt =====
-- The first transaction of a call: the record that says that it has started.
use glyff.Prelude.{false, none, [], ◌∷◌, ◌≡◌, refl}
use glyff.Types.{ExecutionId, frame}
use glyff.Result.{ok}
use glyff.Json.{Platform}
use glyff.Arguments.{CanonicalArguments, digest}
use glyff.Dict
use glyff.Execution.{Execution}
use glyff.Execution.Lifecycle.{started_execution, start-eq-ok}
use glyff.Execution.Snapshot.{from_execution}
use glyff.Staging.{key_eq, save_execution}
use glyff.Backend.{View, Contract, key_of, overlay}
use glyff.Sequencer.{reset_for_call}
use glyff.Sequencer.Counting.{IsConsistent, reset_for_call_lem}
use glyff.Session.{Context}
use glyff.Session.Scope.{within}
use glyff.Executor.{Services, record_start}
use glyff.Executor.Balance.{enter_lem, exit_lem}

module _ ⦃p : Platform⦄ {S V T : Type 0} (services : Services S V T)
    (contract : Contract (services.backend)) where
  open services use {session_id, backend}
  open contract use {Models}

  -- The records once one has been saved and committed.
  abbrev pub committed_with : View → Execution → View
  committed_with v e = record v {
    committed =
        overlay ((key_of session_id e.id, save_execution (from_execution e)) ∷ []) v.committed;
  }

  -- Where no record of the call is committed, the identity has the digest of the arguments and
  -- the sequencer is consistent, `record_start` commits the record of a started call, restarts
  -- the ordinals of the call's children, and changes nothing else.
  pub record_start-fresh :
      (c : Context S) (v : View) (i : ExecutionId) (a : CanonicalArguments)
      → Models c.store v
      → IsConsistent c.sequencer
      → v.committed (key_of session_id i) ≡ none
      → (frame i).arguments_digest ≡ digest a
      → (s : S) × (record_start services i a c
          ≡ (ok tt, record c { store = s; sequencer = (reset_for_call i c.sequencer).1 }))
        × Models s (committed_with v (started_execution i a))
  unfolding record_start within Dict.get Dict.set
  record_start-fresh c v i a h consistent fresh keyed =
      let (t, s1, entered, h1) = enter_lem backend contract c v h in
      let (reset, _, _) = reset_for_call_lem c.sequencer i consistent in
      let c2 = record c { store = s1; sequencer = (reset_for_call i c.sequencer).1 } in
      let found = contract.get_lem s1 (record v { frames = (t, []) ∷ v.frames }) session_id i h1 in
      let begun = start-eq-ok i a keyed in
      let (s3, saved, h3) =
        contract.save_staged s1 (record v { frames = (t, []) ∷ v.frames }) session_id
          (started_execution i a) t [] v.frames h1 refl in
      let (s4, left, h4) =
        exit_lem backend contract (record c2 { store = s3 }) _ t _ v.frames false h3 refl in
      (s4, rw entered (rw reset (rw found (rw fresh (rw begun (rw saved (rw left refl)))))), h4)
