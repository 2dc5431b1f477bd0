-- ===== src/Tests/Calls.antt =====
-- Engraved calls on the in-memory backend.
use glyff.Prelude.{ℕ, Bytes, none, some, [], ◌∷◌, codes, ◌≡◌, refl}
use glyff.Types.{frame}
use glyff.Result.{ok, err, lookup_error}
use glyff.Exec.{Exec, pure}
use glyff.Dict
use glyff.Arguments.{
  from_recorded_bytes, canonical_arguments, encode_argument_mapping, encode_canonical, decode,
  restore_recorded_value, restore_fields, encode_entries, digest,
}
use glyff.Execution.{SerializedValue, post_init}
use glyff.Execution.Snapshot.{from_execution, to_execution}
use glyff.Backend.{View, visible, revive, key_of}
use glyff.Store.{Store, new_store}
use glyff.Store.Refines.{store_contract}
use glyff.Store.Laws.{begun, begin-Holds}
use glyff.Memory.{MemoryState, empty_state, memory_backend, read_committed}
use glyff.Memory.Faithful.{memory_faithful, memory_contract, claimed}
use glyff.Session.{Context, enter}
use glyff.Events.{
  Event, execution_completed, execution_failed, emit, handlers_to_run, run_handlers, add_unseen,
}
use glyff.Executor.{Services, Serializer, execute, record_start, attempt, record_completion}
use glyff.Executor.Fresh.{execute-fresh}
use glyff.Executor.Started.{record_start-fresh, committed_with}
use glyff.Executor.Outcome.{
  attempt-atomic, record_completion-started, record_completion-refused, absent,
}
use glyff.Sequencer.{reset_for_call}
use glyff.Sequencer.Counting.{IsConsistent}
use glyff.Execution.Lifecycle.{started_execution, completed_execution}
use glyff.Staging.{Batch, key_eq, save_execution}
use glyff.Session.Scope.{is_raised}
use glyff.Executor.Replay.{execute-recorded}
use glyff.Executor.Balance.{Balanced, ended}
use glyff.Executor.Rules.{Balanced-lift}
use glyff.Executor.Nesting.{execute-Balanced, inside}
use glyff.Tests.Data.{a_started, test_platform, session, a_call, some_arguments, a_completed}

abbrev pub plain : Serializer Bytes (Unit {0})
plain = record { serialize = λ v t. ok v; deserialize = λ b t. ok b }

abbrev pub services : Services (Store MemoryState) Bytes (Unit {0})
services = record {
  session_id = session;
  backend = memory_backend;
  serializer = plain;
  handlers = [];
}

abbrev recorded : MemoryState
recorded = record {
  committed = (key_of session a_call, from_execution a_completed) ∷ [];
  domain_versions = [];
}

abbrev resumed : Context (Store MemoryState)
resumed = enter (new_store recorded)

abbrev recorded_view : View
recorded_view = record {
  committed = read_committed recorded;
  frames = [];
  claimed = claimed recorded;
}

resumed-Models : memory_contract.Models resumed.store recorded_view
unfolding memory_contract store_contract memory_faithful
resumed-Models = record { held = refl; committed = λ k. refl; claimed = λ s d. refl }

pub readable : from_recorded_bytes some_arguments.data_bytes ≡ ok some_arguments
unfolding from_recorded_bytes canonical_arguments encode_argument_mapping encode_canonical decode
    restore_recorded_value restore_fields encode_entries
readable = refl

seen : revive (visible recorded_view (key_of session a_call)) ≡ ok (some a_completed)
unfolding read_committed Dict.get to_execution post_init from_execution from_recorded_bytes decode
    restore_fields canonical_arguments encode_argument_mapping encode_entries encode_canonical
    digest
seen = refl

execute-recorded_example :
    execute services a_call some_arguments (pure (codes "new")) tt resumed
    ≡ (ok (codes "42"), resumed)
execute-recorded_example =
    execute-recorded services memory_contract resumed recorded_view a_call some_arguments
      (pure (codes "new")) tt a_completed (record { data_bytes = codes "42" }) resumed-Models seen
      refl refl

silent : (event : Event) → Balanced memory_backend memory_contract (emit services.handlers event)
unfolding emit handlers_to_run run_handlers Dict.get add_unseen
silent (execution_completed i) = Balanced-lift memory_backend memory_contract (ok tt)
silent (execution_failed i e) = Balanced-lift memory_backend memory_contract (ok tt)

execute-Balanced_example :
    Balanced memory_backend memory_contract
      (execute services a_call some_arguments (pure (codes "new")) tt)
execute-Balanced_example =
    execute-Balanced services memory_contract silent a_call some_arguments (pure (codes "new")) tt
      (Balanced-lift memory_backend memory_contract (ok (codes "new")))

abbrev fresh : Context (Store MemoryState)
fresh = enter (new_store empty_state)

abbrev empty_view : View
empty_view = record {
  committed = read_committed empty_state;
  frames = [];
  claimed = claimed empty_state;
}

fresh-Models : memory_contract.Models fresh.store empty_view
unfolding memory_contract store_contract memory_faithful
fresh-Models = record { held = refl; committed = λ k. refl; claimed = λ s d. refl }

fresh-IsConsistent : IsConsistent fresh.sequencer
unfolding Dict.get
fresh-IsConsistent = record { locked = λ k h. h; unique = tt }

unrecorded : empty_view.committed (key_of session a_call) ≡ none
unfolding read_committed Dict.get
unrecorded = refl

keyed : (frame a_call).arguments_digest ≡ digest some_arguments
unfolding digest
keyed = refl

calm :
    (event : Event) (c : Context (Store MemoryState)) → (emit services.handlers event c).0 ≡ ok tt
unfolding emit handlers_to_run run_handlers Dict.get add_unseen
calm (execution_completed i) c = refl
calm (execution_failed i e) c = refl

abbrev body : Exec (Context (Store MemoryState)) Bytes
body = pure (codes "42")

body-Balanced : Balanced memory_backend memory_contract body
body-Balanced = Balanced-lift memory_backend memory_contract (ok (codes "42"))

execute-fresh_example :
    (s : Store MemoryState) × (t : ℕ) × memory_contract.Models s
      (record (committed_with services memory_contract empty_view
        (started_execution a_call some_arguments)) { frames = (t, []) ∷ [] })
    × ((execute services a_call some_arguments body tt fresh).0
        ≡ (inside services memory_contract a_call body tt (record {
          store = s;
          sequencer = (reset_for_call a_call fresh.sequencer).1;
          observed = [];
          stack = a_call ∷ [];
        })).0)
execute-fresh_example =
    execute-fresh services memory_contract calm fresh empty_view a_call some_arguments body tt
      body-Balanced fresh-Models fresh-IsConsistent unrecorded unrecorded keyed

record_start-fresh_example :
    (s : Store MemoryState) × (record_start services a_call some_arguments fresh
      ≡ (ok tt, record fresh { store = s; sequencer = (reset_for_call a_call fresh.sequencer).1 }))
    × memory_contract.Models s (
        committed_with services memory_contract empty_view
          (started_execution a_call some_arguments))
record_start-fresh_example =
    record_start-fresh services memory_contract fresh empty_view a_call some_arguments fresh-Models
      fresh-IsConsistent unrecorded keyed

attempt-atomic_example :
    (s : Store MemoryState) × (t : ℕ) × (m : Batch) × (v' : View) × (s' : Store MemoryState)
    × memory_contract.Models s (record empty_view { frames = (t, []) ∷ [] })
    × memory_contract.Models
        ((inside services memory_contract a_call body tt (record fresh { store = s })).1).store
        v'
    × (v'.frames ≡ (t, m) ∷ [])
    × (attempt services a_call body tt fresh ≡ (
      ok ((inside services memory_contract a_call body tt (record fresh { store = s })).0, none),
      record ((inside services memory_contract a_call body tt (record fresh { store = s })).1) {
        store = s';
      },
    ))
    × memory_contract.Models s' (
        ended
          (is_raised memory_backend
            (inside services memory_contract a_call body tt (record fresh { store = s })).0)
          v'
          m
          [])
attempt-atomic_example =
    attempt-atomic services memory_contract fresh empty_view a_call body tt body-Balanced
      fresh-Models

record_completion-refused_example :
    record_completion services a_call tt (codes "42") fresh ≡ (err lookup_error, fresh)
record_completion-refused_example =
    record_completion-refused services memory_contract fresh empty_view a_call tt (codes "42")
      lookup_error fresh-Models (absent unseen)
  where
    unseen : revive (visible empty_view (key_of session a_call)) ≡ ok none
    unseen = rw unrecorded refl

abbrev pub begun_state : MemoryState
begun_state = record {
  committed = (key_of session a_call, from_execution a_started) ∷ [];
  domain_versions = [];
}

abbrev pub running : Context (Store MemoryState)
running = enter (begun (new_store begun_state))

abbrev pub running_view : View
running_view = record {
  committed = read_committed begun_state;
  frames = (0, []) ∷ [];
  claimed = claimed begun_state;
}

pub running-Models : memory_contract.Models running.store running_view
unfolding memory_contract store_contract memory_faithful
running-Models = record {
  held = begin-Holds (new_store begun_state) [] refl;
  committed = λ k. refl;
  claimed = λ s d. refl;
}

pub seen_started : revive (visible running_view (key_of session a_call)) ≡ ok (some a_started)
unfolding read_committed Dict.get to_execution post_init from_execution from_recorded_bytes decode
    restore_fields canonical_arguments encode_argument_mapping encode_entries encode_canonical
    digest
seen_started = refl

abbrev answer : SerializedValue
answer = record { data_bytes = codes "42" }

record_completion-started_example :
    (s : Store MemoryState) × (record_completion services a_call tt (codes "42") running
      ≡ (ok (codes "42"), record running { store = s }))
    × memory_contract.Models s (record running_view {
      frames =
          (
            0,
            Dict.set []
                (key_of session a_call)
                (save_execution (from_execution (completed_execution a_started answer))),
          )
          ∷ [];
    })
record_completion-started_example =
    record_completion-started services memory_contract running running_view 0 [] [] a_call tt
      (codes "42") a_started answer running-Models refl seen_started refl refl
