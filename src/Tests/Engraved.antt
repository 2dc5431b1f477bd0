-- ===== src/Tests/Engraved.antt =====
-- Calls of an engraved function, on a store that has a record of the first of them.
use glyff.Prelude.{Text, Bytes, some, [], ◌∷◌, codes, ◌≡◌, refl, arith, suc}
use glyff.Types.{ExecutionId, DomainVersion, top}
use glyff.Result.{Result, ok, err, domain_version_mismatch}
use glyff.Exec.{Exec, pure}
use glyff.Dict
use glyff.Dict.{Dict}
use glyff.Arguments.{
  CanonicalArguments, from_recorded_bytes, canonical_arguments, encode_argument_mapping,
  encode_entries, encode_canonical, decode, restore_fields, digest,
}
use glyff.Execution.{Execution, post_init}
use glyff.Execution.Snapshot.{from_execution, to_execution}
use glyff.Backend.{View, claim, visible, revive, key_of}
use glyff.Store.{Store, new_store}
use glyff.Store.Refines.{store_contract}
use glyff.Memory.{MemoryState, read_committed}
use glyff.Memory.Faithful.{memory_faithful, memory_contract, claimed}
use glyff.Sequencer.{counter}
use glyff.Session.{Context, enter}
use glyff.Session.Claims.Agreement.{Agrees}
use glyff.Function.{FunctionDefinition, bind}
use glyff.Domain.{Domain, call}
use glyff.Domain.Calls.{call-refused, call-recorded, call_scope, next_id}
use glyff.Tests.Data.{test_platform, session, a_frame, some_arguments, a_completed}
use glyff.Tests.Calls.{services}

abbrev first_call : ExecutionId
first_call = top (record a_frame { sequence = 0 })

abbrev first_record : Execution
first_record = record a_completed { id = first_call }

abbrev current_version : DomainVersion
current_version = record { value = codes "v1" }

abbrev kept : MemoryState
kept = record {
  committed = (key_of session first_call, from_execution first_record) ∷ [];
  domain_versions = ((session.value, a_frame.domain_id.value), current_version) ∷ [];
}

abbrev begun : Context (Store MemoryState)
begun = enter (new_store kept)

abbrev kept_view : View
kept_view = record { committed = read_committed kept; frames = []; claimed = claimed kept }

begun-Models : memory_contract.Models begun.store kept_view
unfolding memory_contract store_contract memory_faithful
begun-Models = record { held = refl; committed = λ k. refl; claimed = λ s d. refl }

nothing_observed : Agrees session begun.observed kept_view
unfolding Dict.get
nothing_observed = λ d r q. absurd (ground arith)

abbrev job : FunctionDefinition Bytes Bytes (Unit {0})
job = record {
  name = a_frame.name;
  return_type = tt;
  bind_arguments = λ args. ok ((codes "x", args) ∷ []);
}

abbrev canonicalize : Dict Text Bytes → Result CanonicalArguments
canonicalize d = ok some_arguments

abbrev body : Bytes → Exec (Context (Store MemoryState)) Bytes
body args = pure args

abbrev ours : Domain
ours = record { id = a_frame.domain_id; version = current_version }

abbrev theirs : Domain
theirs = record { id = a_frame.domain_id; version = record { value = codes "v2" } }

claimed_v1 : kept_view.claimed session a_frame.domain_id ≡ some current_version
unfolding claimed Dict.get
claimed_v1 = refl

call-refused_example :
    (c' : Context (Store MemoryState)) × (v' : View) × (call services canonicalize theirs job body
        (codes "new")
        begun
      ≡ (err (domain_version_mismatch a_frame.domain_id current_version theirs.version), c'))
    × (c'.sequencer ≡ begun.sequencer)
    × (c'.stack ≡ begun.stack)
    × memory_contract.Models c'.store v'
    × (v'.committed ≡ kept_view.committed)
    × (v'.frames ≡ kept_view.frames)
call-refused_example =
    call-refused services canonicalize memory_contract begun kept_view theirs job body (codes "new")
      current_version begun-Models nothing_observed claimed_v1 refl

agreed : claim kept_view session ours.id ours.version ≡ ours.version
unfolding claimed Dict.get
agreed = refl

bound : bind job (codes "new") ≡ ok ((codes "x", codes "new") ∷ [])
unfolding bind
bound = refl

seen :
    revive (
      visible kept_view (
        key_of session
          (next_id services canonicalize memory_contract begun ours job some_arguments)))
    ≡ ok (some first_record)
unfolding read_committed Dict.get to_execution post_init from_execution from_recorded_bytes decode
    restore_fields canonical_arguments encode_argument_mapping encode_entries encode_canonical
    digest counter
seen = refl

call-recorded_example :
    (c' : Context (Store MemoryState)) × (v' : View) × (call services canonicalize ours job body
        (codes "new")
        begun
      ≡ (ok (codes "42"), c'))
    × (counter c'.sequencer
          (call_scope services canonicalize memory_contract begun ours job some_arguments)
        ≡ suc (
            counter begun.sequencer
              (call_scope services canonicalize memory_contract begun ours job some_arguments)))
    × (c'.stack ≡ begun.stack)
    × memory_contract.Models c'.store v'
    × (v'.committed ≡ kept_view.committed)
    × (v'.frames ≡ kept_view.frames)
call-recorded_example =
    call-recorded services canonicalize memory_contract begun kept_view ours job body (codes "new")
      ((codes "x", codes "new") ∷ []) some_arguments first_record
      (record { data_bytes = codes "42" }) begun-Models nothing_observed agreed bound refl seen refl
      refl
