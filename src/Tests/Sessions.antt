-- ===== src/Tests/Sessions.antt =====
-- What a session's calls do beside recording themselves: claiming domains and attaching metadata.
use glyff.Prelude.{none, some, [], ◌∷◌, codes, ◌≡◌, refl, arith}
use glyff.Types.{SessionId, DomainId, DomainVersion, frame}
use glyff.Result.{ok}
use glyff.Arguments.{digest}
use glyff.Dict
use glyff.Execution.{SerializedValue}
use glyff.Execution.Lifecycle.{started_execution-IsValid}
use glyff.Backend.{View, claim, claimed_after}
use glyff.Store.{Store}
use glyff.Memory.{MemoryState, memory_backend}
use glyff.Memory.Faithful.{memory_contract}
use glyff.Session.{Context}
use glyff.Session.Claims.{ensure}
use glyff.Session.Claims.Agreement.{Agrees, verdict, ensure_lem}
use glyff.Accessor.{attach, read_metadata}
use glyff.Accessor.Attached.{read_metadata-attach}
use glyff.Tests.Data.{test_platform, session, a_call, a_frame, a_started, some_arguments}
use glyff.Tests.Calls.{services, running, running_view, running-Models, seen_started, readable}

abbrev in_call : Context (Store MemoryState)
in_call = record running { stack = a_call ∷ [] }

keyed : (frame a_call).arguments_digest ≡ digest some_arguments
unfolding digest
keyed = refl

abbrev note : SerializedValue
note = record { data_bytes = codes "hi" }

read_metadata-attach_example :
    (s : Store MemoryState) × (attach services (λ v. tt) (codes "note") (codes "hi") none in_call
      ≡ (ok tt, record in_call { store = s }))
    × (read_metadata services (codes "note") tt none (record in_call { store = s })
        ≡ (ok (some (codes "hi")), record in_call { store = s }))
read_metadata-attach_example =
    read_metadata-attach services memory_contract in_call running_view 0 [] [] a_started (λ v. tt)
      (codes "note") (codes "hi") none note tt running-Models refl refl seen_started
      (started_execution-IsValid a_call some_arguments keyed) readable refl

abbrev version : DomainVersion
version = record { value = codes "v1" }

nothing_observed : Agrees session running.observed running_view
unfolding Dict.get
nothing_observed = λ d r q. absurd (ground arith)

ensure_lem_example :
    ((ensure memory_backend session a_frame.domain_id version running).0
      ≡ verdict a_frame.domain_id version (claim running_view session a_frame.domain_id version))
    × ((v' : View) × memory_contract.Models
          ((ensure memory_backend session a_frame.domain_id version running).1).store
          v'
        × (v'.committed ≡ running_view.committed)
        × (v'.frames ≡ running_view.frames)
        × ((s' : SessionId) (d' : DomainId)
            → v'.claimed s' d'
              ≡ claimed_after running_view.claimed session a_frame.domain_id version s' d')
        × Agrees session
            ((ensure memory_backend session a_frame.domain_id version running).1).observed
            v')
ensure_lem_example =
    ensure_lem memory_backend memory_contract running running_view session a_frame.domain_id version
      running-Models nothing_observed
