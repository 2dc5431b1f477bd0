-- ===== src/Store/Client.antt =====
-- What a store's transactions ask of its client, and what they rely on.
use glyff.Prelude.{Option, List, ◌≡◌}
use glyff.Types.{SessionId, ExecutionId, DomainId, DomainVersion}
use glyff.Result.{ok}
use glyff.Exec.{Exec}
use glyff.Json.{Platform}
use glyff.Dict.Laws.{IsUnique}
use glyff.Execution.{Execution, ExecutionStatus}
use glyff.Execution.Snapshot.{ExecutionSnapshot}
use glyff.Staging.{ExecutionKey, Batch, key_eq}
use glyff.Backend.{Backend, revive, key_of, overlay, recorded_or, claimed_after}
use glyff.Store
use glyff.Store.{Store, in_client}

pub record Client (C : Type 0) : Type 0 where
  pub read_committed : SessionId → ExecutionId → Exec C (Option Execution)
  pub commit_mutations : Batch → Exec C (Unit {0})
  pub claim_domain : SessionId → DomainId → DomainVersion → Exec C DomainVersion

module _ ⦃p : Platform⦄ where
  pub record IsFaithful {C : Type 0} (client : Client C) : Type 0 where
    pub committed : C → ExecutionKey → Option ExecutionSnapshot
    pub claimed : C → SessionId → DomainId → Option DomainVersion
    pub read_lem :
        (c : C) (s : SessionId) (e : ExecutionId)
        → client.read_committed s e c ≡ (revive (committed c (key_of s e)), c)
    pub commit_lem :
        (c : C) (m : Batch)
        → IsUnique m
        → (c' : C) × (client.commit_mutations m c ≡ (ok tt, c'))
          × ((k : ExecutionKey) → committed c' k ≡ overlay m (committed c) k)
          × ((s' : SessionId) (d' : DomainId) → claimed c' s' d' ≡ claimed c s' d')
    pub claim_lem :
        (c : C) (s : SessionId) (d : DomainId) (version : DomainVersion)
        → (c' : C) × (client.claim_domain s d version c
            ≡ (ok (recorded_or (claimed c s d) version), c'))
          × ((k : ExecutionKey) → committed c' k ≡ committed c k)
          × ((s' : SessionId) (d' : DomainId)
              → claimed c' s' d' ≡ claimed_after (claimed c) s d version s' d')

  -- The operations of a backend over a client.
  abbrev pub backend_of :
      {C : Type 0}
      → Client C
      → (SessionId → Option ExecutionStatus → Option ExecutionId → Exec (Store C) (List Execution))
      → Backend (Store C)
  backend_of client executions = record {
    get = Store.get client.read_committed;
    save = Store.save;
    executions = executions;
    delete_many = Store.delete_many;
    begin_transaction = Store.begin_transaction;
    commit = Store.commit client.commit_mutations;
    rollback = Store.rollback;
    claim_domain = λ s d version. in_client (client.claim_domain s d version);
  }
