-- ===== src/Memory/Faithful.antt =====
-- About the in-memory client and backend, against what a store asks of a client.
use glyff.Prelude.{Option, [], ◌∷◌, list_eq, nat_eq, pair_eq, ◌≡◌, refl, ap, arith, list_beq_iff}
use glyff.Types.{SessionId, DomainId, DomainVersion, session_id_eq, domain_id_eq}
use glyff.Result.{Result, ok}
use glyff.Json.{Platform}
use glyff.Dict
use glyff.Dict.{Dict}
use glyff.Dict.Laws.{IsUnique, get-set, get-pop}
use glyff.Execution.Snapshot.{ExecutionSnapshot}
use glyff.Staging.{ExecutionKey, Batch, key_eq, save_execution, delete_execution, key_beq_iff}
use glyff.Backend.{outcome, claimed_after, recorded_or, Contract}
use glyff.Store.Client.{IsFaithful}
use glyff.Store.Refines.{store_contract}
use glyff.Memory.{
  MemoryState, apply_mutations, commit_mutations, read_committed, claim_domain, memory_client,
  memory_backend, executions,
}

-- A batch without repeated keys does to each record what it says of it.
pub get-apply_mutations :
    (m : Batch) (d : Dict ExecutionKey ExecutionSnapshot) (k : ExecutionKey)
    → IsUnique m
    → Dict.get (apply_mutations d m) k ≡ outcome (Dict.get m k) (Dict.get d k)
unfolding apply_mutations Dict.get
get-apply_mutations [] d k u = refl
get-apply_mutations ((j, save_execution x) ∷ m) d k u =
    ground
      (arith, get-apply_mutations m (Dict.set d j x) k u.1, get-set d j k x, key_beq_iff j k, u.0)
get-apply_mutations ((j, delete_execution) ∷ m) d k u =
    ground (arith, get-apply_mutations m (Dict.pop d j) k u.1, get-pop d j k, key_beq_iff j k, u.0)

unfoldable pub claimed : MemoryState → SessionId → DomainId → Option DomainVersion
claimed s session_id domain_id = Dict.get s.domain_versions (session_id.value, domain_id.value)

module _ (s : MemoryState) (sid : SessionId) (d : DomainId) (version : DomainVersion) where
  pub claim-result : (claim_domain sid d version s).0 ≡ ok (recorded_or (claimed s sid d) version)
  unfolding claim_domain claimed
  claim-result = ground arith

  pub claim-committed : ((claim_domain sid d version s).1).committed ≡ s.committed
  unfolding claim_domain
  claim-committed = ground arith

  pub claim-claimed :
      (sid' : SessionId) (d' : DomainId)
      → claimed ((claim_domain sid d version s).1) sid' d'
        ≡ claimed_after (claimed s) sid d version sid' d'
  unfolding claim_domain claimed
  claim-claimed sid' d' = ground (
    arith,
    get-set s.domain_versions (sid.value, d.value) (sid'.value, d'.value) version,
    list_beq_iff sid.value sid'.value,
    list_beq_iff d.value d'.value,
  )

module _ ⦃p : Platform⦄ where
  unfoldable pub memory_faithful : IsFaithful memory_client
  unfolding read_committed commit_mutations claimed
  memory_faithful = record {
    committed = read_committed;
    claimed = claimed;
    read_lem = λ s sid e. refl;
    commit_lem = λ s m u. (
      record s { committed = apply_mutations s.committed m },
      refl,
      λ k. get-apply_mutations m s.committed k u,
      λ sid d. refl,
    );
    claim_lem = λ s sid d version. (
      (claim_domain sid d version s).1,
      ap (λ (r : Result DomainVersion). (r, (claim_domain sid d version s).1))
          (claim-result s sid d version),
      λ k.
          ap (λ (x : Dict ExecutionKey ExecutionSnapshot). Dict.get x k)
            (claim-committed s sid d version),
      claim-claimed s sid d version,
    );
  }

  -- The in-memory client reads back what was committed to it, batch over batch, and keeps the
  -- first claim of a domain.
  pub memory_client-IsFaithful : IsFaithful memory_client
  memory_client-IsFaithful = memory_faithful

  unfoldable pub memory_contract : Contract memory_backend
  memory_contract = store_contract memory_client memory_faithful executions
