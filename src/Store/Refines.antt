-- ===== src/Store/Refines.antt =====
-- About the operations that backends share, against the contract of a backend.
use glyff.Prelude.{ℕ, Option, none, some, List, [], ◌∷◌, ◌≡◌, refl, arith, subst, ◌∙◌, ap}
use glyff.Types.{SessionId, ExecutionId, DomainId, DomainVersion, domain_id_eq, session_id_eq}
use glyff.Result.{ok}
use glyff.Exec.{Exec}
use glyff.Json.{Platform}
use glyff.Dict
use glyff.Dict.Laws.{set-IsUnique}
use glyff.Execution.{Execution, ExecutionStatus}
use glyff.Execution.Snapshot.{ExecutionSnapshot, from_execution}
use glyff.Staging
use glyff.Staging.{ExecutionKey, Batch, key_eq, save_execution, delete_execution, ExecutionMutation}
use glyff.Backend.{
  View, visible_in, overlay, outcome, key_of, revive, claim, claimed_after, Contract,
}
use glyff.Store
use glyff.Store.{Store, in_client}
use glyff.Store.Client.{Client, IsFaithful, backend_of}
use glyff.Store.Laws.{
  Holds, open_of-Holds, open_of-empty, begun, begin-begun, begin-Holds, saved, save-saved,
  save-outside, save-Holds, ended, ended-Holds, rollback-ended, commit-ended,
}

module _ ⦃p : Platform⦄ {C : Type 0} (client : Client C) (f : IsFaithful client) where
  pub record Models (s : Store C) (v : View) : Type 0 where
    pub held : Holds s v.frames
    pub committed : (k : ExecutionKey) → f.committed s.client k ≡ v.committed k
    pub claimed : (sid : SessionId) (d : DomainId) → f.claimed s.client sid d ≡ v.claimed sid d

  staged-empty : (s : Store C) (k : ExecutionKey) → Holds s [] → Store.staged s k ≡ none
  staged-empty s k h = rw (open_of-empty s h, Store.staged)

  staged-innermost :
      (s : Store C) (k : ExecutionKey) (t : ℕ) (m : Batch) (fs : List (ℕ × Batch))
      → Holds s ((t, m) ∷ fs)
      → Store.staged s k ≡ Dict.get m k
  unfolding Staging.lookup
  staged-innermost s k t m fs h =
      rw (open_of-Holds s t m fs h, Store.staged)
        (ap (λ (x : Staging.ExecutionStage). Dict.get x.mutations k) (h.2.stage))

  read-committed :
      (s : Store C) (sid : SessionId) (e : ExecutionId) (o : Option ExecutionSnapshot)
      → f.committed s.client (key_of sid e) ≡ o
      → in_client (client.read_committed sid e) s ≡ (revive o, s)
  read-committed s sid e o h = rw (f.read_lem s.client sid e, h)

  pub get_frames :
      (s : Store C) (fs : List (ℕ × Batch)) (committed : ExecutionKey → Option ExecutionSnapshot)
      (sid : SessionId) (e : ExecutionId)
      → ((k : ExecutionKey) → f.committed s.client k ≡ committed k)
      → Holds s fs
      → Store.get client.read_committed sid e s
        ≡ (revive (visible_in fs committed (key_of sid e)), s)
  unfolding Store.get
  get_frames s [] committed sid e same held =
      rw (staged-empty s (key_of sid e) held) (read-committed s sid e _ (same (key_of sid e)))
  get_frames s ((t, m) ∷ fs) committed sid e same held =
      rw (staged-innermost s (key_of sid e) t m fs held) (by_mutation (Dict.get m (key_of sid e)))
    where
      by_mutation :
          (o : Option ExecutionMutation)
          → Store.read_through o (in_client (client.read_committed sid e)) s
            ≡ (revive (outcome o (committed (key_of sid e))), s)
      by_mutation none = read-committed s sid e _ (same (key_of sid e))
      by_mutation (some (save_execution x)) = refl
      by_mutation (some delete_execution) = refl

  pub save_frames :
      (s : Store C) (v : View) (sid : SessionId) (e : Execution) (t : ℕ) (m : Batch)
      (fs : List (ℕ × Batch))
      → Models s v
      → v.frames ≡ (t, m) ∷ fs
      → (s' : Store C) × (Store.save sid e s ≡ (ok tt, s'))
        × Models s' (record v {
          frames = (t, Dict.set m (key_of sid e.id) (save_execution (from_execution e))) ∷ fs;
        })
  save_frames s v sid e t m fs h q =
      let held = subst (Holds s) q h.held in
      let m' = Dict.set m (key_of sid e.id) (save_execution (from_execution e)) in
      (
        saved s held.0 m',
        save-saved s sid e t m fs held,
        record {
          held = save-Holds s t m m' fs held (set-IsUnique m (key_of sid e.id) _ (held.2.unique));
          committed = h.committed;
          claimed = h.claimed;
        },
      )

  pub commit_frames :
      (s : Store C) (v : View) (t : ℕ) (m : Batch) (fs : List (ℕ × Batch))
      → Models s v
      → v.frames ≡ (t, m) ∷ fs
      → (s' : Store C) × (Store.commit client.commit_mutations t s ≡ (ok tt, s'))
        × Models s' (record v { committed = overlay m v.committed; frames = fs })
  commit_frames s v t m fs h q =
      let held = subst (Holds s) q h.held in
      let (c', done, committed, claimed) = f.commit_lem s.client m (held.2.unique) in
      (
        record (ended s t held.0 held.1) { client = c' },
        commit-ended client.commit_mutations s t m fs held ∙ rw done refl,
        record {
          held = ended-Holds s t m fs held;
          committed = λ k. committed k ∙ ap (outcome (Dict.get m k)) (h.committed k);
          claimed = λ sid d. claimed sid d ∙ h.claimed sid d;
        },
      )

  pub claim_frames :
      (s : Store C) (v : View) (sid : SessionId) (d : DomainId) (version : DomainVersion)
      → Models s v
      → (s' : Store C) × (in_client (client.claim_domain sid d version) s
          ≡ (ok (claim v sid d version), s'))
        × Models s' (record v { claimed = claimed_after v.claimed sid d version })
  claim_frames s v sid d version h =
      let (c', done, committed, claimed) = f.claim_lem s.client sid d version in
      (
        record s { client = c' },
        rw done (rw (h.claimed sid d) refl),
        record {
          held = h.held;
          committed = λ k. committed k ∙ h.committed k;
          claimed = λ sid' d'. ground (arith, claimed sid' d', h.claimed sid' d', h.claimed sid d);
        },
      )

  -- The contract, with what models a state.
  unfoldable pub store_contract :
      (executions : SessionId
        → Option ExecutionStatus
        → Option ExecutionId
        → Exec (Store C) (List Execution))
      → Contract (backend_of client executions)
  store_contract executions = record {
    Models = Models;
    get_lem = λ s v sid e h. get_frames s v.frames v.committed sid e h.committed h.held;
    save_outside = λ s v sid e h q. save-outside s sid e (subst (Holds s) q h.held);
    save_staged = save_frames;
    begin_lem = λ s v h. (
      s.next_transaction,
      begun s,
      begin-begun s,
      record { held = begin-Holds s v.frames h.held; committed = h.committed; claimed = h.claimed },
    );
    commit_lem = commit_frames;
    rollback_lem = λ s v t m fs h q.
        let held = subst (Holds s) q h.held in
        (
          ended s t held.0 held.1,
          rollback-ended s t m fs held,
          record { held = ended-Holds s t m fs held; committed = h.committed; claimed = h.claimed },
        );
    claim_lem = claim_frames;
  }

  -- Over a client that reads back what was committed to it and keeps the first claim of a domain,
  -- the shared get, save, begin_transaction, commit and rollback, and the client's claim_domain,
  -- do what the contract of a backend says, from a new store on, which holds what its client holds
  -- and no open transaction.
  pub contract_of :
      (executions : SessionId
        → Option ExecutionStatus
        → Option ExecutionId
        → Exec (Store C) (List Execution))
      → (contract : Contract (backend_of client executions)) × ((c : C)
          → contract.Models
              (Store.new_store c)
              (record { committed = f.committed c; frames = []; claimed = f.claimed c }))
  unfolding store_contract
  contract_of executions = (
    store_contract executions,
    λ c. record { held = refl; committed = λ k. refl; claimed = λ sid d. refl },
  )
