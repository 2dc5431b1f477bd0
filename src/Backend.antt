-- ===== src/Backend.antt =====
-- packages/glyff/src/glyff/_interfaces.py: what the core asks of a backend, and the contract that
-- its operations keep, over a view of the store.
use glyff.Prelude.{
  ℕ, Option, none, some, List, [], ◌∷◌, ◌≡◌, if◌then◌else◌, ◌==◌, ◌&&◌, list_eq, nat_eq,
}
use glyff.Types.{SessionId, ExecutionId, DomainId, DomainVersion, session_id_eq, domain_id_eq}
use glyff.Result.{Result, ok, err, ◌>>=◌, runtime_error}
use glyff.Exec.{Exec}
use glyff.Json.{Platform}
use glyff.Dict
use glyff.Execution.{Execution, ExecutionStatus}
use glyff.Execution.Snapshot.{ExecutionSnapshot, from_execution, to_execution}
use glyff.Staging.{ExecutionKey, ExecutionMutation, save_execution, delete_execution, Batch, key_eq}

-- ExecutionRepository, TransactionProvider, Transaction and `claim_domain`, over the state `S` of a
-- store. A transaction object is named by a number; `executions` yields a list.
pub record Backend (S : Type 0) : Type 0 where
  pub get : SessionId → ExecutionId → Exec S (Option Execution)
  pub save : SessionId → Execution → Exec S (Unit {0})
  pub executions : SessionId → Option ExecutionStatus → Option ExecutionId → Exec S (List Execution)
  pub delete_many : SessionId → List ExecutionId → Exec S (Unit {0})
  pub begin_transaction : Exec S ℕ
  pub commit : ℕ → Exec S (Unit {0})
  pub rollback : ℕ → Exec S (Unit {0})
  pub claim_domain : SessionId → DomainId → DomainVersion → Exec S DomainVersion

abbrev pub key_of : SessionId → ExecutionId → ExecutionKey
key_of s e = record { session_id = s; execution_id = e }

-- What a store holds: the committed records, the open transactions with what each has staged,
-- innermost first, and the claimed domain versions.
pub record View : Type 0 where
  pub committed : ExecutionKey → Option ExecutionSnapshot
  pub frames : List (ℕ × Batch)
  pub claimed : SessionId → DomainId → Option DomainVersion

-- What a mutation makes of a record.
abbrev pub outcome : Option ExecutionMutation → Option ExecutionSnapshot → Option ExecutionSnapshot
outcome none before = before
outcome (some (save_execution s)) before = some s
outcome (some delete_execution) before = none

abbrev pub overlay :
    Batch → (ExecutionKey → Option ExecutionSnapshot) → ExecutionKey → Option ExecutionSnapshot
overlay m committed k = outcome (Dict.get m k) (committed k)

-- The innermost open transaction reads its own writes, and else what is committed.
abbrev pub visible_in :
    List (ℕ × Batch)
    → (ExecutionKey → Option ExecutionSnapshot)
    → ExecutionKey
    → Option ExecutionSnapshot
visible_in [] committed k = committed k
visible_in ((t, m) ∷ fs) committed k = overlay m committed k

abbrev pub visible : View → ExecutionKey → Option ExecutionSnapshot
visible v = visible_in v.frames v.committed

abbrev pub recorded_or : Option DomainVersion → DomainVersion → DomainVersion
recorded_or none version = version
recorded_or (some recorded) version = recorded

-- The version a pair carries after a claim, and all versions after it.
abbrev pub claim : View → SessionId → DomainId → DomainVersion → DomainVersion
claim v s d version = recorded_or (v.claimed s d) version

abbrev pub claimed_after :
    (SessionId → DomainId → Option DomainVersion)
    → SessionId
    → DomainId
    → DomainVersion
    → SessionId
    → DomainId
    → Option DomainVersion
claimed_after claimed s d version s' d' =
    if (s == s') && (d == d') then some (recorded_or (claimed s d) version) else claimed s' d'

module _ ⦃p : Platform⦄ where
  abbrev pub revive : Option ExecutionSnapshot → Result (Option Execution)
  revive none = ok none
  revive (some s) = to_execution s >>= λ e. ok (some e)

  -- A backend keeps the contract if its operations do this to every view that models its state.
  pub record Contract {S : Type 0} (b : Backend S) : Type 1 where
    pub Models : S → View → Type 0
    pub get_lem :
        (s : S) (v : View) (sid : SessionId) (e : ExecutionId)
        → Models s v
        → b.get sid e s ≡ (revive (visible v (key_of sid e)), s)
    pub save_outside :
        (s : S) (v : View) (sid : SessionId) (e : Execution)
        → Models s v
        → v.frames ≡ []
        → b.save sid e s ≡ (err runtime_error, s)
    pub save_staged :
        (s : S) (v : View) (sid : SessionId) (e : Execution) (t : ℕ) (m : Batch)
        (fs : List (ℕ × Batch))
        → Models s v
        → v.frames ≡ (t, m) ∷ fs
        → (s' : S) × (b.save sid e s ≡ (ok tt, s'))
          × Models s' (record v {
            frames = (t, Dict.set m (key_of sid e.id) (save_execution (from_execution e))) ∷ fs;
          })
    pub begin_lem :
        (s : S) (v : View)
        → Models s v
        → (t : ℕ) × (s' : S) × (b.begin_transaction s ≡ (ok t, s'))
          × Models s' (record v { frames = (t, []) ∷ v.frames })
    pub commit_lem :
        (s : S) (v : View) (t : ℕ) (m : Batch) (fs : List (ℕ × Batch))
        → Models s v
        → v.frames ≡ (t, m) ∷ fs
        → (s' : S) × (b.commit t s ≡ (ok tt, s'))
          × Models s' (record v { committed = overlay m v.committed; frames = fs })
    pub rollback_lem :
        (s : S) (v : View) (t : ℕ) (m : Batch) (fs : List (ℕ × Batch))
        → Models s v
        → v.frames ≡ (t, m) ∷ fs
        → (s' : S) × (b.rollback t s ≡ (ok tt, s')) × Models s' (record v { frames = fs })
    pub claim_lem :
        (s : S) (v : View) (sid : SessionId) (d : DomainId) (version : DomainVersion)
        → Models s v
        → (s' : S) × (b.claim_domain sid d version s ≡ (ok (claim v sid d version), s'))
          × Models s' (record v { claimed = claimed_after v.claimed sid d version })
