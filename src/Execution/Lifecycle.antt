-- ===== src/Execution/Lifecycle.antt =====
-- About the invariants of the aggregate in packages/glyff/src/glyff/_execution.py.
use glyff.Prelude.{
  Text, none, some, ◌≡◌, refl, is_some, arith, ◌↔◌, [], list_eq, nat_eq, list_beq_iff,
}
use glyff.Types.{ExecutionId, frame, arguments_digest_eq, ArgumentsDigest-beq_iff}
use glyff.Result.{ok, err, value_error}
use glyff.Json.{Platform}
use glyff.Arguments.{CanonicalArguments, digest}
use glyff.Dict
use glyff.Dict.{Dict}
use glyff.Dict.Laws.{IsUnique, set-IsUnique, get-set}
use glyff.Execution.{
  Execution, started, completed, is_completed, SerializedValue, Metadata, post_init, start,
  complete, set_metadata,
}

-- The entries are filed under their own keys, none twice.
pub record IsFiled (d : Dict Text Metadata) : Type 0 where
  pub unique : IsUnique d
  pub keyed : (k : Text) (m : Metadata) → Dict.get d k ≡ some m → m.key ≡ k

module _ ⦃p : Platform⦄ where
  pub record IsValid (e : Execution) : Type 0 where
    pub keyed : (frame e.id).arguments_digest ≡ digest e.arguments
    -- a result exactly when completed
    pub finished : is_some e.result ≡ is_completed e.status
    pub filed : IsFiled e.metadata

  -- The constructor accepts an execution exactly when its identity's digest is its arguments'
  -- digest, and it has a result exactly when it is completed.
  pub post_init-eq-ok_iff :
      (e : Execution)
      → (post_init e ≡ ok e) ↔ (
          ((frame e.id).arguments_digest ≡ digest e.arguments)
          × (is_some e.result ≡ is_completed e.status))
  unfolding post_init
  post_init-eq-ok_iff e =
      ground (arith, ArgumentsDigest-beq_iff (frame e.id).arguments_digest (digest e.arguments))

  pub post_init-IsValid : (e : Execution) → IsValid e → post_init e ≡ ok e
  post_init-IsValid e v = (post_init-eq-ok_iff e).1 (v.keyed, v.finished)

  abbrev pub started_execution : ExecutionId → CanonicalArguments → Execution
  started_execution i a = record {
    id = i;
    status = started;
    arguments = a;
    result = none;
    metadata = [];
  }

  IsFiled-empty : IsFiled []
  unfolding Dict.get
  IsFiled-empty = record { unique = tt; keyed = λ k m h. absurd (ground arith) }

  pub started_execution-IsValid :
      (i : ExecutionId) (a : CanonicalArguments)
      → (frame i).arguments_digest ≡ digest a
      → IsValid (started_execution i a)
  started_execution-IsValid i a h = record { keyed = h; finished = refl; filed = IsFiled-empty }

  pub start-eq-ok :
      (i : ExecutionId) (a : CanonicalArguments)
      → (frame i).arguments_digest ≡ digest a
      → start i a ≡ ok (started_execution i a)
  unfolding start
  start-eq-ok i a h = (post_init-eq-ok_iff (started_execution i a)).1 (h, refl)

  abbrev pub completed_execution : Execution → SerializedValue → Execution
  completed_execution e r = record e { status = completed; result = some r }

  -- Completing a valid started execution gives it the result, changes nothing else, and leaves
  -- it valid; completing it again raises ValueError.
  pub complete-IsValid :
      (e : Execution) (r : SerializedValue)
      → IsValid e
      → e.status ≡ started
      → (complete e r ≡ ok (completed_execution e r))
        × IsValid (completed_execution e r)
        × ((s : SerializedValue) → complete (completed_execution e r) s ≡ err value_error)
  unfolding complete
  complete-IsValid e r v h =
      (ground arith, record { keyed = v.keyed; finished = refl; filed = v.filed }, λ s. refl)

  -- Setting metadata keeps an execution valid: every entry stays filed once, under its own key.
  pub set_metadata-IsValid :
      (e : Execution) (k : Text) (value : SerializedValue)
      → IsValid e
      → IsValid (set_metadata e k value)
  unfolding set_metadata
  set_metadata-IsValid e k value v = record {
    keyed = v.keyed;
    finished = v.finished;
    filed = record {
      unique = set-IsUnique e.metadata k _ v.filed.unique;
      keyed = λ j m h. ground (
        arith,
        get-set e.metadata k j (record { key = k; value = value }),
        v.filed.keyed j m,
        list_beq_iff k j,
      );
    };
  }
