-- ===== src/Store/Laws.antt =====
-- What the shared operations do to a heap that holds a chain of open transactions.
use glyff.Prelude.{
  ℕ, suc, ◌<◌, true, Option, none, some, List, [], ◌∷◌, ◌≡◌, refl, arith, nat_eq, option_eq,
  nat_beq_iff, ◌∙◌,
}
use glyff.Types.{SessionId}
use glyff.Result.{ok, err, runtime_error}
use glyff.Exec.{Exec}
use glyff.Dict
use glyff.Dict.Laws.{IsUnique}
use glyff.Execution.{Execution}
use glyff.Execution.Snapshot.{from_execution}
use glyff.Staging
use glyff.Staging.{
  ExecutionStaging, ExecutionStage, Batch, key_eq, update, save_execution, new_stage,
}
use glyff.Staging.Lifetime.{after_close, close-after_close}
use glyff.Backend.{key_of}
use glyff.Store
use glyff.Store.{Store, Transaction}
use glyff.Store.Chain.{Chain, open_transaction, open_stage_of, Chain-frame, Chain-weaken}

pub update_other {ℓ} : {A : Type ℓ} (f : ℕ → A) (i j : ℕ) (a : A) → j < i → update f i a j ≡ f j
update_other f i j a h = ground (arith, nat_beq_iff i j)

pub update_same {ℓ} : {A : Type ℓ} (f : ℕ → A) (i : ℕ) (a : A) → update f i a i ≡ a
update_same f i a = ground (arith, nat_beq_iff i i)

module _ {C : Type 0} where
  -- The heap of `s` holds the open transactions `fs`.
  abbrev pub Holds : Store C → List (ℕ × Batch) → Type 0
  Holds s fs =
      Chain s.staging.stages s.staging.tokens s.transactions s.staging.open_stage s.next_transaction
        s.staging.next fs

  -- The stage that a repository finds is the innermost one.
  pub open_of-Holds :
      (s : Store C) (t : ℕ) (m : Batch) (fs : List (ℕ × Batch)) (h : Holds s ((t, m) ∷ fs))
      → Staging.open_of s.staging ≡ some h.0
  unfolding Staging.open_of
  open_of-Holds s t m fs (i, before, o, rest) = ground (arith, o.current, o.stage)

  pub open_of-empty : (s : Store C) → Holds s [] → Staging.open_of s.staging ≡ none
  unfolding Staging.open_of
  open_of-empty s h = ground (arith, h)

  -- begin_transaction
  abbrev pub begun : Store C → Store C
  begun s = record s {
    staging = record {
      open_stage = some s.staging.next;
      tokens = update s.staging.tokens s.staging.next (some s.staging.open_stage);
      stages = update s.staging.stages s.staging.next new_stage;
      next = suc s.staging.next;
    };
    transactions =
        update (update s.transactions s.next_transaction Store.new_transaction) s.next_transaction
          (open_transaction s.staging.next);
    next_transaction = suc s.next_transaction;
  }

  pub begin-begun : (s : Store C) → Store.begin_transaction s ≡ (ok s.next_transaction, begun s)
  unfolding Store.begin_transaction Staging.begin
  begin-begun s = refl

  pub begin-Holds :
      (s : Store C) (fs : List (ℕ × Batch))
      → Holds s fs
      → Holds (begun s) ((s.next_transaction, []) ∷ fs)
  begin-Holds s fs h =
      let i = s.staging.next in
      let t = s.next_transaction in
      (
        i,
        s.staging.open_stage,
        record {
          current = refl;
          t_lt = omega arith;
          i_lt = omega arith;
          stage = update_same s.staging.stages i new_stage;
          token = update_same s.staging.tokens i (some s.staging.open_stage);
          transaction =
              update_same (update s.transactions t Store.new_transaction) t (open_transaction i);
          unique = tt;
        },
        Chain-frame s.staging.open_stage t i fs
            (λ j q. update_other s.staging.stages i j new_stage q)
            (λ j q. update_other s.staging.tokens i j (some s.staging.open_stage) q)
            (λ j q.
              update_other (update s.transactions t Store.new_transaction) t j (open_transaction i)
                q
              ∙ update_other s.transactions t j Store.new_transaction q)
            h,
      )

  -- save, inside a transaction
  abbrev pub saved : Store C → ℕ → Batch → Store C
  saved s i m = record s {
    staging = record (s.staging) { stages = update s.staging.stages i (open_stage_of m) };
  }

  pub save-saved :
      (s : Store C) (sid : SessionId) (e : Execution) (t : ℕ) (m : Batch) (fs : List (ℕ × Batch))
      (h : Holds s ((t, m) ∷ fs))
      → Store.save sid e s
        ≡ (ok tt, saved s h.0 (Dict.set m (key_of sid e.id) (save_execution (from_execution e))))
  unfolding Store.save Staging.require_current Staging.save
  save-saved s sid e t m fs (i, before, o, rest) = ground (arith, o.current, o.stage)

  pub save-outside :
      (s : Store C) (sid : SessionId) (e : Execution)
      → Holds s []
      → Store.save sid e s ≡ (err runtime_error, s)
  unfolding Store.save Staging.require_current
  save-outside s sid e h = ground (arith, h)

  pub save-Holds :
      (s : Store C) (t : ℕ) (m m' : Batch) (fs : List (ℕ × Batch)) (h : Holds s ((t, m) ∷ fs))
      → IsUnique m'
      → Holds (saved s h.0 m') ((t, m') ∷ fs)
  save-Holds s t m m' fs (i, before, o, rest) u = (
    i,
    before,
    record {
      current = o.current;
      t_lt = o.t_lt;
      i_lt = o.i_lt;
      stage = update_same s.staging.stages i (open_stage_of m');
      token = o.token;
      transaction = o.transaction;
      unique = u;
    },
    Chain-frame before t i fs (λ j q. update_other s.staging.stages i j (open_stage_of m') q)
        (λ j q. refl) (λ j q. refl) rest,
  )

  -- The end of a transaction, before the client hears of it.
  abbrev pub ended : Store C → ℕ → ℕ → Option ℕ → Store C
  ended s t i before = record s {
    staging = after_close s.staging i before;
    transactions = update s.transactions t (record { stage = some i; closed = true });
  }

  pub ended-Holds :
      (s : Store C) (t : ℕ) (m : Batch) (fs : List (ℕ × Batch)) (h : Holds s ((t, m) ∷ fs))
      → Holds (ended s t h.0 h.1) fs
  ended-Holds s t m fs (i, before, o, rest) =
      Chain-weaken _ _ _ before t i s.next_transaction s.staging.next fs (omega (arith, o.t_lt))
        (omega (arith, o.i_lt))
        (Chain-frame before t i fs (λ j q. update_other s.staging.stages i j _ q)
          (λ j q. update_other s.staging.tokens i j none q)
          (λ j q. update_other s.transactions t j _ q) rest)

  pub rollback-ended :
      (s : Store C) (t : ℕ) (m : Batch) (fs : List (ℕ × Batch)) (h : Holds s ((t, m) ∷ fs))
      → Store.rollback t s ≡ (ok tt, ended s t h.0 h.1)
  unfolding Store.rollback
  rollback-ended s t m fs (i, before, o, rest) =
      rw (o.transaction) (ground (arith, close-after_close s.staging i before o.current o.token))

  pub commit-ended :
      (commit_mutations : Batch → Exec C (Unit {0})) (s : Store C) (t : ℕ) (m : Batch)
      (fs : List (ℕ × Batch)) (h : Holds s ((t, m) ∷ fs))
      → Store.commit commit_mutations t s ≡ Store.in_client (commit_mutations m) (ended s t h.0 h.1)
  unfolding Store.commit
  commit-ended commit_mutations s t m fs (i, before, o, rest) = rw (o.transaction) (
      ground (
        arith,
        close-after_close s.staging i before o.current o.token,
        o.stage,
        update_same s.staging.stages i (record { mutations = m; batch = some m }),
      ))
