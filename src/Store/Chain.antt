-- ===== src/Store/Chain.antt =====
-- When the heap of stages and transactions holds a list of open transactions, innermost first:
-- the context has the innermost stage, and each stage gives back the next one.
use glyff.Prelude.{ℕ, ◌<◌, ◌≤◌, false, Option, none, some, List, [], ◌∷◌, ◌≡◌, arith, ◌∙◌, nat_eq}
use native.Mathlib.Nat.{le_trans}
use glyff.Dict.Laws.{IsUnique}
use glyff.Staging.{ExecutionStage, Batch, key_eq}
use glyff.Store.{Transaction}

abbrev pub open_stage_of : Batch → ExecutionStage
open_stage_of m = record { mutations = m; batch = none }

abbrev pub open_transaction : ℕ → Transaction
open_transaction i = record { stage = some i; closed = false }

lt_trans : {a b c : ℕ} → a < b → b < c → a < c
lt_trans p q = omega arith

-- One open transaction: its stage, what the stage replaced, and the two objects.
pub record IsOpen (stages : ℕ → ExecutionStage) (tokens : ℕ → Option (Option ℕ))
    (transactions : ℕ → Transaction) (context : Option ℕ) (t_bound i_bound t : ℕ) (m : Batch)
    (i : ℕ) (before : Option ℕ) : Type 0 where
  pub current : context ≡ some i
  pub t_lt : t < t_bound
  pub i_lt : i < i_bound
  pub stage : stages i ≡ open_stage_of m
  pub token : tokens i ≡ some before
  pub transaction : transactions t ≡ open_transaction i
  pub unique : IsUnique m

module _ (stages : ℕ → ExecutionStage) (tokens : ℕ → Option (Option ℕ))
    (transactions : ℕ → Transaction) where
  abbrev pub Chain : Option ℕ → ℕ → ℕ → List (ℕ × Batch) → Type 0
  Chain context tb ib [] = context ≡ none
  Chain context tb ib ((t, m) ∷ fs) =
      (i : ℕ) × (before : Option ℕ) × IsOpen stages tokens transactions context tb ib t m i before
      × Chain before t i fs

-- Only the objects below the bounds matter.
module _ {stages stages' : ℕ → ExecutionStage} {tokens tokens' : ℕ → Option (Option ℕ)}
    {transactions transactions' : ℕ → Transaction} where
  pub Chain-frame :
      (context : Option ℕ) (tb ib : ℕ) (fs : List (ℕ × Batch))
      → ((i : ℕ) → i < ib → stages' i ≡ stages i)
      → ((i : ℕ) → i < ib → tokens' i ≡ tokens i)
      → ((t : ℕ) → t < tb → transactions' t ≡ transactions t)
      → Chain stages tokens transactions context tb ib fs
      → Chain stages' tokens' transactions' context tb ib fs
  Chain-frame context tb ib [] hs hk ht c = c
  Chain-frame context tb ib ((t, m) ∷ fs) hs hk ht (i, before, o, rest) = (
    i,
    before,
    record {
      current = o.current;
      t_lt = o.t_lt;
      i_lt = o.i_lt;
      stage = hs i o.i_lt ∙ o.stage;
      token = hk i o.i_lt ∙ o.token;
      transaction = ht t o.t_lt ∙ o.transaction;
      unique = o.unique;
    },
    Chain-frame before t i fs (λ j h. hs j (lt_trans h o.i_lt)) (λ j h. hk j (lt_trans h o.i_lt))
        (λ j h. ht j (lt_trans h o.t_lt)) rest,
  )

-- Larger bounds do no harm.
pub Chain-weaken :
    (stages : ℕ → ExecutionStage) (tokens : ℕ → Option (Option ℕ)) (transactions : ℕ → Transaction)
    (context : Option ℕ) (tb ib tb' ib' : ℕ) (fs : List (ℕ × Batch))
    → tb ≤ tb'
    → ib ≤ ib'
    → Chain stages tokens transactions context tb ib fs
    → Chain stages tokens transactions context tb' ib' fs
Chain-weaken stages tokens transactions context tb ib tb' ib' [] ht hi c = c
Chain-weaken stages tokens transactions context tb ib tb' ib' ((t, m) ∷ fs) ht hi
      (i, before, o, rest) =
    (
      i,
      before,
      record {
        current = o.current;
        t_lt = le_trans o.t_lt ht;
        i_lt = le_trans o.i_lt hi;
        stage = o.stage;
        token = o.token;
        transaction = o.transaction;
        unique = o.unique;
      },
      rest,
    )
