-- ===== src/Staging/Lifetime.antt =====
-- What closing a stage does.
use glyff.Prelude.{
  ℕ, Option, none, some, ◌≡◌, refl, arith, nat_eq, option_eq, nat_beq_iff, option_beq_iff,
}
use glyff.Result.{ok, err, runtime_error}
use glyff.Types.{SessionId}
use glyff.Execution.{Execution}
use glyff.Staging.{update, ExecutionStaging, close, save}

-- The registry and the heap once stage `i` is closed.
abbrev pub after_close : ExecutionStaging → ℕ → Option ℕ → ExecutionStaging
after_close r i before = record r {
  open_stage = before;
  tokens = update r.tokens i none;
  stages =
      update r.stages i
        (record { mutations = (r.stages i).mutations; batch = some (r.stages i).mutations });
}

pub close-after_close :
    (r : ExecutionStaging) (i : ℕ) (before : Option ℕ)
    → r.open_stage ≡ some i
    → r.tokens i ≡ some before
    → close i r ≡ (ok tt, after_close r i before)
unfolding close
close-after_close r i before h t = ground (arith, option_beq_iff r.open_stage (some i))

-- Closing the stage that the context holds, with the token of the one before, makes its batch
-- final and gives the one before back; closing it again and saving into it raise RuntimeError.
pub close_lem :
    (r : ExecutionStaging) (i : ℕ) (before : Option ℕ)
    → r.open_stage ≡ some i
    → r.tokens i ≡ some before
    → ((close i r).0 ≡ ok tt)
      × (((close i r).1).open_stage ≡ before)
      × ((((close i r).1).stages i).batch ≡ some (r.stages i).mutations)
      × ((close i (close i r).1).0 ≡ err runtime_error)
      × ((session_id : SessionId) (e : Execution)
          → (save i session_id e (close i r).1).0 ≡ err runtime_error)
unfolding close save
close_lem r i before h t = rw (close-after_close r i before h t) (
  refl,
  refl,
  ground (arith, nat_beq_iff i i),
  ground (arith, nat_beq_iff i i, option_beq_iff before (some i)),
  λ s e. ground (arith, nat_beq_iff i i),
)
