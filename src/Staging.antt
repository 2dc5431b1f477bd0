-- ===== src/Staging.antt =====
-- packages/glyff/src/glyff/store/staging.py: the stages of open transactions. Stages are objects on
-- a heap, named by numbers; the ContextVar of the running context is the field `open_stage`.
pub mod Lifetime
use glyff.Prelude.{
  ℕ, suc, Bool, true, false, Option, none, some, ◌≡◌, ◌↔◌, if◌then◌else◌, ◌==◌, list_eq, nat_eq,
  option_eq, ◌&&◌, is_some, Eq, arith, [],
}
use glyff.Types.{
  SessionId, ExecutionId, session_id_eq, execution_id_eq, SessionId-beq_iff, execution_id_beq_iff,
}
use glyff.Result.{runtime_error}
use glyff.Exec.{Exec, pure, raise, put, ◌>>=◌, ◌>>◌}
use glyff.Dict
use glyff.Dict.{Dict}
use glyff.Execution.{Execution}
use glyff.Execution.Snapshot.{ExecutionSnapshot, from_execution}

pub record ExecutionKey : Type 0 where
  pub session_id : SessionId
  pub execution_id : ExecutionId

abbrev pub key_beq : ExecutionKey → ExecutionKey → Bool
key_beq a b = (a.session_id == b.session_id) && (a.execution_id == b.execution_id)

pub key_beq_iff : (a b : ExecutionKey) → (key_beq a b ≡ true) ↔ (a ≡ b)
key_beq_iff a b = ground (
  arith,
  SessionId-beq_iff a.session_id b.session_id,
  execution_id_beq_iff a.execution_id b.execution_id,
)

instance abbrev pub key_eq : Eq ExecutionKey
key_eq = record { beq = key_beq; beq_iff = key_beq_iff }

pub data ExecutionMutation : Type 0 where
  save_execution : ExecutionSnapshot → ExecutionMutation
  delete_execution : ExecutionMutation

abbrev pub Batch : Type 0
Batch = Dict ExecutionKey ExecutionMutation

pub record ExecutionStage : Type 0 where
  pub mutations : Batch
  -- `None` while the stage is open
  pub batch : Option Batch

abbrev pub new_stage : ExecutionStage
new_stage = record { mutations = []; batch = none }

pub record ExecutionStaging : Type 0 where
  -- _StageRegistry._open, in the running context
  pub open_stage : Option ℕ
  -- _StageRegistry._tokens: the value that a stage replaced
  pub tokens : ℕ → Option (Option ℕ)
  pub stages : ℕ → ExecutionStage
  -- the next object to be made
  pub next : ℕ

abbrev pub new_staging : ExecutionStaging
new_staging = record { open_stage = none; tokens = λ i. none; stages = λ i. new_stage; next = 0 }

abbrev pub update {ℓ} : {A : Type ℓ} → (ℕ → A) → ℕ → A → ℕ → A
update f i a j = if i == j then a else f j

-- ExecutionStage.closed
abbrev pub closed : ExecutionStage → Bool
closed s = is_some s.batch

-- _StageRegistry.open
abbrev pub live : ExecutionStaging → Option ℕ → Option ℕ
live r none = none
live r (some i) = if closed (r.stages i) then none else some i

unfoldable pub open_of : ExecutionStaging → Option ℕ
open_of r = live r r.open_stage

-- _StageRegistry.enter
unfoldable pub enter : ℕ → Exec ExecutionStaging (Unit {0})
enter i r = put (record r { tokens = update r.tokens i (some r.open_stage); open_stage = some i }) r

abbrev pub restore : ℕ → ExecutionStaging → Option (Option ℕ) → Exec ExecutionStaging (Unit {0})
restore i r none = raise runtime_error
restore i r (some before) = put (record r { open_stage = before; tokens = update r.tokens i none })

-- _StageRegistry.leave
unfoldable pub leave : ℕ → Exec ExecutionStaging (Unit {0})
leave i r = if r.open_stage == some i then restore i r (r.tokens i) r else raise runtime_error r

abbrev pub write : ℕ → ExecutionStage → Exec ExecutionStaging (Unit {0})
write i stage r = put (record r { stages = update r.stages i stage }) r

-- ExecutionStage._require_open, and a write of one key
abbrev pub mutate : ℕ → ExecutionKey → ExecutionMutation → Exec ExecutionStaging (Unit {0})
mutate i key mutation r =
    if closed (r.stages i)
    then raise runtime_error r
    else write i
        (record {
          mutations = Dict.set (r.stages i).mutations key mutation;
          batch = (r.stages i).batch;
        })
        r

-- ExecutionStage.save
unfoldable pub save : ℕ → SessionId → Execution → Exec ExecutionStaging (Unit {0})
save i session_id execution =
    mutate i (record { session_id = session_id; execution_id = execution.id })
      (save_execution (from_execution execution))

-- ExecutionStage.delete
unfoldable pub delete : ℕ → SessionId → ExecutionId → Exec ExecutionStaging (Unit {0})
delete i session_id execution_id =
    mutate i (record { session_id = session_id; execution_id = execution_id }) delete_execution

-- ExecutionStage.lookup
unfoldable pub lookup : ExecutionStaging → ℕ → ExecutionKey → Option ExecutionMutation
lookup r i key = Dict.get (r.stages i).mutations key

-- ExecutionStage.close
unfoldable pub close : ℕ → Exec ExecutionStaging (Unit {0})
unfolding leave
close i = do
  leave i
  λ r.
      write i (record { mutations = (r.stages i).mutations; batch = some (r.stages i).mutations }) r

-- ExecutionStaging.begin
unfoldable pub begin : Exec ExecutionStaging ℕ
unfolding enter
begin r =
    (do enter r.next; pure r.next)
      (record r { stages = update r.stages r.next new_stage; next = suc r.next })

-- ExecutionStaging.require_current
unfoldable pub require_current : Exec ExecutionStaging ℕ
unfolding open_of
require_current r = elim (open_of r) [ none ↦ raise runtime_error r | some i ↦ pure i r ]
