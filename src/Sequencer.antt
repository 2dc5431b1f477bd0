-- ===== src/Sequencer.antt =====
-- packages/glyff/src/glyff/_sequencer.py: ordinals within a scope.
pub mod Counting
use glyff.Prelude.{
  ℕ, suc, Bool, true, false, Option, none, some, List, [], ◌∷◌, if◌then◌else◌, ◌==◌, option_eq,
}
use glyff.Types.{
  ExecutionId, DomainId, ExecutionName, ArgumentsDigest, ExecutionSequenceScope, scope_eq,
  execution_id_eq,
}
use glyff.Result.{Result, ok, err, key_error}
use glyff.Exec.{Exec, pure, raise, put, ◌>>=◌, ◌>>◌}
use glyff.Dict
use glyff.Dict.{Dict}

-- `_locks` holds a lock for each scope that has one. Within one task no lock is ever waited for.
pub record Sequencer : Type 0 where
  pub locks : Dict ExecutionSequenceScope (Unit {0})
  pub counters : Dict ExecutionSequenceScope ℕ

abbrev pub new_sequencer : Sequencer
new_sequencer = record { locks = []; counters = [] }

-- a `defaultdict(int)`
abbrev pub count_or_zero : Option ℕ → ℕ
count_or_zero none = 0
count_or_zero (some n) = n

-- what the next call in a scope is numbered
unfoldable pub counter : Sequencer → ExecutionSequenceScope → ℕ
counter s key = count_or_zero (Dict.get s.counters key)

abbrev pub ensure_lock : ExecutionSequenceScope → Exec Sequencer (Unit {0})
ensure_lock key s =
    if Dict.has s.locks key then pure tt s else put (record s { locks = Dict.set s.locks key tt }) s

-- self._locks[key]
abbrev pub take_lock : ExecutionSequenceScope → Exec Sequencer (Unit {0})
take_lock key s = if Dict.has s.locks key then pure tt s else raise key_error s

abbrev pub increment : ExecutionSequenceScope → Exec Sequencer ℕ
increment key s =
    (ok (counter s key), record s { counters = Dict.set s.counters key (suc (counter s key)) })

-- Sequencer.next, once its key is made
unfoldable pub next_in : ExecutionSequenceScope → Exec Sequencer ℕ
unfolding counter
next_in key = do ensure_lock key; take_lock key; increment key

-- Sequencer.next
unfoldable pub next :
    Option ExecutionId → DomainId → ExecutionName → ArgumentsDigest → Exec Sequencer ℕ
unfolding next_in
next parent domain_id name arguments_digest = next_in (record {
  parent_id = parent;
  domain_id = domain_id;
  name = name;
  arguments_digest = arguments_digest;
})

-- keys_to_reset
unfoldable pub keys_below :
    ExecutionId → Dict ExecutionSequenceScope ℕ → List ExecutionSequenceScope
keys_below execution_id [] = []
keys_below execution_id ((key, n) ∷ d) =
    let rest = keys_below execution_id d in
    if key.parent_id == some execution_id then key ∷ rest else rest

-- del d[key]
abbrev pub forget : ExecutionSequenceScope → Exec Sequencer (Unit {0})
forget key s =
    if Dict.has s.counters key
    then (if Dict.has s.locks key
        then put (record { locks = Dict.pop s.locks key; counters = Dict.pop s.counters key }) s
        else raise key_error (record s { counters = Dict.pop s.counters key }))
    else raise key_error s

unfoldable pub forget_all : List ExecutionSequenceScope → Exec Sequencer (Unit {0})
forget_all [] = pure tt
forget_all (key ∷ keys) = do forget key; forget_all keys

-- Sequencer.reset_for_call
unfoldable pub reset_for_call : ExecutionId → Exec Sequencer (Unit {0})
unfolding keys_below forget_all
reset_for_call execution_id s = forget_all (keys_below execution_id s.counters) s
