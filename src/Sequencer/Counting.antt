-- ===== src/Sequencer/Counting.antt =====
-- About `next` and `reset_for_call` of packages/glyff/src/glyff/_sequencer.py.
use glyff.Prelude.{
  ℕ, suc, Bool, true, false, Option, none, some, List, [], ◌∷◌, ◌≡◌, refl, arith, if◌then◌else◌,
  ◌==◌, ◌&&◌, option_eq, option_beq_iff, is_some, Bool-cases, inl, inr, beq_refl,
}
use glyff.Types.{
  ExecutionId, DomainId, ExecutionName, ArgumentsDigest, ExecutionSequenceScope, scope_eq,
  execution_id_eq, scope_beq_iff,
}
use glyff.Result.{ok}
use glyff.Dict
use glyff.Dict.{Dict}
use glyff.Dict.Laws.{IsUnique, get-set, get-set_self, get-pop, set-IsUnique, pop-IsUnique}
use glyff.Sequencer.{
  Sequencer, counter, next, next_in, keys_below, forget, forget_all, reset_for_call,
}

-- Every scope that is counted has a lock, and is counted once.
pub record IsConsistent (s : Sequencer) : Type 0 where
  pub locked :
      (k : ExecutionSequenceScope)
      → is_some (Dict.get s.counters k) ≡ true
      → is_some (Dict.get s.locks k) ≡ true
  pub unique : IsUnique s.counters

-- The sequencer once a scope has been counted.
abbrev pub counted : Sequencer → ExecutionSequenceScope → Sequencer
counted s key = record {
  locks = if is_some (Dict.get s.locks key) then s.locks else Dict.set s.locks key tt;
  counters = Dict.set s.counters key (suc (counter s key));
}

next-counted :
    (s : Sequencer) (key : ExecutionSequenceScope)
    → next_in key s ≡ (ok (counter s key), counted s key)
unfolding next_in
next-counted s key = elim (Bool-cases (is_some (Dict.get s.locks key))) [
  | inl held ↦ rw held (rw held refl)
  | inr fresh ↦ rw fresh (rw (get-set_self s.locks key tt) refl)
]

counter-counted :
    (s : Sequencer) (key k : ExecutionSequenceScope)
    → counter (counted s key) k ≡ (if key == k then suc (counter s k) else counter s k)
unfolding counter
counter-counted s key k =
    ground (arith, get-set s.counters key k (suc (counter s key)), scope_beq_iff key k)

-- `next` returns the ordinal of its scope, counts that scope up by one, and leaves every other
-- scope alone.
pub next_lem :
    (s : Sequencer) (key : ExecutionSequenceScope)
    → ((next key.parent_id key.domain_id key.name key.arguments_digest s).0 ≡ ok (counter s key))
      × ((k : ExecutionSequenceScope)
          → counter (next key.parent_id key.domain_id key.name key.arguments_digest s).1 k
            ≡ (if key == k then suc (counter s k) else counter s k))
unfolding next
next_lem s key = rw (next-counted s key) (refl, counter-counted s key)

counted-IsConsistent :
    (s : Sequencer) (key : ExecutionSequenceScope) → IsConsistent s → IsConsistent (counted s key)
counted-IsConsistent s key c = record {
  locked = λ k h. ground (
    arith,
    get-set s.counters key k (suc (counter s key)),
    get-set s.locks key k tt,
    c.locked k,
    scope_beq_iff key k,
  );
  unique = set-IsUnique s.counters key (suc (counter s key)) c.unique;
}

-- A sequencer in which every counted scope has a lock and is counted once is such a one after
-- `next`.
pub next-IsConsistent :
    (s : Sequencer) (parent : Option ExecutionId) (d : DomainId) (n : ExecutionName)
    (a : ArgumentsDigest)
    → IsConsistent s
    → IsConsistent (next parent d n a s).1
unfolding next
next-IsConsistent s parent d n a c =
    let key : ExecutionSequenceScope = record {
      parent_id = parent;
      domain_id = d;
      name = n;
      arguments_digest = a;
    } in
    rw (next-counted s key) (counted-IsConsistent s key c)

mem_key : ExecutionSequenceScope → List ExecutionSequenceScope → Bool
mem_key k [] = false
mem_key k (j ∷ ks) = if j == k then true else mem_key k ks

abbrev Distinct : List ExecutionSequenceScope → Type 0
Distinct [] = Unit
Distinct (k ∷ ks) = (mem_key k ks ≡ false) × Distinct ks

mem-keys_below :
    (e : ExecutionId) (d : Dict ExecutionSequenceScope ℕ) (k : ExecutionSequenceScope)
    → mem_key k (keys_below e d) ≡ (is_some (Dict.get d k) && (k.parent_id == some e))
unfolding keys_below mem_key Dict.get
mem-keys_below e [] k = refl
mem-keys_below e ((j, n) ∷ d) k = ground (
  arith,
  mem-keys_below e d k,
  scope_beq_iff j k,
  option_beq_iff k.parent_id (some e),
  option_beq_iff j.parent_id (some e),
)

keys_below-Distinct :
    (e : ExecutionId) (d : Dict ExecutionSequenceScope ℕ) → IsUnique d → Distinct (keys_below e d)
unfolding keys_below
keys_below-Distinct e [] u = tt
keys_below-Distinct e ((j, n) ∷ d) u = elim (Bool-cases (j.parent_id == some e)) [
  | inl below ↦ rw below (ground (arith, mem-keys_below e d j, u.0), keys_below-Distinct e d u.1)
  | inr other ↦ rw other (keys_below-Distinct e d u.1)
]

abbrev forgotten : Sequencer → ExecutionSequenceScope → Sequencer
forgotten s k = record { locks = Dict.pop s.locks k; counters = Dict.pop s.counters k }

forget-forgotten :
    (s : Sequencer) (k : ExecutionSequenceScope)
    → IsConsistent s
    → is_some (Dict.get s.counters k) ≡ true
    → forget k s ≡ (ok tt, forgotten s k)
forget-forgotten s k c h = rw h (rw (c.locked k h) refl)

forgotten-IsConsistent :
    (s : Sequencer) (k : ExecutionSequenceScope) → IsConsistent s → IsConsistent (forgotten s k)
forgotten-IsConsistent s k c = record {
  locked = λ j h. ground (arith, get-pop s.counters k j, get-pop s.locks k j, c.locked j);
  unique = pop-IsUnique s.counters k c.unique;
}

forget_all_lem :
    (ks : List ExecutionSequenceScope) (s : Sequencer)
    → IsConsistent s
    → Distinct ks
    → ((k : ExecutionSequenceScope) → mem_key k ks ≡ true → is_some (Dict.get s.counters k) ≡ true)
    → (s' : Sequencer) × (forget_all ks s ≡ (ok tt, s'))
      × IsConsistent s'
      × ((k : ExecutionSequenceScope)
          → Dict.get s'.counters k ≡ (if mem_key k ks then none else Dict.get s.counters k))
unfolding forget_all mem_key
forget_all_lem [] s c d h = (s, refl, c, λ k. refl)
forget_all_lem (j ∷ ks) s c d h =
    let (s', done, c', left) =
      forget_all_lem ks (forgotten s j) (forgotten-IsConsistent s j c) d.1
        (λ k m. ground (arith, h k, get-pop s.counters j k, scope_beq_iff j k, d.0)) in
    (
      s',
      rw (forget-forgotten s j c (h j (rw (beq_refl j) refl))) done,
      c',
      λ k. ground (arith, left k, get-pop s.counters j k),
    )

-- On a sequencer in which every counted scope has a lock and is counted once, `reset_for_call`
-- does not raise, keeps that so, restarts the scopes of the call's children at 0, and leaves
-- every other scope alone.
pub reset_for_call_lem :
    (s : Sequencer) (e : ExecutionId)
    → IsConsistent s
    → ((reset_for_call e s).0 ≡ ok tt)
      × IsConsistent (reset_for_call e s).1
      × ((k : ExecutionSequenceScope)
          → counter (reset_for_call e s).1 k ≡ (if k.parent_id == some e then 0 else counter s k))
unfolding reset_for_call counter
reset_for_call_lem s e c =
    let (s', done, c', left) =
      forget_all_lem (keys_below e s.counters) s c (keys_below-Distinct e s.counters c.unique)
        (λ k m. ground (arith, mem-keys_below e s.counters k)) in
    rw done (refl, c', λ k. ground (arith, left k, mem-keys_below e s.counters k))
