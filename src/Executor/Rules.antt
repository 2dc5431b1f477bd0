-- ===== src/Executor/Rules.antt =====
-- How balanced actions are built.
use glyff.Prelude.{ℕ, Bool, true, false, List, [], ◌∷◌, ◌++◌, ◌≡◌, refl, ◌∙◌, ap, if◌then◌else◌}
use glyff.Types.{SessionId, ExecutionId}
use glyff.Result.{Result, ok, err}
use glyff.Exec.{Exec, lift, settle, continue, ◌>>=◌, ◌>>◌}
use glyff.Json.{Platform}
use glyff.Dict
use glyff.Execution.{Execution}
use glyff.Execution.Snapshot.{from_execution}
use glyff.Staging.{Batch, save_execution, key_eq}
use glyff.Backend.{Backend, View, Contract, key_of}
use glyff.Sequencer.{Sequencer}
use glyff.Session.{Context, in_store, in_sequencer}
use glyff.Session.Tracer
use glyff.Session.Scope.{within, new_scope, aenter, is_raised}
use glyff.Executor.Balance.{
  Balanced, SameFrames, SameFrames-refl, SameFrames-trans, enter_lem, exit_lem, innermost, ended,
  open_scope,
}

module _ ⦃p : Platform⦄ {S : Type 0} (b : Backend S) (contract : Contract b) where
  open contract use {Models}

  module _ {A : Type 0} where
    pub Balanced-lift : (r : Result A) → Balanced b contract (lift {S = Context S} r)
    Balanced-lift r = record { at = λ c v h. (v, h, SameFrames-refl v.frames, refl) }

    pub Balanced-sequencer : (m : Exec Sequencer A) → Balanced b contract (in_sequencer m)
    Balanced-sequencer m = record { at = λ c v h. (v, h, SameFrames-refl v.frames, refl) }

  pub Balanced-get :
      (sid : SessionId) (e : ExecutionId) → Balanced b contract (in_store (b.get sid e))
  Balanced-get sid e = record {
    at = λ c v h. (v, rw (contract.get_lem c.store v sid e h) h, SameFrames-refl v.frames, refl);
  }

  save_at :
      (sid : SessionId) (e : Execution) (c : Context S) (v : View) (fs : List (ℕ × Batch))
      → Models c.store v
      → v.frames ≡ fs
      → (v' : View) × Models ((in_store (b.save sid e) c).1).store v' × SameFrames fs v'.frames
  save_at sid e c v [] h q = (v, rw (contract.save_outside c.store v sid e h q) h, rw q tt)
  save_at sid e c v ((t, m) ∷ fs) h q =
      let (s', done, k) = contract.save_staged c.store v sid e t m fs h q in
      (
        record v {
          frames = (t, Dict.set m (key_of sid e.id) (save_execution (from_execution e))) ∷ fs;
        },
        rw done k,
        (refl, refl),
      )

  pub Balanced-save :
      (sid : SessionId) (e : Execution) → Balanced b contract (in_store (b.save sid e))
  Balanced-save sid e = record {
    at = λ c v h. let (v', k, same) = save_at sid e c v v.frames h refl in (v', k, same, refl);
  }

  module _ {A B : Type 0} where
    pub Balanced-settle :
        (m : Exec (Context S) A) (f : Result A → Exec (Context S) B)
        → Balanced b contract m
        → ((r : Result A) → Balanced b contract (f r))
        → Balanced b contract (settle m f)
    Balanced-settle m f km kf = record {
      at = λ c v h.
          let (v1, h1, s1, k1) = km.at c v h in
          let (v2, h2, s2, k2) = (kf (m c).0).at (m c).1 v1 h1 in
          (v2, h2, SameFrames-trans v.frames v1.frames v2.frames s1 s2, k2 ∙ k1);
    }

    Balanced-continue :
        (f : A → Exec (Context S) B)
        → ((a : A) → Balanced b contract (f a))
        → (r : Result A) → Balanced b contract (continue r f)
    Balanced-continue f kf (ok a) = record { at = (kf a).at }
    Balanced-continue f kf (err e) = record { at = λ c v h. (v, h, SameFrames-refl v.frames, refl) }

    pub Balanced-bind :
        (m : Exec (Context S) A) (f : A → Exec (Context S) B)
        → Balanced b contract m
        → ((a : A) → Balanced b contract (f a))
        → Balanced b contract (m >>= f)
    Balanced-bind m f km kf = record {
      at = (Balanced-settle m (λ r. continue r f) km (Balanced-continue f kf)).at;
    }

  module _ {A : Type 0} where
    -- A transaction around an action: what the store holds after the action, and after the end.
    pub within_lem :
        (body : Exec (Context S) A) (c : Context S) (v : View)
        → Balanced b contract body
        → Models c.store v
        → (t : ℕ) × (s : S) × (m : Batch) × (v' : View) × (s' : S) × (aenter b new_scope c
            ≡ (ok (open_scope t), record c { store = s }))
          × Models s (record v { frames = (t, []) ∷ v.frames })
          × Models ((body (record c { store = s })).1).store v'
          × (v'.frames ≡ (t, m) ∷ v.frames)
          × (((body (record c { store = s })).1).stack ≡ c.stack)
          × (within b body c ≡ (
            (body (record c { store = s })).0,
            record ((body (record c { store = s })).1) { store = s' },
          ))
          × Models s' (ended (is_raised b (body (record c { store = s })).0) v' m v.frames)
    unfolding within
    within_lem body c v k h =
        let (t, s, e, open_view) = enter_lem b contract c v h in
        let after = body (record c { store = s }) in
        let (v', h', same, stack) =
          k.at (record c { store = s }) (record v { frames = (t, []) ∷ v.frames }) open_view in
        let (m, frames) = innermost b contract t v.frames v'.frames same in
        let (s', x, h'') =
          exit_lem b contract after.1 v' t m v.frames (is_raised b after.0) h' frames in
        (t, s, m, v', s', e, open_view, h', frames, stack, rw e (rw x refl), h'')

    pub Balanced-within :
        (body : Exec (Context S) A) → Balanced b contract body → Balanced b contract (within b body)
    Balanced-within body k = record {
      at = λ c v h.
          let (t, s, m, v', s', e, ov, h', frames, stack, run, h'') = within_lem body c v k h in
          (
            ended (is_raised b (body (record c { store = s })).0) v' m v.frames,
            rw run h'',
            ended_frames (is_raised b (body (record c { store = s })).0) v' m v.frames,
            rw run stack,
          );
    }
      where
        ended_frames :
            (raised : Bool) (x : View) (n : Batch) (fs : List (ℕ × Batch))
            → SameFrames fs ((ended raised x n fs).frames)
        ended_frames true x n fs = SameFrames-refl fs
        ended_frames false x n fs = SameFrames-refl fs

    pub Balanced-if :
        (test : Bool) (m n : Exec (Context S) A)
        → Balanced b contract m
        → Balanced b contract n
        → Balanced b contract (if test then m else n)
    Balanced-if true m n k l = k
    Balanced-if false m n k l = l

    -- A frame on the call stack around an action.
    pub Balanced-traced :
        (e : ExecutionId) (body : Exec (Context S) A)
        → Balanced b contract body
        → Balanced b contract (do Tracer.start e; settle body (λ r. do Tracer.end; lift r))
    unfolding Tracer.start Tracer.end
    Balanced-traced e body k = record {
      at = λ c v h.
          let pushed = record c { stack = c.stack ++ e ∷ [] } in
          let (v', h', same, stack) = k.at pushed v h in
          (v', h', same, ap Tracer.but_last stack ∙ Tracer.but_last-snoc c.stack e);
    }
