-- ===== src/Events/Delivery.antt =====
-- To whom an event is delivered, and what becomes of a handler's exception.
use glyff.Prelude.{
  Bool, true, false, ◌||◌, List, [], ◌∷◌, ◌++◌, ◌≡◌, refl, arith, if◌then◌else◌, ◌==◌, nat_eq,
  nat_beq_iff, Bool-cases, inl, inr,
}
use glyff.Result.{Result, ok, err, is_exception}
use glyff.Dict
use glyff.Events.{
  Event, EventType, EventHandler, HandlerMap, handlers_of, event_type_eq, is_seen, add_unseen,
  handlers_to_run, run_handlers, emit, mro, swallow,
}

-- No exception, or one that derives from `Exception`.
abbrev pub is_ordinary : Result (Unit {0}) → Bool
is_ordinary (ok u) = true
is_ordinary (err e) = is_exception e

module _ {W : Type 0} where
  -- No handler stands in the list twice.
  abbrev pub AreDistinct : List (EventHandler W) → Type 0
  AreDistinct [] = Unit
  AreDistinct (h ∷ hs) = (is_seen h hs ≡ false) × AreDistinct hs

  pub is_seen-snoc :
      (h x : EventHandler W) (hs : List (EventHandler W))
      → is_seen h (hs ++ x ∷ []) ≡ (if x.identity == h.identity then true else is_seen h hs)
  unfolding is_seen
  is_seen-snoc h x [] = refl
  is_seen-snoc h x (y ∷ hs) = ground (arith, is_seen-snoc h x hs)

  AreDistinct-snoc :
      (x : EventHandler W) (hs : List (EventHandler W))
      → AreDistinct hs
      → is_seen x hs ≡ false
      → AreDistinct (hs ++ x ∷ [])
  unfolding is_seen
  AreDistinct-snoc x [] d new = (refl, tt)
  AreDistinct-snoc x (h ∷ hs) d new = (
    ground (
      arith,
      is_seen-snoc h x hs,
      d.0,
      nat_beq_iff x.identity h.identity,
      nat_beq_iff h.identity x.identity,
    ),
    AreDistinct-snoc x hs d.1 (ground arith),
  )

  AreDistinct-add_unseen :
      (to_run hs : List (EventHandler W)) → AreDistinct to_run → AreDistinct (add_unseen to_run hs)
  unfolding add_unseen
  AreDistinct-add_unseen to_run [] d = d
  AreDistinct-add_unseen to_run (h ∷ hs) d = elim (Bool-cases (is_seen h to_run)) [
    | inl seen ↦ rw seen (AreDistinct-add_unseen to_run hs d)
    | inr new ↦
        rw new (AreDistinct-add_unseen (to_run ++ h ∷ []) hs (AreDistinct-snoc h to_run d new))
  ]

  -- Handlers with the same identity are seen together.
  is_seen-same :
      (x h : EventHandler W) (hs : List (EventHandler W))
      → x.identity ≡ h.identity
      → is_seen x hs ≡ is_seen h hs
  unfolding is_seen
  is_seen-same x h [] same = refl
  is_seen-same x h (y ∷ hs) same = rw same (rw (is_seen-same x h hs same) refl)

  is_seen-add_unseen :
      (h : EventHandler W) (to_run hs : List (EventHandler W))
      → is_seen h (add_unseen to_run hs) ≡ (is_seen h to_run || is_seen h hs)
  unfolding is_seen add_unseen
  is_seen-add_unseen h to_run [] = ground arith
  is_seen-add_unseen h to_run (x ∷ hs) = elim (Bool-cases (is_seen x to_run)) [
    | inl seen ↦ elim (Bool-cases (x.identity == h.identity)) [
      | inl same ↦
          let known : is_seen h to_run ≡ true =
            ground
              (arith, seen, is_seen-same x h to_run ((nat_beq_iff x.identity h.identity).0 same)) in
          rw (seen, is_seen-add_unseen h to_run hs, known) refl
      | inr other ↦ rw (seen, is_seen-add_unseen h to_run hs, other) refl
    ]
    | inr new ↦
        rw (new, is_seen-add_unseen h (to_run ++ x ∷ []) hs, is_seen-snoc h x to_run) (ground arith)
  ]

  -- The handler is registered for one of the classes.
  abbrev pub is_registered : HandlerMap W → EventHandler W → List EventType → Bool
  is_registered m h [] = false
  is_registered m h (t ∷ ts) = is_seen h (handlers_of (Dict.get m t)) || is_registered m h ts

  distinct_from :
      (m : HandlerMap W) (ts : List EventType) (to_run : List (EventHandler W))
      → AreDistinct to_run
      → AreDistinct (handlers_to_run m ts to_run)
  unfolding handlers_to_run
  distinct_from m [] to_run d = d
  distinct_from m (t ∷ ts) to_run d =
      distinct_from m ts (add_unseen to_run (handlers_of (Dict.get m t)))
        (AreDistinct-add_unseen to_run (handlers_of (Dict.get m t)) d)

  is_seen-handlers_to_run :
      (m : HandlerMap W) (h : EventHandler W) (ts : List EventType) (to_run : List (EventHandler W))
      → is_seen h (handlers_to_run m ts to_run) ≡ (is_seen h to_run || is_registered m h ts)
  unfolding handlers_to_run
  is_seen-handlers_to_run m h [] to_run = ground arith
  is_seen-handlers_to_run m h (t ∷ ts) to_run = ground (
    arith,
    is_seen-handlers_to_run m h ts (add_unseen to_run (handlers_of (Dict.get m t))),
    is_seen-add_unseen h to_run (handlers_of (Dict.get m t)),
  )

  -- The handlers that an event is delivered to are those that are registered for one of its classes,
  -- and each is in the list once, for however many of the classes it is registered.
  pub handlers_to_run-AreDistinct :
      (m : HandlerMap W) (event : Event)
      → AreDistinct (handlers_to_run m (mro event) [])
        × ((h : EventHandler W)
            → is_seen h (handlers_to_run m (mro event) []) ≡ is_registered m h (mro event))
  unfolding is_seen
  handlers_to_run-AreDistinct m event =
      (distinct_from m (mro event) [] tt, λ h. is_seen-handlers_to_run m h (mro event) [])

  -- The handlers raise, if anything, exceptions that derive from `Exception`.
  abbrev pub AreOrdinary : Event → List (EventHandler W) → Type 0
  AreOrdinary event [] = Unit
  AreOrdinary event (h ∷ hs) =
      ((w : W) → is_ordinary ((h.handle event w).0) ≡ true) × AreOrdinary event hs

  swallowed : (r : Result (Unit {0})) → is_ordinary r ≡ true → (x : W) → swallow r x ≡ (ok tt, x)
  swallowed (ok u) ordinary x = refl
  swallowed (err e) ordinary x = rw ordinary refl

  -- `emit` returns normally where the handlers of the event raise, if anything, exceptions that
  -- derive from `Exception`.
  pub emit-AreOrdinary :
      (m : HandlerMap W) (event : Event) (w : W)
      → AreOrdinary event (handlers_to_run m (mro event) [])
      → (emit m event w).0 ≡ ok tt
  unfolding emit run_handlers
  emit-AreOrdinary m event w h = run (handlers_to_run m (mro event) []) w h
    where
      run :
          (hs : List (EventHandler W)) (x : W)
          → AreOrdinary event hs
          → (run_handlers event hs x).0 ≡ ok tt
      run [] x ordinary = refl
      run (h ∷ hs) x ordinary =
          rw (swallowed (h.handle event x).0 (ordinary.0 x) (h.handle event x).1)
            (run hs (h.handle event x).1 ordinary.1)
