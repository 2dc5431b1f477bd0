-- ===== src/Events/Subscribed.antt =====
-- About the map that an EventEmitter resolves of its handlers.
use glyff.Prelude.{
  Bool, false, ◌||◌, ◌&&◌, List, [], ◌∷◌, ◌++◌, ◌≡◌, refl, arith, ◌==◌, nat_eq, Bool-cases, inl,
  inr, ◌∙◌,
}
use glyff.Dict
use glyff.Dict.Laws.{get-set}
use glyff.Events.{
  EventType, EventHandler, HandlerMap, handlers_of, event_type_eq, type_beq_iff, is_seen, register,
  register_all, resolve_handler_map,
}
use glyff.Events.Delivery.{is_seen-snoc}

abbrev pub is_among : EventType → List EventType → Bool
is_among t [] = false
is_among t (u ∷ us) = (u == t) || is_among t us

or_false : (b : Bool) → (b || false) ≡ b
or_false b = ground arith

module _ {W : Type 0} (h : EventHandler W) (t : EventType) where
  -- The handler is one of those given, and names the class.
  abbrev pub is_subscribed : List (EventHandler W) → Bool
  is_subscribed [] = false
  is_subscribed (x ∷ xs) =
      ((x.identity == h.identity) && is_among t x.event_types) || is_subscribed xs

  abbrev is_in : HandlerMap W → Bool
  is_in m = is_seen h (handlers_of (Dict.get m t))

  is_in-set :
      (x : EventHandler W) (u : EventType) (m : HandlerMap W)
      → is_in (Dict.set m u (handlers_of (Dict.get m u) ++ x ∷ []))
        ≡ (((u == t) && (x.identity == h.identity)) || is_in m)
  is_in-set x u m = elim (Bool-cases (u == t)) [
    | inl same ↦ rw (get-set m u t (handlers_of (Dict.get m u) ++ x ∷ [])) (
        rw same (
          rw (is_seen-snoc h x (handlers_of (Dict.get m u)), (type_beq_iff u t).0 same)
            (ground arith)))
    | inr other ↦ rw (get-set m u t (handlers_of (Dict.get m u) ++ x ∷ [])) (rw other refl)
  ]

  is_in-register :
      (x : EventHandler W) (us : List EventType) (m : HandlerMap W)
      → is_in (register x us m) ≡ (((x.identity == h.identity) && is_among t us) || is_in m)
  unfolding register
  is_in-register x [] m = ground arith
  is_in-register x (u ∷ us) m = ground (
    arith,
    is_in-register x us (Dict.set m u (handlers_of (Dict.get m u) ++ x ∷ [])),
    is_in-set x u m,
  )

  is_in-register_all :
      (xs : List (EventHandler W)) (m : HandlerMap W)
      → is_in (register_all xs m) ≡ (is_subscribed xs || is_in m)
  unfolding register_all
  is_in-register_all [] m = refl
  is_in-register_all (x ∷ xs) m =
      ground (
        arith,
        is_in-register_all xs (register x x.event_types m),
        is_in-register x x.event_types m,
      )

  -- In the map that an emitter resolves, a class has those of the handlers given that name it, and no
  -- others.
  pub resolve_handler_map_lem :
      (handlers : List (EventHandler W))
      → is_seen h (handlers_of (Dict.get (resolve_handler_map handlers) t)) ≡ is_subscribed handlers
  unfolding resolve_handler_map Dict.get is_seen
  resolve_handler_map_lem handlers =
      is_in-register_all handlers [] ∙ or_false (is_subscribed handlers)
