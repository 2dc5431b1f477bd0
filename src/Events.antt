-- ===== src/Events.antt =====
-- packages/glyff/src/glyff/_event_system.py and events.py: best-effort event handlers.
pub mod Delivery
pub mod Subscribed
use glyff.Prelude.{
  ℕ, Bool, true, false, Option, none, some, List, [], ◌∷◌, ◌++◌, if◌then◌else◌, ◌==◌, nat_eq, Eq,
  ◌≡◌, ◌↔◌, arith,
}
use glyff.Types.{ExecutionId}
use glyff.Result.{Error, Result, ok, err, is_exception}
use glyff.Exec.{Exec, pure, settle, raise, ◌>>=◌, ◌>>◌}
use glyff.Dict
use glyff.Dict.{Dict}

-- The context that an event carries is the one that the handler runs in.
pub data Event : Type 0 where
  execution_completed : ExecutionId → Event
  execution_failed : ExecutionId → Error → Event

-- The event classes; `event` is their base.
pub data EventType : Type 0 where
  event completed failed : EventType

abbrev pub type_beq : EventType → EventType → Bool
type_beq event event = true
type_beq completed completed = true
type_beq failed failed = true
type_beq _ _ = false

pub type_beq_iff : (a b : EventType) → (type_beq a b ≡ true) ↔ (a ≡ b)
type_beq_iff a b = ground arith

instance abbrev pub event_type_eq : Eq EventType
event_type_eq = record { beq = type_beq; beq_iff = type_beq_iff }

-- the event classes of type(event).__mro__
abbrev pub mro : Event → List EventType
mro (execution_completed _) = completed ∷ event ∷ []
mro (execution_failed _ _) = failed ∷ event ∷ []

-- A handler, known by its identity.
pub record EventHandler (W : Type 0) : Type 0 where
  pub identity : ℕ
  pub event_types : List EventType
  pub handle : Event → Exec W (Unit {0})

abbrev pub HandlerMap : Type 0 → Type 0
HandlerMap W = Dict EventType (List (EventHandler W))

module _ {W : Type 0} where
  -- a `defaultdict(list)`
  abbrev pub handlers_of : Option (List (EventHandler W)) → List (EventHandler W)
  handlers_of none = []
  handlers_of (some hs) = hs

  unfoldable pub register : EventHandler W → List EventType → HandlerMap W → HandlerMap W
  register handler [] m = m
  register handler (t ∷ ts) m =
      register handler ts (Dict.set m t (handlers_of (Dict.get m t) ++ handler ∷ []))

  unfoldable pub register_all : List (EventHandler W) → HandlerMap W → HandlerMap W
  register_all [] m = m
  register_all (h ∷ hs) m = register_all hs (register h h.event_types m)

  -- EventEmitter._resolve_handler_map
  unfoldable pub resolve_handler_map : List (EventHandler W) → HandlerMap W
  unfolding register register_all
  resolve_handler_map handlers = register_all handlers []

  -- handler in seen_handlers
  unfoldable pub is_seen : EventHandler W → List (EventHandler W) → Bool
  is_seen h [] = false
  is_seen h (x ∷ xs) = if x.identity == h.identity then true else is_seen h xs

  unfoldable pub add_unseen : List (EventHandler W) → List (EventHandler W) → List (EventHandler W)
  unfolding is_seen
  add_unseen to_run [] = to_run
  add_unseen to_run (h ∷ hs) = add_unseen (if is_seen h to_run then to_run else to_run ++ h ∷ []) hs

  -- handlers_to_run, over the classes of the event
  unfoldable pub handlers_to_run :
      HandlerMap W → List EventType → List (EventHandler W) → List (EventHandler W)
  unfolding add_unseen
  handlers_to_run m [] to_run = to_run
  handlers_to_run m (t ∷ ts) to_run =
      handlers_to_run m ts (add_unseen to_run (handlers_of (Dict.get m t)))

  -- try: … except Exception: log
  abbrev pub swallow : Result (Unit {0}) → Exec W (Unit {0})
  swallow (ok _) = pure tt
  swallow (err e) = if is_exception e then pure tt else raise e

  unfoldable pub run_handlers : Event → List (EventHandler W) → Exec W (Unit {0})
  run_handlers ev [] = pure tt
  run_handlers ev (h ∷ hs) = do settle (h.handle ev) swallow; run_handlers ev hs

  -- EventEmitter.emit
  unfoldable pub emit : HandlerMap W → Event → Exec W (Unit {0})
  unfolding handlers_to_run run_handlers
  emit m ev = run_handlers ev (handlers_to_run m (mro ev) [])
