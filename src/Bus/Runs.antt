-- ===== src/Bus/Runs.antt =====
-- events.py: what holds after any run of the bus.
use urmet_ha.Prelude.{ℕ, List, [], ◌∷◌, Option, none, some, inl, inr, Option-cases}
use urmet_ha.Bus.{EventBus, event_bus, subscribe, publish, close, leave}
use urmet_ha.Bus.Invariant.{
  IsValid, event_bus-IsValid, subscribe-IsValid, publish-IsValid, leave-IsValid, close-IsValid,
}

-- What the loop does to the bus, one turn at a time.
pub data Turn (E : Type 0) : Type 0 where
  subscribes : Turn E
  publishes : E → Turn E
  leaves : ℕ → Turn E
  closes : Turn E

module _ {E : Type 0} where
  -- A refused subscription changes nothing.
  abbrev pub after_subscribe : EventBus E → Option (ℕ × EventBus E) → EventBus E
  after_subscribe b none = b
  after_subscribe b (some (i, b')) = b'

  unfoldable pub turn : EventBus E → Turn E → EventBus E
  turn b subscribes = after_subscribe b (subscribe b)
  turn b (publishes e) = publish b e
  turn b (leaves i) = leave b i
  turn b closes = close b

  unfoldable pub run : EventBus E → List (Turn E) → EventBus E
  run b [] = b
  run b (t ∷ ts) = run (turn b t) ts

  turn-IsValid : (b : EventBus E) (t : Turn E) → IsValid b → IsValid (turn b t)
  unfolding turn
  turn-IsValid b subscribes v = elim (Option-cases (subscribe b)) [
    | inl refused ↦ rw (refused, after_subscribe) v
    | inr ((i, b'), e) ↦ rw (e, after_subscribe) (subscribe-IsValid b v e)
  ]
  turn-IsValid b (publishes e) v = publish-IsValid b e v
  turn-IsValid b (leaves i) v = leave-IsValid b i v
  turn-IsValid b closes v = close-IsValid b v

  run-IsValid : (b : EventBus E) (ts : List (Turn E)) → IsValid b → IsValid (run b ts)
  unfolding run
  run-IsValid b [] v = v
  run-IsValid b (t ∷ ts) v = run-IsValid (turn b t) ts (turn-IsValid b t v)

  -- After any subscriptions, events, departures and closing of the bus, in any order: the set of the
  -- bus holds open subscriptions under distinct numbers, no queue holds more than the capacity, plus
  -- the sentinel's slot once it is closed, whoever left the set is closed, and a closed bus has an
  -- empty set.
  pub run-event_bus-IsValid :
      (capacity : ℕ) (ts : List (Turn E)) → IsValid (run (event_bus capacity) ts)
  run-event_bus-IsValid capacity ts =
      run-IsValid (event_bus capacity) ts (event_bus-IsValid capacity)
