-- ===== src/Bus/Examples.antt =====
-- events.py on concrete subscribers: one that reads, and one that has stopped.
use urmet_ha.Prelude.{ℕ, ◌≡◌, refl, true, false, List, [], ◌∷◌, none, some, arith, lookup}
use urmet_ha.Bus.{
  Subscription, EventBus, subscription, offer, event_bus, subscribe, publish, deliver, publish_all,
}
use urmet_ha.Bus.Invariant.{IsValid}
use urmet_ha.Bus.Runs.{Turn, subscribes, publishes, closes, turn, run, run-event_bus-IsValid}
use urmet_ha.Bus.Delivery.{publish_all-drops}

abbrev history : List (Turn ℕ)
history = subscribes ∷ subscribes ∷ publishes 7 ∷ []

abbrev joined : EventBus ℕ
joined = run (event_bus 2) history

abbrev reader : Subscription ℕ
reader = record { capacity = 2; queue = some 7 ∷ []; closed = false; dropped = false }

joined-IsValid : IsValid joined
joined-IsValid = run-event_bus-IsValid 2 history

joined_closed : joined.closed ≡ false
unfolding run turn event_bus subscribe publish subscription offer deliver
joined_closed = refl

joined_reader : lookup 1 joined.subscribers ≡ some reader
unfolding run turn event_bus subscribe publish subscription offer deliver
joined_reader = refl

run-event_bus-IsValid_example :
    IsValid {E = ℕ} (run (event_bus 2) (subscribes ∷ publishes 7 ∷ closes ∷ []))
run-event_bus-IsValid_example = run-event_bus-IsValid 2 (subscribes ∷ publishes 7 ∷ closes ∷ [])

publish_all-drops_example :
    (lookup 1 (publish_all joined (8 ∷ 9 ∷ [])).subscribers ≡ none)
    × (lookup 1 (publish_all joined (8 ∷ 9 ∷ [])).gone
        ≡ some (record {
          capacity = 2;
          queue = some 7 ∷ some 8 ∷ none ∷ [];
          closed = true;
          dropped = true;
        }))
publish_all-drops_example =
    publish_all-drops joined 1 (8 ∷ 9 ∷ []) reader joined-IsValid joined_closed joined_reader
      (omega arith) (omega arith)
