-- ===== src/Runtime/Examples.antt =====
-- runtime.py on a registered gateway with one listener.
use urmet_ha.Prelude.{
  ◌<◌, ◌≡◌, refl, sym, Bool, true, false, none, some, [], ◌∷◌, ◌++◌, length, lookup, arith,
}
use urmet_ha.Domain.{
  Event, CallState, streaming, ended, error, CallTests, state_event, registration_event,
}
use urmet_ha.Calls.{empty_book}
use urmet_ha.Bus.{Subscription, event_bus, subscribe, publish, publish_all, fan_out, deliver, offer}
use urmet_ha.Service.Legs
use urmet_ha.Bus.Invariant.{IsValid}
use mathlib.Core.Path.{subst}
use urmet_ha.Bus.Runs.{turn, subscribes, publishes, run, run-event_bus-IsValid}
use urmet_ha.Service.World.{new_service, snapshot}
use urmet_ha.Sip.Supervisor
use urmet_ha.Sip.Supervisor.{supervisor, returns, released_reason}
use urmet_ha.Sip.Worker.{new_worker}
use urmet_ha.Runtime.{Runtime, on_service, on_supervisor, close_legs, shutdown}
use urmet_ha.Domain.Errors.{ok}
use urmet_ha.Threads.{plays}
use urmet_ha.Runtime.Shutdown.{
  legs_closed, unbridged, released, last_told, read_out, shutdown-drains,
}

abbrev flows : CallState → Bool
flows streaming = true
flows _ = false

abbrev stops : CallState → Bool
stops ended = true
stops error = true
stops _ = false

flows_not : (s : CallState) → stops s ≡ true → flows s ≡ false
flows_not s h = ground (arith, h)

abbrev tests : CallTests
tests = record { is_streaming = flows; is_terminal = stops; streams = refl; over = flows_not }

abbrev listener : Subscription Event
listener = record { capacity = 4; queue = []; closed = false; dropped = false }

abbrev up : Runtime
up = record {
  service = new_service true true none;
  bus = record {
    capacity = 4;
    subscribers = (0, listener) ∷ [];
    gone = [];
    opened = 1;
    closed = false;
  };
  supervisor = record supervisor { built = 1; client = some 1 };
  worker = new_worker;
}

abbrev let_go : Runtime
let_go =
    released tests 9 (λ _ s. s) (λ _. ok tt) (λ _. ok tt) (λ r. r) (λ r. r) (λ r. r) (returns true)
      up

abbrev release_told : Event
release_told = registration_event 9 false 0 released_reason true

abbrev told_behind : Event
told_behind = state_event 9 (snapshot up.service)

abbrev heard : Subscription Event
heard = record listener { queue = some release_told ∷ some told_behind ∷ [] }

let_go-bus :
    let_go.bus
    ≡ run (event_bus 4) (subscribes ∷ publishes release_told ∷ publishes told_behind ∷ [])
unfolding run turn on_service on_supervisor publish_all Legs.aclose Legs.close_each Legs.cancel_each
    close_legs plays new_service supervisor Supervisor.stop subscribe snapshot event_bus
let_go-bus = refl

let_go-IsValid : IsValid let_go.bus
let_go-IsValid =
    subst (λ b. IsValid b) (sym let_go-bus)
      (run-event_bus-IsValid 4 (subscribes ∷ publishes release_told ∷ publishes told_behind ∷ []))

let_go_lem :
    (let_go.supervisor.died ≡ false)
    × (let_go.bus.closed ≡ false)
    × (lookup 0 let_go.bus.subscribers ≡ some heard)
unfolding on_service on_supervisor publish_all Legs.aclose Legs.close_each Legs.cancel_each
    close_legs plays new_service supervisor Supervisor.stop snapshot publish fan_out deliver offer
let_go_lem = (refl, refl, refl)

heard-room : length heard.queue < heard.capacity
heard-room = omega arith

up_first :
    (unbridged tests 9
      (λ _ s. s)
      (λ _. ok tt)
      (λ _. ok tt)
      (λ r. r)
      (λ r. r)
      (λ r. r)
      (returns true)
      up).supervisor.stopped
    ≡ false
unfolding on_service supervisor close_legs
up_first = refl

up_closed :
    legs_closed tests 9
      (λ _ s. s)
      (λ _. ok tt)
      (λ _. ok tt)
      (λ r. r)
      (λ r. r)
      (λ r. r)
      (returns true)
      up
    ≡ ok tt
unfolding close_legs Legs.aclose Legs.close_each Legs.cancel_each plays new_service
up_closed = refl

shutdown-drains_example :
    (after : Runtime) × (shutdown tests 9
        (λ _ s. s)
        (λ _. ok tt)
        (λ _. ok tt)
        (λ r. r)
        (λ r. r)
        (λ r. r)
        (returns true)
        up
      ≡ (ok tt, after))
    × (after.service.calls ≡ empty_book)
    × (after.service.published ≡ let_go.service.published ++ last_told 9 let_go.service ∷ [])
    × (lookup 0 after.bus.gone ≡ some (read_out (last_told 9 let_go.service) heard))
    × (after.worker.stopped ≡ true)
shutdown-drains_example =
    shutdown-drains tests 9 (λ _ s. s) (λ _. ok tt) (λ _. ok tt) (λ r. r) (λ r. r) (λ r. r)
      (returns true) up 0 heard up_closed up_first let_go_lem.0 let_go-IsValid let_go_lem.1
      let_go_lem.2 refl heard-room
