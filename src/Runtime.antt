-- ===== src/Runtime.antt =====
-- addon/urmet-gateway/urmet_gateway/runtime.py and sip/publisher.py: the parts of the gateway together,
-- and their shutdown. What the loop does during each await is an argument, over all of the parts.
pub mod Shutdown
mod Examples
use urmet_ha.Prelude.{
  ℕ, Bool, true, false, Option, none, some, List, [], ◌∷◌, ◌++◌, if◌then◌else◌, drop, length,
}
use urmet_ha.Domain.{Event, registration_event, CallTests}
use urmet_ha.Bus
use urmet_ha.Bus.{EventBus, publish_all}
use urmet_ha.Domain.Errors.{Outcome, ok, raised, other_error}
use urmet_ha.Threads.{plays}
use urmet_ha.Service.World.{Service, Task, emit, publish_state}
use urmet_ha.Service.Legs
use urmet_ha.Service.Commands.{clear_calls}
use urmet_ha.Sip.Supervisor
use urmet_ha.Sip.Supervisor.{Supervisor, RegistrationOutcome, Call}
use urmet_ha.Sip.Worker
use urmet_ha.Sip.Worker.{Worker}

pub record Runtime : Type 0 where
  pub service : Service
  pub bus : EventBus Event
  pub supervisor : Supervisor
  pub worker : Worker

-- The sink of the service is the bus: what a step of the service publishes is fanned out.
unfoldable pub on_service : (Service → Service) → Runtime → Runtime
on_service f r =
    let s = f r.service in
    record r {
      service = s;
      bus = publish_all r.bus (drop (length r.service.published) s.published);
    }

-- `registration_publisher`: an outcome as an event, then the state behind it.
unfoldable pub publish_outcome : ℕ → RegistrationOutcome → Service → Service
unfolding emit publish_state
publish_outcome now o s = publish_state now (
    emit
      (registration_event now o.registered o.status_code o.reason
        (elim o.released [ none ↦ true | some released ↦ released ]))
      s)

unfoldable pub publish_outcomes : ℕ → List RegistrationOutcome → Service → Service
unfolding publish_outcome
publish_outcomes now [] s = s
publish_outcomes now (o ∷ os) s = publish_outcomes now os (publish_outcome now o s)

-- A step of the supervisor, whose outcomes go through the publisher.
unfoldable pub on_supervisor : ℕ → (Supervisor → Supervisor) → Runtime → Runtime
unfolding on_service publish_outcomes
on_supervisor now f r =
    let s = f r.supervisor in
    on_service (publish_outcomes now (drop (length r.supervisor.published) s.published))
      (record r { supervisor = s })

-- `shutdown` from the release up to its last await: the worker takes no call from here on, and what
-- it runs is joined while the loop goes on.
unfoldable pub drained : ℕ → Runtime → Runtime
unfolding on_service
drained now r =
    let cleared = on_service clear_calls r in
    let told = on_service (publish_state now) cleared in
    record told { bus = Bus.close told.bus; worker = Worker.aclose told.worker }

-- What follows the release: a supervisor whose `stop` raises leaves the rest undone, and one that was
-- stopped before returns at once.
unfoldable pub finish :
    ℕ
    → (while_joining : Runtime → Runtime) → (unbridged released : Runtime)
    → Outcome (Unit {0}) × Runtime
unfolding drained
finish now while_joining unbridged released =
    if unbridged.supervisor.stopped
    then (ok tt, while_joining (drained now unbridged))
    else (if released.supervisor.died
        then (raised other_error, released)
        else (ok tt, while_joining (drained now released)))

-- The closing of the legs, with what else the loop does at its awaits; the service's own part of it.
unfoldable pub close_legs :
    CallTests
    → ℕ
    → (ℕ → Service → Service)
    → (ℕ → Outcome (Unit {0}))
    → (Task → Outcome (Unit {0}))
    → Runtime
    → Outcome (Unit {0}) × Runtime
unfolding on_service
close_legs tests now closing torn_down cancelled r =
    let out = plays closing 0 (Legs.aclose tests now torn_down cancelled r.service) in
    (out.0, on_service (λ _. out.1) r)

-- `shutdown`, with how the teardown of each leg, its tasks and the release end; an error of a
-- teardown or of a task leaves all the rest undone.
unfoldable pub shutdown :
    CallTests
    → ℕ
    → (closing : ℕ → Service → Service) → (torn_down : ℕ → Outcome (Unit {0}))
    → (cancelled : Task → Outcome (Unit {0}))
    → (while_closing while_releasing while_joining : Runtime → Runtime) → (release : Call Bool)
    → Runtime
    → Outcome (Unit {0}) × Runtime
unfolding close_legs on_supervisor finish
shutdown tests now closing torn_down cancelled while_closing while_releasing while_joining release
      r =
    let legs = close_legs tests now closing torn_down cancelled r in
    let unbridged = while_closing legs.1 in
    elim legs.0 [
      | raised e ↦ (raised e, unbridged)
      | ok _ ↦
          finish now while_joining unbridged
            (on_supervisor now (Supervisor.stop release) (while_releasing unbridged))
    ]
