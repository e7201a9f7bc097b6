-- ===== src/Service/Loop.antt =====
-- usecases/service.py: the coroutines and callbacks that one event loop runs, as Threads has it: each
-- runs to its next await, and the loop resumes any that waits, in any order.
pub mod Alone
use urmet_ha.Prelude.{ℕ, suc, String, Bool, Option, none, some, List, [], ◌∷◌, ◌++◌}
use urmet_ha.Domain.{
  ActuatorName, incoming, CallState, CallTests, CallHandle, Doorphone, SessionView,
  registration_event,
}
use urmet_ha.Domain.Errors.{Outcome, ok, raised}
use urmet_ha.Calls.{handle}
use urmet_ha.Threads
use urmet_ha.Threads.{Course, ends, waits, silent, Step, Pool}
use urmet_ha.Service.World
use urmet_ha.Service.World.{Service, Task, Await, send, publish, publish_state}
use urmet_ha.Service.Legs.{close_session, offer, media_changed, aclose}
use urmet_ha.Service.Commands.{
  crossing, recorded, hang_up, place_call, set_mic_muted, open_actuator, clear_calls,
}
use urmet_ha.Service.Opening.{asked}
use urmet_ha.Service.Callbacks.{ring_arrived, call_state_arrived, run_task}

-- Each constructor is one coroutine or callback, with the instant, the arguments, and for each await
-- how what is awaited comes out.
pub data Request : Type 0 where
  rings : ℕ → Doorphone → ℕ → Request
  moves : ℕ → CallHandle → CallState → Request
  places : ℕ → (torn_down port : ℕ → Outcome (Unit {0})) → Bool → Outcome CallHandle → Request
  answers : ℕ → Outcome (Unit {0}) → ℕ → Request
  hangs : ℕ → (torn_down port : Outcome (Unit {0})) → ℕ → Request
  mutes : ℕ → Outcome (Unit {0}) → Bool → Request
  realigns : ℕ → Outcome (Unit {0}) → Request
  opens : ℕ → ActuatorName → Outcome (Unit {0}) → Request
  offers :
      ℕ
      → (replacing : Outcome (Unit {0})) → SessionView
      → Outcome String
      → (closing : Outcome (Unit {0})) → Option ℕ
      → Request
  closes : ℕ → Outcome (Unit {0}) → ℕ → Request
  changes : ℕ → ℕ → SessionView → String → Request
  tasks : ℕ → (torn_down port : Outcome (Unit {0})) → Task → Request
  shuts : ℕ → (ℕ → Outcome (Unit {0})) → (Task → Outcome (Unit {0})) → Request
  clears : Request
  -- What the port answers without crossing the worker changes; the binding is reported.
  registers : Bool → Request
  meets : Option Doorphone → Request
  reports : ℕ → (registered : Bool) (status_code : ℕ) (reason : String) (released : Bool) → Request

-- The coroutines of one await, up to it and from it on.
unfoldable pub answering : ℕ → Outcome (Unit {0}) → ℕ → Service → Course Service (Unit {0})
unfolding crossing
answering now r call_id s = elim (handle s.calls call_id) [
  | raised e ↦ ends (raised e) s
  | ok call ↦
      crossing (World.answer call) r
        (λ _ t. ends (ok tt) (publish_state now (recorded call incoming t))) s
]

unfoldable pub muting : ℕ → Outcome (Unit {0}) → Bool → Service → Course Service (Unit {0})
unfolding send set_mic_muted
muting now r muted s = waits (send (World.set_mic_muted muted) s) (λ t.
    let (o, u) = set_mic_muted now (record { meanwhile = λ _. t; outcome = r }) muted s in ends o u)

module _ (tests : CallTests) where
  unfoldable pub opening :
      ℕ → ActuatorName → Outcome (Unit {0}) → Service → Course Service (Unit {0})
  unfolding open_actuator
  opening now actuator r s = waits (asked tests actuator s) (λ t.
      let (o, u) =
        open_actuator tests now actuator (record { meanwhile = λ _. t; outcome = r }) s in
      ends o u)

  unfoldable pub course : Request → Service → Course Service (Unit {0})
  unfolding answering muting opening silent
  course (rings now d i) s = ends (ok tt) (ring_arrived now d i s)
  course (moves now call state) s = ends (ok tt) (call_state_arrived tests now call state s)
  course (places now torn_down port want called) s =
      silent (place_call tests now torn_down port want called s)
  course (answers now r i) s = answering now r i s
  course (hangs now torn_down port i) s = hang_up tests now torn_down port i (ends (ok tt)) s
  course (mutes now r muted) s = muting now r muted s
  course (realigns now r) s = muting now r s.mic_muted s
  course (opens now actuator r) s = opening now actuator r s
  course (offers now replacing reading answer closing i) s =
      silent (offer tests now replacing reading answer closing i s)
  course (closes now torn_down i) s = close_session tests now torn_down i s
  course (changes now i reading reason) s =
      ends (ok tt) (media_changed tests now i reading reason s)
  course (tasks now torn_down port t) s = run_task tests now torn_down port t s
  course (shuts now torn_down cancelled) s = aclose tests now torn_down cancelled s
  course clears s = ends (ok tt) (clear_calls s)
  course (registers b) s = ends (ok tt) (record s { registered = b })
  course (meets d) s = ends (ok tt) (record s { known_doorphone = d })
  course (reports now registered code reason released) s =
      ends (ok tt) (publish now (registration_event now registered code reason released) s)

  -- A run of the loop, from a service on which nothing waits.
  unfoldable pub run : List (Step Request) → Service → Service
  unfolding course Threads.run
  run ts s = (Threads.run course ts (record { state = s; waiting = [] })).state
