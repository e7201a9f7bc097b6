-- ===== src/Service/Publication/Runs.antt =====
-- usecases/service.py: every event is followed by a state, under every interleaving.
use urmet_ha.Prelude.{Bool, Option, List, []}
use urmet_ha.Domain.{CallTests, Doorphone}
use urmet_ha.Domain.Errors.{ok}
use urmet_ha.Threads.{Step, IsSafe, silent-IsSafe, run-IsKept}
use urmet_ha.Service.World.{new_service}
use urmet_ha.Service.Loop.{
  Request, course, run, rings, moves, places, answers, hangs, mutes, realigns, opens, offers,
  closes, changes, tasks, shuts, clears, registers, meets, reports,
}
use urmet_ha.Service.Publication.{
  Told, Followed, Tells, ends-Tells, publish-Told, offer-Tells, close_session-Tells,
  media_changed-Told, aclose-Tells,
}
use urmet_ha.Service.Publication.Actions.{
  hang_up-Tells, place_call-Tells, answering-Tells, muting-Tells, opening-Tells, ring_arrived-Told,
  call_state_arrived-Told, run_task-Tells, clear_calls-Told,
}

module _ (tests : CallTests) where
  course-Tells : (r : Request) → Tells (course tests r)
  unfolding course IsSafe Told
  course-Tells (rings now d i) s t = (ring_arrived-Told now d i s t, tt)
  course-Tells (moves now call state) s t = (call_state_arrived-Told tests now call state s t, tt)
  course-Tells (places now o port want called) s t =
      silent-IsSafe _ _ s _ (place_call-Tells tests now o port want called s t)
  course-Tells (answers now r i) s t = answering-Tells tests now r i s t
  course-Tells (hangs now o port i) s t =
      hang_up-Tells tests now o port i _ (ends-Tells (ok tt)) s t
  course-Tells (mutes now r muted) s t = muting-Tells now r muted s t
  course-Tells (realigns now r) s t = muting-Tells now r s.mic_muted s t
  course-Tells (opens now actuator r) s t = opening-Tells tests now actuator r s t
  course-Tells (offers now replacing reading answer closing i) s t =
      silent-IsSafe _ _ s _ (offer-Tells tests now replacing reading answer closing i s t)
  course-Tells (closes now o i) s t = close_session-Tells tests now o i s t
  course-Tells (changes now i reading reason) s t =
      (media_changed-Told tests now i reading reason s t, tt)
  course-Tells (tasks now o port task) s t = run_task-Tells tests now o port task s t
  course-Tells (shuts now o c) s t = aclose-Tells tests now o c s t
  course-Tells clears s t = (clear_calls-Told s t, tt)
  course-Tells (registers b) s t = (t, tt)
  course-Tells (meets d) s t = (t, tt)
  course-Tells (reports now registered code reason released) s t = (publish-Told now _ s t, tt)

-- Whatever callbacks fire and coroutines begin on a new service, and in whatever order the loop
-- resumes those that wait, also where what they await raises, the port's registration and doorphone
-- change, and the binding is reported: every published event that is no state has a state right
-- behind it.
pub run-new_service-Followed :
    (tests : CallTests) (steps : List (Step Request)) (has_factory registered : Bool)
    (known : Option Doorphone)
    → Followed (run tests steps (new_service has_factory registered known)).published
unfolding run Told new_service
run-new_service-Followed tests steps has_factory registered known =
    (run-IsKept Told (λ _ _. Unit {0}) (λ _. tt) (λ _ _ _ _ _. tt) (course tests)
      (course-Tells tests) steps
      (record { state = new_service has_factory registered known; waiting = [] }) (tt, tt)).0
