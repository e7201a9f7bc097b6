-- ===== src/Service/Examples.antt =====
-- usecases on a concrete house: one dialog of ours is streaming and one visitor rings.
use urmet_ha.Prelude.{◌≡◌, refl, Bool, true, false, List, [], ◌∷◌, none, some, arith}
use urmet_ha.Domain.{
  opened, incoming, outgoing, ActuatorName, CallState, connecting, streaming, ended, error,
  CallTests, CallHandle,
}
use urmet_ha.Domain.Errors.{ok, raised, call_error, open_not_acknowledged}
use urmet_ha.Calls.{TrackedCall, empty_book, find, record_call, forget}
use urmet_ha.Service.World.{Service, Leg, Await, new_service, send}
use urmet_ha.Service.Commands.{placed}
use urmet_ha.Service.Callbacks.{call_state_arrived}
use urmet_ha.Threads.{Step, begins, resumes}
use urmet_ha.Service.Loop.{Request, rings, moves, places, opens, run}
use urmet_ha.Service.Publication.{Followed}
use urmet_ha.Service.Publication.Runs.{run-new_service-Followed}
use urmet_ha.Service.Sides.{call_state_arrived-side}
use urmet_ha.Service.Dialogs.{IsCurrent, placed-records}

abbrev flows : CallState → Bool
flows streaming = true
flows _ = false

abbrev stops : CallState → Bool
stops ended = true
stops error = true
stops _ = false

flows_not : (s : CallState) → stops s ≡ true → flows s ≡ false
flows_not s h = ground arith

abbrev tests : CallTests
tests = record { is_streaming = flows; is_terminal = stops; streams = refl; over = flows_not }

abbrev ours : CallHandle
ours = record { id = 1; native = 11 }

abbrev looking : TrackedCall
looking = record { handle = ours; state = streaming; direction = outgoing }

abbrev house : Service
house = record (new_service true true none) {
  calls = (record_call empty_book ours streaming outgoing false).0;
}

-- An open and a call that overlap, each begun before the other is over, with a ring and the end of
-- the dialog between.
abbrev evening : List (Step Request)
evening =
    begins (opens 5 ActuatorName.gate (raised open_not_acknowledged))
    ∷ begins (moves 6 ours ended)
    ∷ begins (places 7 (λ _. ok tt) (λ _. ok tt) true (raised call_error))
    ∷ resumes 0
    ∷ begins (rings 8 (record { mac = "00"; name = "" }) 2)
    ∷ resumes 0
    ∷ []

run-new_service-Followed_example :
    Followed (run tests evening (new_service true true none)).published
run-new_service-Followed_example = run-new_service-Followed tests evening true true none

call_state_arrived-side_example :
    find (call_state_arrived tests 9 ours connecting house).calls 1
    ≡ some (record { handle = ours; state = connecting; direction = incoming })
unfolding record_call empty_book new_service
call_state_arrived-side_example = call_state_arrived-side tests 9 ours connecting house refl

-- The same with a browser on the dialog.
abbrev leg : Leg
leg = record {
  call_id = 1;
  closed = false;
  reading = record {
    session_id = 1;
    call_id = 1;
    state = opened;
    connection = "connected";
    reason = "";
    video = none;
    audio = none;
  };
}

abbrev watched : Service
watched = record house { legs = (1, leg) ∷ []; sessions = 1 ∷ []; opened = 1 }

-- The dialog ends while the INVITE is still awaited.
abbrev hung_in_flight : Await CallHandle
hung_in_flight = record {
  meanwhile = λ s. record s { calls = forget s.calls 1 };
  outcome = ok ours;
}

placed-records_example :
    let (out, s') = placed tests 9 true hung_in_flight (new_service true true none) in
    (out ≡ ok 1) × (find s'.calls 1 ≡ none) × (s'.inviting ≡ 0) × IsCurrent s'
unfolding forget new_service empty_book send
placed-records_example =
    placed-records tests 9 true hung_in_flight ours (new_service true true none) refl
