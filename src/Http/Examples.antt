-- ===== src/Http/Examples.antt =====
-- http/errors.py under one hierarchy of the SDK's classes, and http/ws.py on one short stream.
use urmet_ha.Prelude.{
  ℕ, ◌+◌, ◌<◌, ◌≡◌, refl, Bool, true, false, none, some, List, [], ◌∷◌, ◌++◌, ◌==◌, ==_iff, ◌||◌,
  ◌&&◌, contains, lookup, length, arith,
}
use urmet_ha.Domain.Errors
use urmet_ha.Domain.Errors.{ErrorType, class_code}
use urmet_ha.Bus.{Subscription, EventBus, event_bus, subscription, subscribe, publish_all, close}
use urmet_ha.Bus.Runs.{run, run-event_bus-IsValid}
use urmet_ha.Domain.{ActuatorName, CallState, streaming, ended, error, CallTests}
use urmet_ha.Domain.Errors.{Outcome, raised}
use urmet_ha.Service.World.{Service, Await, new_service}
use urmet_ha.Service.Opening.{opens_told, number, asked}
use urmet_ha.Http.Rest.{post_open, status_of}
use urmet_ha.Http.Rest.Opening.{says_204, post_open-tells}
use urmet_ha.Http.Errors.{SdkClasses, answers, raises, error_middleware}
use urmet_ha.Http.Errors.Statuses.{meaning, error_middleware-meaning}
use urmet_ha.Http.EventStream.{
  Moment, publishes, reads, watch, read_on, stream, farewell, shutting_down, behind, going_away,
  try_again_later,
}
use urmet_ha.Http.EventStream.Snapshot.{published, KeepsUp, stream_complete, stream-behind}

-- Every SDK error is an UrmetError, all below it but itself a SipError, and the two refinements are
-- call errors.
abbrev tree : ErrorType → ErrorType → Bool
tree e t =
    class_code e == class_code t
    || (class_code t == 0)
    || (class_code t == 1 && contains (class_code e) (2 ∷ 3 ∷ 4 ∷ 5 ∷ 6 ∷ []))
    || (class_code t == 4 && contains (class_code e) (5 ∷ 6 ∷ []))

tree-own : (e : ErrorType) → tree e e ≡ true
tree-own e = rw ((==_iff (class_code e) (class_code e)).1 refl) refl

tree-roots :
    (t : ErrorType)
    → contains (class_code t) (2 ∷ 3 ∷ 4 ∷ 5 ∷ 6 ∷ []) ≡ true
    → (tree Errors.urmet_error t ≡ false) × (tree Errors.sip_error t ≡ false)
tree-roots t h = ground (arith, h)

abbrev sdk : SdkClasses
sdk = record {
  is_a = tree;
  own = tree-own;
  not_opened = refl;
  voice_only = refl;
  no_video_apart = refl;
  unregistered_apart = (refl, refl);
  registration_apart = (refl, refl, refl);
  call_apart = (refl, refl, refl, refl);
  roots_apart = tree-roots;
}

error_middleware-meaning_example :
    error_middleware sdk (raises Errors.stale_arm) ≡ answers (meaning Errors.stale_arm)
error_middleware-meaning_example = error_middleware-meaning sdk Errors.stale_arm

abbrev flows : CallState → Bool
flows streaming = true
flows _ = false

abbrev stops : CallState → Bool
stops ended = true
stops error = true
stops _ = false

flows_not : (s : CallState) → stops s ≡ true → flows s ≡ false
flows_not s h = ground (arith, h)

abbrev tests : CallTests
tests = record { is_streaming = flows; is_terminal = stops; streams = refl; over = flows_not }

abbrev quiet : EventBus ℕ
quiet = run (event_bus 2) []

abbrev heard : EventBus ℕ
heard = record {
  capacity = 2;
  subscribers = (0, record { capacity = 2; queue = []; closed = false; dropped = false }) ∷ [];
  gone = [];
  opened = 1;
  closed = false;
}

quiet-heard : subscribe quiet ≡ some (0, heard)
unfolding subscribe subscription event_bus run
quiet-heard = refl

-- Three events for a queue of two, with the client taking one in between.
abbrev taken : List (Moment ℕ)
taken = publishes 7 ∷ publishes 8 ∷ reads ∷ publishes 9 ∷ []

quiet-KeepsUp : KeepsUp quiet.capacity 0 taken
unfolding event_bus run KeepsUp
quiet-KeepsUp = (omega arith, (omega arith, (omega arith, tt)))

quiet-over : quiet.capacity < length {A = ℕ} (7 ∷ 8 ∷ 9 ∷ [])
unfolding event_bus run
quiet-over = omega arith

stream_complete_example :
    let w = watch 0 taken (record { bus = heard; sent = 1 ∷ [] }) in
    (s : Subscription ℕ) × (lookup 0 (close w.bus).gone ≡ some s)
    × (w.sent ++ (read_on s.dropped s.queue).0 ≡ 1 ∷ published taken)
    × ((read_on s.dropped s.queue).1 ≡ true)
    × (farewell false s ≡ (going_away, shutting_down))
stream_complete_example =
    stream_complete quiet 1 taken (run-event_bus-IsValid 2 []) quiet-heard quiet-KeepsUp

stream-behind_example :
    (s : Subscription ℕ) × (lookup 0 (publish_all heard (7 ∷ 8 ∷ 9 ∷ [])).gone ≡ some s)
    × (stream 1 s ≡ (1 ∷ [], true))
    × (farewell false s ≡ (try_again_later, behind))
stream-behind_example =
    stream-behind quiet 1 (7 ∷ 8 ∷ 9 ∷ []) (run-event_bus-IsValid 2 []) quiet-heard quiet-over

-- A house without a call, whose panel does not acknowledge.
abbrev unheard : Await (Unit {0})
unheard = record { meanwhile = λ s. s; outcome = raised Errors.open_not_acknowledged }

abbrev still_house : Service
still_house = new_service true true none

post_open-tells_example :
    let ran = post_open tests 9 ActuatorName.door unheard still_house in
    let waited = asked tests ActuatorName.door still_house in
    (status_of sdk ran ≡ answers 502)
    × (opens_told true ran.1.published
        ≡ opens_told true waited.published + number (says_204 (status_of sdk ran)))
    × (opens_told false ran.1.published ≡ opens_told false waited.published + 1)
    × (ran.1.sent ≡ waited.sent)
post_open-tells_example = post_open-tells sdk tests 9 ActuatorName.door unheard still_house
