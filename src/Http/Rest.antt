-- ===== src/Http/Rest.antt =====
-- addon/urmet-gateway/urmet_gateway/http/rest.py: the handlers, each a translation onto the service,
-- under the middleware of http/errors.py. A body that was read is an argument, with what its parsing
-- came to; the routes and the serialisation are aiohttp's and pydantic's.
pub mod Opening
use urmet_ha.Prelude.{ℕ, String, Bool, true, false, Option, none, some, List}
use urmet_ha.Domain.{
  ActuatorName, door, gate, CallTests, CallHandle, SessionView, SessionAnswer, StateView,
}
use urmet_ha.Domain.Errors.{Outcome, ok, raised}
use urmet_ha.Threads.{ends, plays}
use urmet_ha.Service.World.{Service, Await, snapshot}
use urmet_ha.Service.Legs.{offer, close_session}
use urmet_ha.Service.Commands.{Ran, hang_up, place_call, answer_call, set_mic_muted, open_actuator}
use urmet_ha.Http.Errors.{SdkClasses, Handled, answers, http_exception, raises, error_middleware}

-- The body of an answer, by what it is made of.
pub data Body : Type 0 where
  empty_body : Body
  health_body : (is_ok : Bool) → Body
  state_body : StateView → Body
  diagnostics_body : (state : StateView) (settings : String) (failures : ℕ) → Body
  call_created : ℕ → Body
  session_answer : SessionAnswer → Body

-- What goes out: the status and the body.
abbrev pub Answer : Type 0
Answer = ℕ × Body

-- A handler that ran: its answer or its error, and the service that it leaves.
abbrev pub Handler : Type 0
Handler = Outcome Answer × Service

unfoldable pub health : Service → Handler
health s = (ok (200, health_body true), s)

unfoldable pub state : Service → Handler
unfolding snapshot
state s = (ok (200, state_body (snapshot s)), s)

unfoldable pub diagnostics : String → ℕ → Service → Handler
unfolding snapshot
diagnostics settings failures s = (ok (200, diagnostics_body (snapshot s) settings failures), s)

-- A status with an empty body, once a coroutine has ended.
unfoldable pub no_content : {A : Type 0} → Ran A → Handler
no_content (ok _, s) = (ok (204, empty_body), s)
no_content (raised e, s) = (raised e, s)

created : Ran ℕ → Handler
created (ok call_id, s) = (ok (201, call_created call_id), s)
created (raised e, s) = (raised e, s)

answered_with : Ran SessionAnswer → Handler
answered_with (ok answer, s) = (ok (201, session_answer answer), s)
answered_with (raised e, s) = (raised e, s)

-- The parsed body, or the error of `_parse`, before anything is asked of the service.
unfoldable pub with_body : {M : Type 0} → Outcome M → (M → Service → Handler) → Service → Handler
with_body (ok m) then_ s = then_ m s
with_body (raised e) then_ s = (raised e, s)

-- A coroutine alone, with what the loop does at its awaits.
abbrev pub Awaits : Type 0
Awaits = ℕ → Service → Service

module _ (tests : CallTests) (now : ℕ) where
  -- `RestApi.place_call`, of the body's `want_video`
  unfoldable pub post_call :
      Awaits
      → (torn_down port : ℕ → Outcome (Unit {0})) → Outcome CallHandle
      → Outcome Bool
      → Service
      → Handler
  unfolding with_body created
  post_call m torn_down port called body s =
      with_body body
        (λ want_video s'.
          created (plays m 0 (place_call tests now torn_down port want_video called s')))
        s

  -- `RestApi.hang_up`
  unfoldable pub delete_call :
      Awaits → (torn_down port : Outcome (Unit {0})) → ℕ → Service → Handler
  unfolding no_content
  delete_call m torn_down port call_id s =
      no_content (plays m 0 (hang_up tests now torn_down port call_id (ends (ok tt)) s))

  -- `RestApi._open`
  unfoldable pub post_open : ActuatorName → Await (Unit {0}) → Service → Handler
  unfolding no_content
  post_open actuator a s = no_content (open_actuator tests now actuator a s)

  -- `RestApi.open_door` and `RestApi.open_gate`
  unfoldable pub open_door : Await (Unit {0}) → Service → Handler
  unfolding post_open
  open_door a s = post_open ActuatorName.door a s

  unfoldable pub open_gate : Await (Unit {0}) → Service → Handler
  unfolding post_open
  open_gate a s = post_open ActuatorName.gate a s

  -- `RestApi.offer`, of the body's `sdp` and `call_id`
  unfoldable pub post_offer :
      Awaits
      → (replacing : Outcome (Unit {0})) → SessionView
      → Outcome String
      → (closing : Outcome (Unit {0})) → Outcome (String × Option ℕ)
      → Service
      → Handler
  unfolding with_body answered_with
  post_offer m replacing reading answering closing body s =
      with_body body
        (λ b s'.
          answered_with (plays m 0 (offer tests now replacing reading answering closing b.1 s')))
        s

  -- `RestApi.close_session`
  unfoldable pub delete_session : Awaits → Outcome (Unit {0}) → ℕ → Service → Handler
  unfolding no_content
  delete_session m torn_down id s = no_content (plays m 0 (close_session tests now torn_down id s))

module _ (now : ℕ) where
  -- `RestApi.answer`
  unfoldable pub post_answer : Await (Unit {0}) → ℕ → Service → Handler
  unfolding no_content
  post_answer a call_id s = no_content (answer_call now a call_id s)

  -- `RestApi.set_mic`, of the body's `muted`
  unfoldable pub post_mic : Await (Unit {0}) → Outcome Bool → Service → Handler
  unfolding with_body no_content
  post_mic a body s = with_body body (λ muted s'. no_content (set_mic_muted now a muted s')) s

-- What the middleware sees of a handler.
unfoldable pub handled : Outcome Answer → Handled
handled (ok answer) = answers answer.0
handled (raised e) = raises e

-- The status that goes out.
unfoldable pub status_of : SdkClasses → Handler → Handled
unfolding handled error_middleware
status_of sdk ran = error_middleware sdk (handled ran.0)
