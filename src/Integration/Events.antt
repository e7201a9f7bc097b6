-- ===== src/Integration/Events.antt =====
-- custom_components/urmet/events.py: one frame of the event stream, decoded, as a typed event.
pub mod Wire
pub mod RoundTrip
pub mod Unknown
use urmet_ha.Prelude.{ℕ, String, ◌≡◌, Bool, true, false, Option, none, some, if◌then◌else◌}
use text.Mathlib.Text.{◌==◌ as same_text}
use urmet_ha.Domain.Errors.{Outcome, ok, raised, ◌>>=◌}
use urmet_ha.Integration.Json
use urmet_ha.Integration.Json.{ℤ, Json, Fields, get, get_or, Conversions, str, int, truth}
use urmet_ha.Integration.Models
use urmet_ha.Integration.Models.{
  CallState, CallDirection, SessionState, DoorphoneView, StateView, parse_at, call_state,
  call_direction, session_state, doorphone_from, state_from, empty, zero_int,
}

-- An event whose type is not known keeps the whole frame.
pub data GatewayEvent : Type 0 where
  state_event : (at : Option ℕ) (state : StateView) → GatewayEvent
  ring_event :
      (at : Option ℕ) (doorphone : Option DoorphoneView) (call_id : Option String) → GatewayEvent
  call_event :
      (at : Option ℕ) (call_id : String) (state : CallState) (direction : Option CallDirection)
      → GatewayEvent
  open_event :
      (at : Option ℕ) (actuator : String) (acknowledged : Bool) (call_id : Option String)
      → GatewayEvent
  registration_event :
      (at : Option ℕ) (registered : Bool) (status_code : ℤ) (reason : String)
      (released : Option Bool)
      → GatewayEvent
  webrtc_event :
      (at : Option ℕ) (session_id : String) (call_id : Option String) (state : SessionState)
      (reason : String)
      → GatewayEvent
  unknown_event : (at : Option ℕ) (kind : String) (raw : Fields) → GatewayEvent

-- What `data.get(key)` gives, as `x if value is not None else None` sees it.
unfoldable pub present : Option Json → Option Json
present none = none
present (some Json.null) = none
present (some value) = some value

module _ (py : Conversions) where
  -- `_opt_str(data.get(key))`
  unfoldable pub opt_str : Option Json → Option String
  unfolding present str
  opt_str value = elim (present value) [ none ↦ none | some v ↦ some (str py v) ]

  -- `_doorphone(data.get(key))`
  unfoldable pub doorphone_of : Option Json → Outcome (Option DoorphoneView)
  unfolding doorphone_from
  doorphone_of (some (Json.object payload)) = do d ← doorphone_from py payload; ok (some d)
  doorphone_of (some (Json.text (String.◌∷◌ c s))) =
      ok (some (record { mac = String.◌∷◌ c s; name = "" }))
  doorphone_of value = ok none

  -- `bool(released) if released is not None else None`
  unfoldable pub opt_bool : Option Json → Option Bool
  unfolding present truth
  opt_bool value = elim (present value) [ none ↦ none | some v ↦ some (truth py v) ]

-- `_direction(data.get(key))`
unfoldable pub opt_direction : Option Json → Option CallDirection
unfolding present call_direction
opt_direction value = elim (present value) [ none ↦ none | some v ↦ some (call_direction v) ]

module _ (py : Conversions) (parse_datetime : String → Option ℕ) where
  unfoldable pub parse_event : Fields → Outcome GatewayEvent
  unfolding get get_or str int truth parse_at state_from doorphone_of opt_str opt_bool opt_direction
      call_state session_state
  parse_event payload =
      let at = parse_at parse_datetime payload in
      let kind = str py (get_or empty "type" payload) in
      if same_text kind "state"
      then (do view ← state_from py payload; ok (state_event at view))
      else if same_text kind "ring"
      then (do
        doorphone ← doorphone_of py (get "doorphone" payload)
        ok (ring_event at doorphone (opt_str py (get "call_id" payload))))
      else if same_text kind "call"
      then ok (
          call_event at (str py (get_or empty "call_id" payload))
            (call_state (get_or empty "state" payload)) (opt_direction (get "direction" payload)))
      else if same_text kind "open"
      then ok (
          open_event at (str py (get_or empty "actuator" payload))
            (truth py (get_or (Json.boolean false) "acknowledged" payload))
            (opt_str py (get "call_id" payload)))
      else if same_text kind "registration"
      then (do
        code ← int py (get_or zero_int "status_code" payload)
        ok (
            registration_event at (truth py (get_or (Json.boolean false) "registered" payload)) code
              (str py (get_or empty "reason" payload)) (opt_bool py (get "released" payload))))
      else if same_text kind "webrtc"
      then ok (
          webrtc_event at (str py (get_or empty "session_id" payload))
            (opt_str py (get "call_id" payload)) (session_state (get_or empty "state" payload))
            (str py (get_or empty "reason" payload)))
      else ok (unknown_event at kind payload)
