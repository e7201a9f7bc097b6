-- ===== src/Integration/Sensors.antt =====
-- custom_components/urmet/sensor.py, and what binary_sensor.py, switch.py and entity.py read of the
-- coordinator's data.
pub mod Counting
use urmet_ha.Prelude.{
  ℕ, suc, ◌+◌, String, ◌≡◌, Bool, true, false, not, ◌&&◌, Option, none, some, is_some, List, [],
  ◌∷◌, ◌==◌, if◌then◌else◌, non_empty,
}
use text.Mathlib.Text.{◌==◌ as same_text}
use urmet_ha.Integration.Json.{ℤ}
use urmet_ha.Integration.Models.{CallState, CallView, StateView, is_active, is_faulted}
use urmet_ha.Integration.Events.{
  GatewayEvent, ring_event, open_event, registration_event, webrtc_event,
}

-- A call state's value, less what `CALL_STATE_OPTIONS` leaves out.
unfoldable pub call_state_option : CallState → Option String
call_state_option CallState.idle = some "idle"
call_state_option CallState.ringing = some "ringing"
call_state_option CallState.connecting = some "connecting"
call_state_option CallState.streaming = some "streaming"
call_state_option CallState.ended = some "ended"
call_state_option CallState.error = some "error"
call_state_option CallState.unknown = none

-- `next((c.state for c in data.calls if c.state.is_active), None)`
unfoldable pub first_active : List CallView → Option CallState
unfolding is_active
first_active [] = none
first_active (c ∷ calls) =
    let rest = first_active calls in if is_active c.state then some c.state else rest

-- `data.calls[-1].state if data.calls else CallState.IDLE`
unfoldable pub last_state : List CallView → CallState
last_state [] = CallState.idle
last_state (c ∷ []) = c.state
last_state (c ∷ d ∷ calls) = last_state (d ∷ calls)

-- `CallStateSensor.native_value`
unfoldable pub call_state_value : Option StateView → Option String
unfolding call_state_option first_active last_state
call_state_value none = none
call_state_value (some view) = elim (first_active view.calls) [
  | none ↦ call_state_option (last_state view.calls)
  | some state ↦ call_state_option state
]

any_active : List CallView → Bool
unfolding is_active
any_active [] = false
any_active (c ∷ calls) = let rest = any_active calls in if is_active c.state then true else rest

-- `CallActiveBinarySensor.is_on`
unfoldable pub call_active : Option StateView → Option Bool
unfolding any_active
call_active none = none
call_active (some view) = some (any_active view.calls)

-- `RegistrationBinarySensor.is_on`
unfoldable pub registered_on : Option StateView → Option Bool
registered_on none = none
registered_on (some view) = some view.registered

-- `MicrophoneSwitch.is_on`
unfoldable pub microphone_on : Option StateView → Option Bool
microphone_on none = none
microphone_on (some view) = some (not view.mic_muted)

-- `UrmetEntity.available`, with the base class's answer
unfoldable pub available : Bool → Option StateView → Bool
available base view = base && is_some view

-- The value of an event sensor, and how often its state was written.
pub record Sensor (V : Type 0) : Type 0 where
  pub value : Option V
  pub writes : ℕ

module _ {V : Type 0} (same : V → V → Bool) where
  differs : V → Option V → Bool
  differs new none = true
  differs new (some old) = not (same new old)

  -- `_EventSensor._handle`, on what `_reduce` gives of the event and the value
  unfoldable pub handle : (GatewayEvent → Option V → Option V) → GatewayEvent → Sensor V → Sensor V
  unfolding differs
  handle reduce event s = elim (reduce event s.value) [
    | none ↦ s
    | some new ↦
        (if differs new s.value then record { value = some new; writes = suc s.writes } else s)
  ]

  unfoldable pub handle_all :
      (GatewayEvent → Option V → Option V) → List GatewayEvent → Sensor V → Sensor V
  unfolding handle
  handle_all reduce [] s = s
  handle_all reduce (event ∷ events) s = handle_all reduce events (handle reduce event s)

  -- `__init__` and `async_added_to_hass`, with `_default`, `_restore_enabled` and the last native value
  unfoldable pub added : Option V → Bool → Option V → Sensor V
  added default restore_enabled last =
      let kept : Option V = elim last [ none ↦ default | some v ↦ some v ] in
      record { value = if restore_enabled then kept else default; writes = 0 }

-- `LastRingSensor._reduce`, with `dt_util.utcnow()`
unfoldable pub reduce_last_ring : ℕ → GatewayEvent → Option ℕ → Option ℕ
reduce_last_ring utcnow (ring_event at doorphone call_id) value = elim at [
  | none ↦ some utcnow
  | some t ↦ some t
]
reduce_last_ring utcnow event value = none

-- `CounterSensor._reduce`
unfoldable pub reduce_counter : (GatewayEvent → Bool) → GatewayEvent → Option ℕ → Option ℕ
reduce_counter matches event none = none
reduce_counter matches event (some n) = if matches event then some (n + 1) else none

-- `RegStatusSensor._reduce`
unfoldable pub reduce_reg_status : GatewayEvent → Option ℤ → Option ℤ
reduce_reg_status (registration_event at registered status_code reason released) value =
    some status_code
reduce_reg_status event value = none

-- `LastErrorSensor._reduce`
unfoldable pub reduce_last_error : GatewayEvent → Option String → Option String
unfolding is_faulted
reduce_last_error (registration_event at registered status_code reason released) value =
    if non_empty reason then some reason else none
reduce_last_error (webrtc_event at session_id call_id state reason) value =
    if non_empty reason && is_faulted state then some reason else none
reduce_last_error event value = none

unfoldable pub is_ring : GatewayEvent → Bool
is_ring (ring_event at doorphone call_id) = true
is_ring event = false

unfoldable pub is_door : GatewayEvent → Bool
is_door (open_event at actuator acknowledged call_id) = same_text actuator "door" && acknowledged
is_door event = false

unfoldable pub is_gate : GatewayEvent → Bool
is_gate (open_event at actuator acknowledged call_id) = same_text actuator "gate" && acknowledged
is_gate event = false
