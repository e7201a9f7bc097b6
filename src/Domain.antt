-- ===== src/Domain.antt =====
-- addon/urmet-gateway/urmet_gateway/domain/models.py: the vocabulary of the wire. Call ids are only
-- compared, and session ids are the printed counter of the sessions, so both are numbers. Instants
-- and flow counters are numbers. The states of a call are the SDK's, as
-- custom_components/urmet/models.py mirrors them.
pub mod Errors
use urmet_ha.Prelude.{ℕ, String, ◌≡◌, refl, Bool, true, false, Option, List, ◌==◌, arith, ◌↔◌}

pub data Direction : Type 0 where
  incoming outgoing : Direction

pub data ActuatorName : Type 0 where
  door gate : ActuatorName

-- `urmet_sdk.Actuator`, the two values that `ActuatorName.signal` names.
pub data Actuator : Type 0 where
  door gate : Actuator

unfoldable pub signal : ActuatorName → Actuator
signal ActuatorName.door = Actuator.door
signal ActuatorName.gate = Actuator.gate

pub data SessionState : Type 0 where
  opened waiting degraded closed : SessionState

pub data CallState : Type 0 where
  idle ringing connecting streaming ended error : CallState

state_code : CallState → ℕ
state_code idle = 0
state_code ringing = 1
state_code connecting = 2
state_code streaming = 3
state_code ended = 4
state_code error = 5

-- `a is b` on the states.
unfoldable pub same_state : CallState → CallState → Bool
unfolding state_code
same_state a b = state_code a == state_code b

pub same_state_iff : (a b : CallState) → (same_state a b ≡ true) ↔ (a ≡ b)
unfolding same_state
same_state_iff a b = ground arith

-- What the gateway asks of a state is code of the SDK: a parameter, with what its names say.
pub record CallTests : Type 0 where
  pub is_streaming : CallState → Bool
  pub is_terminal : CallState → Bool
  pub streams : is_streaming streaming ≡ true
  pub over : (s : CallState) → is_terminal s ≡ true → is_streaming s ≡ false

pub record CallHandle : Type 0 where
  pub id : ℕ
  -- The native dialog that the handle stands for.
  pub native : ℕ

-- The SDK's doorphone, and the view of it.
pub record Doorphone : Type 0 where
  pub mac : String
  pub name : String

pub record DoorphoneView : Type 0 where
  pub mac : String
  pub name : String

-- `DoorphoneView.of`.
unfoldable pub view_of : Doorphone → DoorphoneView
view_of d = record { mac = d.mac; name = d.name }

pub record CallView : Type 0 where
  pub id : ℕ
  pub state : CallState
  pub direction : Direction

pub record VideoFlow : Type 0 where
  pub width : ℕ
  pub height : ℕ
  pub packets_sent : ℕ
  pub packets_dropped : ℕ

-- The two times are in the unit of `AudioMeasurement`.
pub record AudioFlow : Type 0 where
  pub from_doorphone : ℕ
  pub to_browser : ℕ
  pub to_doorphone : ℕ
  pub silence_sent : ℕ
  pub partial_from_doorphone : ℕ
  pub dropped_from_doorphone : ℕ
  pub dropped_to_doorphone : ℕ
  pub max_callback : ℕ
  pub budget : ℕ

pub record SessionView : Type 0 where
  pub session_id : ℕ
  pub call_id : ℕ
  pub state : SessionState
  pub connection : String
  pub reason : String
  pub video : Option VideoFlow
  pub audio : Option AudioFlow

pub record SessionAnswer : Type 0 where
  pub session_id : ℕ
  pub call_id : ℕ
  pub sdp : String

pub record StateView : Type 0 where
  pub registered : Bool
  pub doorphone : Option DoorphoneView
  pub calls : List CallView
  pub mic_muted : Bool
  pub sessions : List SessionView

pub data Event : Type 0 where
  state_event : (at : ℕ) (view : StateView) → Event
  ring_event : (at : ℕ) (doorphone : DoorphoneView) (call_id : ℕ) → Event
  call_event : (at : ℕ) (call_id : ℕ) (state : CallState) (direction : Direction) → Event
  open_event : (at : ℕ) (actuator : ActuatorName) (acknowledged : Bool) → Event
  registration_event :
      (at : ℕ) (registered : Bool) (status_code : ℕ) (reason : String) (released : Bool) → Event
  webrtc_event : (at : ℕ) (session_id call_id : ℕ) (state : SessionState) (reason : String) → Event
