-- ===== src/Integration/Doorbell.antt =====
-- custom_components/urmet/event.py: the two event entities. Instants of `time.monotonic()` and the
-- window are in milliseconds.
pub mod Coalescing
use urmet_ha.Prelude.{
  ℕ, ◌-◌, ◌+◌, String, ◌≡◌, Bool, true, false, ◌||◌, Option, none, some, List, [], ◌∷◌, ◌++◌, ltb,
  if◌then◌else◌,
}
use text.Mathlib.Text.{◌==◌ as same_text}
use urmet_ha.Integration.Models.{DoorphoneView}
use urmet_ha.Integration.Events.{GatewayEvent, ring_event, open_event}
use urmet_ha.Integration.Commands.{PendingOpen, Entry, take_open}

-- `DEFAULT_RING_COALESCE`, of an entry without the option
abbrev pub default_ring_coalesce : ℕ
default_ring_coalesce = 5000

unfoldable pub window_of : Option ℕ → ℕ
window_of none = default_ring_coalesce
window_of (some ring_coalesce) = ring_coalesce

-- What a fired ring says.
pub record Ring : Type 0 where
  pub call_id : Option String
  pub doorphone : Option String
  pub name : Option String

pub record Doorbell : Type 0 where
  pub last_fire : Option ℕ
  pub fired : List (ℕ × Ring)

abbrev pub new_doorbell : Doorbell
new_doorbell = record { last_fire = none; fired = [] }

unfoldable pub is_burst : ℕ → ℕ → Option ℕ → Bool
is_burst window now none = false
is_burst window now (some last) = ltb (now - last) window

unfoldable pub ring_of : Option DoorphoneView → Option String → Ring
ring_of none call_id = record { call_id = call_id; doorphone = none; name = none }
ring_of (some d) call_id = record { call_id = call_id; doorphone = some d.mac; name = some d.name }

-- `DoorbellEvent._handle_gateway_event` at an instant
unfoldable pub hear_ring : ℕ → ℕ → GatewayEvent → Doorbell → Doorbell
unfolding is_burst ring_of
hear_ring window now (ring_event at doorphone call_id) d =
    if is_burst window now d.last_fire
    then d
    else record { last_fire = some now; fired = d.fired ++ (now, ring_of doorphone call_id) ∷ [] }
hear_ring window now event d = d

unfoldable pub hear_all : ℕ → List (ℕ × GatewayEvent) → Doorbell → Doorbell
unfolding hear_ring
hear_all window [] d = d
hear_all window ((now, event) ∷ heard) d = hear_all window heard (hear_ring window now event d)

-- What a fired open says, and to whom it is credited.
pub record Opened : Type 0 where
  pub actuator : String
  pub acknowledged : Bool
  pub call_id : Option String
  pub origin : String
  pub context : Option ℕ

unfoldable pub opened_by : String → Bool → Option String → PendingOpen → Opened
opened_by actuator acknowledged call_id pending = record {
  actuator = actuator;
  acknowledged = acknowledged;
  call_id = call_id;
  origin = pending.origin;
  context = pending.context;
}

-- `ActuatorEvent._handle_gateway_event`
unfoldable pub hear_open : GatewayEvent → Entry × List Opened → Entry × List Opened
unfolding take_open opened_by
hear_open (open_event at actuator acknowledged call_id) (entry, opened) =
    let taken = take_open entry in
    if same_text actuator "door" || same_text actuator "gate"
    then (taken.1, opened ++ opened_by actuator acknowledged call_id taken.0 ∷ [])
    else (entry, opened)
hear_open event state = state
