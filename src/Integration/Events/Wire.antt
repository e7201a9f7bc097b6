-- ===== src/Integration/Events/Wire.antt =====
-- What a frame of the event stream carries, by the field names of
-- addon/urmet-gateway/urmet_gateway/domain/models.py, and the mirror of each value that it may carry.
-- Fields of other names are free.
use urmet_ha.Prelude.{ℕ, String, ◌≡◌, Option, none, some, List, [], ◌∷◌, map}
use mathlib.Core.Option
use urmet_ha.Domain
use urmet_ha.Domain.{
  Direction, ActuatorName, Event, CallView, DoorphoneView, VideoFlow, AudioFlow, SessionView,
  StateView,
}
use urmet_ha.Integration.Json.{ℤ, Json, Items, nil, cons, Fields, get}
use urmet_ha.Integration.Models
use urmet_ha.Integration.Events
use urmet_ha.Integration.Events.{GatewayEvent}

-- How the gateway prints its ids, instants and times, and the words of the SDK's states, which are
-- those that the integration mirrors.
pub record Printing : Type 0 where
  pub call_id : ℕ → String
  pub session_id : ℕ → String
  pub instant : ℕ → String
  -- The pattern of the float of so many units of time.
  pub milliseconds : ℕ → ℕ
  pub state_word : Domain.CallState → String
  pub state_words :
      (state_word Domain.CallState.idle ≡ "idle")
      × (state_word Domain.CallState.ringing ≡ "ringing")
      × (state_word Domain.CallState.connecting ≡ "connecting")
      × (state_word Domain.CallState.streaming ≡ "streaming")
      × (state_word Domain.CallState.ended ≡ "ended")
      × (state_word Domain.CallState.error ≡ "error")

-- `Direction`, `ActuatorName` and `SessionState` by their values.
unfoldable pub direction_word : Direction → String
direction_word Direction.incoming = "incoming"
direction_word Direction.outgoing = "outgoing"

unfoldable pub actuator_word : ActuatorName → String
actuator_word ActuatorName.door = "door"
actuator_word ActuatorName.gate = "gate"

unfoldable pub session_word : Domain.SessionState → String
session_word Domain.SessionState.opened = "open"
session_word Domain.SessionState.waiting = "waiting"
session_word Domain.SessionState.degraded = "degraded"
session_word Domain.SessionState.closed = "closed"

-- The mirrors.
abbrev pub mirror_state : Domain.CallState → Models.CallState
mirror_state Domain.CallState.idle = Models.CallState.idle
mirror_state Domain.CallState.ringing = Models.CallState.ringing
mirror_state Domain.CallState.connecting = Models.CallState.connecting
mirror_state Domain.CallState.streaming = Models.CallState.streaming
mirror_state Domain.CallState.ended = Models.CallState.ended
mirror_state Domain.CallState.error = Models.CallState.error

abbrev pub mirror_direction : Direction → Models.CallDirection
mirror_direction Direction.incoming = Models.CallDirection.incoming
mirror_direction Direction.outgoing = Models.CallDirection.outgoing

abbrev pub mirror_session_state : Domain.SessionState → Models.SessionState
mirror_session_state Domain.SessionState.opened = Models.SessionState.opened
mirror_session_state Domain.SessionState.waiting = Models.SessionState.waiting
mirror_session_state Domain.SessionState.degraded = Models.SessionState.degraded
mirror_session_state Domain.SessionState.closed = Models.SessionState.closed

abbrev pub mirror_doorphone : DoorphoneView → Models.DoorphoneView
mirror_doorphone d = record { mac = d.mac; name = d.name }

abbrev pub mirror_video : VideoFlow → Models.VideoStats
mirror_video v = record {
  width = ℤ.pos v.width;
  height = ℤ.pos v.height;
  packets_sent = ℤ.pos v.packets_sent;
  packets_dropped = ℤ.pos v.packets_dropped;
}

module _ (p : Printing) where
  abbrev pub mirror_call : CallView → Models.CallView
  mirror_call c = record {
    id = p.call_id c.id;
    state = mirror_state c.state;
    direction = mirror_direction c.direction;
  }

  abbrev pub mirror_audio : AudioFlow → Models.AudioStats
  mirror_audio a = record {
    from_doorphone = ℤ.pos a.from_doorphone;
    to_browser = ℤ.pos a.to_browser;
    to_doorphone = ℤ.pos a.to_doorphone;
    silence_sent = ℤ.pos a.silence_sent;
    partial_from_doorphone = ℤ.pos a.partial_from_doorphone;
    dropped_from_doorphone = ℤ.pos a.dropped_from_doorphone;
    dropped_to_doorphone = ℤ.pos a.dropped_to_doorphone;
    max_callback_ms = p.milliseconds a.max_callback;
    budget_ms = p.milliseconds a.budget;
  }

  abbrev pub mirror_session : SessionView → Models.SessionView
  mirror_session s = record {
    session_id = p.session_id s.session_id;
    call_id = p.call_id s.call_id;
    state = mirror_session_state s.state;
    connection = s.connection;
    reason = s.reason;
    video = Option.map mirror_video s.video;
    audio = Option.map mirror_audio s.audio;
  }

  abbrev pub mirror_view : StateView → Models.StateView
  mirror_view v = record {
    registered = v.registered;
    doorphone = Option.map mirror_doorphone v.doorphone;
    calls = map mirror_call v.calls;
    mic_muted = v.mic_muted;
    sessions = map mirror_session v.sessions;
  }

  -- An instant is read as `at`, and the open event has no dialog.
  abbrev pub mirror_event : Event → GatewayEvent
  mirror_event (Domain.state_event at view) = Events.state_event (some at) (mirror_view view)
  mirror_event (Domain.ring_event at doorphone id) =
      Events.ring_event (some at) (some (mirror_doorphone doorphone)) (some (p.call_id id))
  mirror_event (Domain.call_event at id state direction) =
      Events.call_event (some at) (p.call_id id) (mirror_state state)
        (some (mirror_direction direction))
  mirror_event (Domain.open_event at actuator acknowledged) =
      Events.open_event (some at) (actuator_word actuator) acknowledged none
  mirror_event (Domain.registration_event at registered code reason released) =
      Events.registration_event (some at) registered (ℤ.pos code) reason (some released)
  mirror_event (Domain.webrtc_event at session id state reason) =
      Events.webrtc_event (some at) (p.session_id session) (some (p.call_id id))
        (mirror_session_state state) reason

-- A value of the JSON object under a key.
abbrev pub Has : String → Json → Fields → Type 0
Has key value fields = get key fields ≡ some value

abbrev pub number : ℕ → Json
number n = Json.integer (ℤ.pos n)

-- A model that may be null.
abbrev pub CarriesOption :
    {A : Type 0} → (A → Fields → Type 0) → String → Option A → Fields → Type 0
CarriesOption C key none fields = Has key Json.null fields
CarriesOption C key (some a) fields =
    (inner : Fields) × Has key (Json.object inner) fields × C a inner

abbrev pub CarriesItems : {A : Type 0} → (A → Fields → Type 0) → List A → Items → Type 0
CarriesItems C [] items = items ≡ nil
CarriesItems C (a ∷ as_) items =
    (inner : Fields) × (rest : Items) × (items ≡ cons (Json.object inner) rest)
    × C a inner
    × CarriesItems C as_ rest

abbrev pub CarriesList : {A : Type 0} → (A → Fields → Type 0) → String → List A → Fields → Type 0
CarriesList C key as_ fields =
    (items : Items) × Has key (Json.array items) fields × CarriesItems C as_ items

abbrev pub CarriesDoorphone : DoorphoneView → Fields → Type 0
CarriesDoorphone d fields =
    Has "mac" (Json.text d.mac) fields × Has "name" (Json.text d.name) fields

abbrev pub CarriesVideo : VideoFlow → Fields → Type 0
CarriesVideo v fields =
    Has "width" (number v.width) fields
    × Has "height" (number v.height) fields
    × Has "packets_sent" (number v.packets_sent) fields
    × Has "packets_dropped" (number v.packets_dropped) fields

module _ (p : Printing) where
  abbrev pub CarriesCall : CallView → Fields → Type 0
  CarriesCall c fields =
      Has "id" (Json.text (p.call_id c.id)) fields
      × Has "state" (Json.text (p.state_word c.state)) fields
      × Has "direction" (Json.text (direction_word c.direction)) fields

  abbrev pub CarriesAudio : AudioFlow → Fields → Type 0
  CarriesAudio a fields =
      Has "from_doorphone" (number a.from_doorphone) fields
      × Has "to_browser" (number a.to_browser) fields
      × Has "to_doorphone" (number a.to_doorphone) fields
      × Has "silence_sent" (number a.silence_sent) fields
      × Has "partial_from_doorphone" (number a.partial_from_doorphone) fields
      × Has "dropped_from_doorphone" (number a.dropped_from_doorphone) fields
      × Has "dropped_to_doorphone" (number a.dropped_to_doorphone) fields
      × Has "max_callback_ms" (Json.float (p.milliseconds a.max_callback)) fields
      × Has "budget_ms" (Json.float (p.milliseconds a.budget)) fields

  abbrev pub CarriesSession : SessionView → Fields → Type 0
  CarriesSession s fields =
      Has "session_id" (Json.text (p.session_id s.session_id)) fields
      × Has "call_id" (Json.text (p.call_id s.call_id)) fields
      × Has "state" (Json.text (session_word s.state)) fields
      × Has "connection" (Json.text s.connection) fields
      × Has "reason" (Json.text s.reason) fields
      × CarriesOption CarriesVideo "video" s.video fields
      × CarriesOption CarriesAudio "audio" s.audio fields

  abbrev pub CarriesView : StateView → Fields → Type 0
  CarriesView v fields =
      Has "registered" (Json.boolean v.registered) fields
      × CarriesOption CarriesDoorphone "doorphone" v.doorphone fields
      × CarriesList CarriesCall "calls" v.calls fields
      × Has "mic_muted" (Json.boolean v.mic_muted) fields
      × CarriesList CarriesSession "sessions" v.sessions fields

  abbrev pub CarriesStamp : String → ℕ → Fields → Type 0
  CarriesStamp kind at fields =
      Has "type" (Json.text kind) fields × Has "at" (Json.text (p.instant at)) fields

  -- The open event of the gateway has no field of a dialog.
  abbrev pub Carries : Event → Fields → Type 0
  Carries (Domain.state_event at view) fields =
      CarriesStamp "state" at fields × CarriesView view fields
  Carries (Domain.ring_event at doorphone id) fields =
      CarriesStamp "ring" at fields
      × CarriesOption CarriesDoorphone "doorphone" (some doorphone) fields
      × Has "call_id" (Json.text (p.call_id id)) fields
  Carries (Domain.call_event at id state direction) fields =
      CarriesStamp "call" at fields
      × Has "call_id" (Json.text (p.call_id id)) fields
      × Has "state" (Json.text (p.state_word state)) fields
      × Has "direction" (Json.text (direction_word direction)) fields
  Carries (Domain.open_event at actuator acknowledged) fields =
      CarriesStamp "open" at fields
      × Has "actuator" (Json.text (actuator_word actuator)) fields
      × Has "acknowledged" (Json.boolean acknowledged) fields
      × (get "call_id" fields ≡ none)
  Carries (Domain.registration_event at registered code reason released) fields =
      CarriesStamp "registration" at fields
      × Has "registered" (Json.boolean registered) fields
      × Has "status_code" (number code) fields
      × Has "reason" (Json.text reason) fields
      × Has "released" (Json.boolean released) fields
  Carries (Domain.webrtc_event at session id state reason) fields =
      CarriesStamp "webrtc" at fields
      × Has "session_id" (Json.text (p.session_id session)) fields
      × Has "call_id" (Json.text (p.call_id id)) fields
      × Has "state" (Json.text (session_word state)) fields
      × Has "reason" (Json.text reason) fields

-- pydantic's `model_dump_json`, decoded: each field under its name.
pub record Serializer (p : Printing) : Type 0 where
  pub dump : Event → Fields
  pub carried : (e : Event) → Carries p e (dump e)
