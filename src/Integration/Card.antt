-- ===== src/Integration/Card.antt =====
-- custom_components/urmet/websocket_api.py: the three commands of the card.
pub mod Payload
use urmet_ha.Prelude.{
  ℕ, String, ◌≡◌, Bool, true, false, not, Option, none, some, List, [], ◌∷◌, ◌++◌, ◌==◌,
  if◌then◌else◌, non_empty,
}
use urmet_ha.Integration.Json
use urmet_ha.Integration.Json.{
  ℤ, Json, Items, nil, cons, Fields, end, field, get, Conversions, str, truth,
}
use urmet_ha.Integration.Models
use urmet_ha.Integration.Models.{
  CallState, CallDirection, SessionState, DoorphoneView, CallView, VideoStats, AudioStats,
  SessionView, StateView,
}
use urmet_ha.Integration.Events
use urmet_ha.Integration.Events.{GatewayEvent, state_event}
use urmet_ha.Integration.Client.{Client, add_event_listener}
use urmet_ha.Integration.Client.Requests.{
  Got, got, connection_error, other_failure, GatewayResponse,
}
use urmet_ha.Integration.Repairs.{Monitor, note_offer_status}

-- The value of an enumeration's member, as `asdict` leaves it and JSON writes it.
unfoldable pub state_value : CallState → String
state_value CallState.idle = "idle"
state_value CallState.ringing = "ringing"
state_value CallState.connecting = "connecting"
state_value CallState.streaming = "streaming"
state_value CallState.ended = "ended"
state_value CallState.error = "error"
state_value CallState.unknown = "unknown"

unfoldable pub direction_value : CallDirection → String
direction_value CallDirection.incoming = "incoming"
direction_value CallDirection.outgoing = "outgoing"
direction_value CallDirection.unknown = "unknown"

unfoldable pub session_value : SessionState → String
session_value SessionState.opened = "open"
session_value SessionState.waiting = "waiting"
session_value SessionState.degraded = "degraded"
session_value SessionState.closed = "closed"
session_value SessionState.unknown = "unknown"

-- `asdict` of the models
unfoldable pub doorphone_dict : DoorphoneView → Fields
doorphone_dict d = field "mac" (Json.text d.mac) (field "name" (Json.text d.name) end)

unfoldable pub call_dict : CallView → Fields
unfolding state_value direction_value
call_dict c = field "id" (Json.text c.id) (
    field "state" (Json.text (state_value c.state))
      (field "direction" (Json.text (direction_value c.direction)) end))

unfoldable pub video_dict : VideoStats → Fields
video_dict v = field "width" (Json.integer v.width) (
    field "height" (Json.integer v.height) (
      field "packets_sent" (Json.integer v.packets_sent)
        (field "packets_dropped" (Json.integer v.packets_dropped) end)))

unfoldable pub audio_dict : AudioStats → Fields
audio_dict a = field "from_doorphone" (Json.integer a.from_doorphone) (
    field "to_browser" (Json.integer a.to_browser) (
      field "to_doorphone" (Json.integer a.to_doorphone) (
        field "silence_sent" (Json.integer a.silence_sent) (
          field "partial_from_doorphone" (Json.integer a.partial_from_doorphone) (
            field "dropped_from_doorphone" (Json.integer a.dropped_from_doorphone) (
              field "dropped_to_doorphone" (Json.integer a.dropped_to_doorphone) (
                field "max_callback_ms" (Json.float a.max_callback_ms)
                  (field "budget_ms" (Json.float a.budget_ms) end))))))))

-- A value that may be null.
unfoldable pub opt : {A : Type 0} → (A → Json) → Option A → Json
opt write none = Json.null
opt write (some a) = write a

unfoldable pub list_of : {A : Type 0} → (A → Fields) → List A → Items
list_of write [] = nil
list_of write (a ∷ as_) = cons (Json.object (write a)) (list_of write as_)

unfoldable pub session_dict : SessionView → Fields
unfolding session_value opt video_dict audio_dict
session_dict s = field "session_id" (Json.text s.session_id) (
    field "call_id" (Json.text s.call_id) (
      field "state" (Json.text (session_value s.state)) (
        field "connection" (Json.text s.connection) (
          field "reason" (Json.text s.reason) (
            field "video" (opt (λ v. Json.object (video_dict v)) s.video)
              (field "audio" (opt (λ a. Json.object (audio_dict a)) s.audio) end))))))

unfoldable pub view_dict : StateView → Fields
unfolding opt list_of doorphone_dict call_dict session_dict
view_dict v = field "registered" (Json.boolean v.registered) (
    field "doorphone" (opt (λ d. Json.object (doorphone_dict d)) v.doorphone) (
      field "calls" (Json.array (list_of call_dict v.calls)) (
        field "mic_muted" (Json.boolean v.mic_muted)
          (field "sessions" (Json.array (list_of session_dict v.sessions)) end))))

-- `_event_payload`, with `isoformat`; a state's fields stand beside its type.
unfoldable pub event_payload : (ℕ → String) → GatewayEvent → Fields
unfolding opt view_dict doorphone_dict state_value direction_value session_value
event_payload iso (Events.state_event at view) =
    field "at" (opt (λ t. Json.text (iso t)) at) (field "type" (Json.text "state") (view_dict view))
event_payload iso (Events.ring_event at doorphone call_id) =
    field "at" (opt (λ t. Json.text (iso t)) at) (
      field "doorphone" (opt (λ d. Json.object (doorphone_dict d)) doorphone)
        (field "call_id" (opt Json.text call_id) (field "type" (Json.text "ring") end)))
event_payload iso (Events.call_event at call_id state direction) =
    field "at" (opt (λ t. Json.text (iso t)) at) (
      field "call_id" (Json.text call_id) (
        field "state" (Json.text (state_value state)) (
          field "direction" (opt (λ d. Json.text (direction_value d)) direction)
            (field "type" (Json.text "call") end))))
event_payload iso (Events.open_event at actuator acknowledged call_id) =
    field "at" (opt (λ t. Json.text (iso t)) at) (
      field "actuator" (Json.text actuator) (
        field "acknowledged" (Json.boolean acknowledged)
          (field "call_id" (opt Json.text call_id) (field "type" (Json.text "open") end))))
event_payload iso (Events.registration_event at registered status_code reason released) =
    field "at" (opt (λ t. Json.text (iso t)) at) (
      field "registered" (Json.boolean registered) (
        field "status_code" (Json.integer status_code) (
          field "reason" (Json.text reason) (
            field "released" (opt Json.boolean released)
              (field "type" (Json.text "registration") end)))))
event_payload iso (Events.webrtc_event at session_id call_id state reason) =
    field "at" (opt (λ t. Json.text (iso t)) at) (
      field "session_id" (Json.text session_id) (
        field "call_id" (opt Json.text call_id) (
          field "state" (Json.text (session_value state))
            (field "reason" (Json.text reason) (field "type" (Json.text "webrtc") end)))))
event_payload iso (Events.unknown_event at kind raw) = raw

-- What goes back to the card under a message's id: the result, an error, or an event.
pub data Sent : Type 0 where
  result : Option Fields → Sent
  not_found : Sent
  unknown_error : String → Sent
  event_message : Fields → Sent

-- What the handlers touch: the messages of the connection, and of the entry the client, the monitor
-- if one is attached, the coordinator's data and the requests, each with its path and body.
pub record Desk : Type 0 where
  pub sent : List Sent
  pub subscribed : Bool
  pub client : Client
  pub monitor : Option Monitor
  pub view : Option StateView
  pub asked : List (List String × Option Fields)

unfoldable pub send : Sent → Desk → Desk
send message d = record d { sent = d.sent ++ message ∷ [] }

-- `_forward`
unfoldable pub forward : (ℕ → String) → GatewayEvent → Desk → Desk
unfolding send event_payload
forward iso event d = send (event_message (event_payload iso event)) d

-- `websocket_subscribe`, with whether the entry is loaded, the listener that it adds and `utcnow()`
unfoldable pub subscribe : Bool → ℕ → ℕ → (ℕ → String) → Desk → Desk
unfolding send event_payload add_event_listener
subscribe loaded listener utcnow iso d =
    let joined =
      send (result none)
        (record d { subscribed = true; client = add_event_listener listener d.client }) in
    let shown : Desk = elim d.view [
      | none ↦ joined
      | some view ↦ send (event_message (event_payload iso (state_event (some utcnow) view))) joined
    ] in
    if loaded then shown else send not_found d

-- `repairs.note_offer_status`
unfoldable pub note_status : ℕ → Option Monitor → Option Monitor
unfolding note_offer_status
note_status status none = none
note_status status (some m) = some (note_offer_status status m)

-- An await of a request: what else runs, and what it comes to.
pub record Asking : Type 0 where
  pub meanwhile : Desk → Desk
  pub outcome : Got GatewayResponse

module _ (py : Conversions) (returned : ℕ → String) (failure : String) where
  -- `body.get("detail") or body.get("error")`
  first_true : Option Json → Option Json → Option Json
  unfolding truth
  first_true none other = other
  first_true (some value) other = if truth py value then some value else other

  -- `_detail`, with the text of a status
  unfoldable pub detail_of : Fields → ℕ → String
  unfolding first_true get str truth
  detail_of body status =
      let said = first_true (get "detail" body) (get "error" body) in
      elim said [
        | none ↦ returned status
        | some value ↦ (if truth py value then str py value else returned status)
      ]

  answered : Got GatewayResponse → Desk → Desk
  unfolding send note_status detail_of
  answered (got resp) d =
      let noted = record d { monitor = note_status resp.status d.monitor } in
      if resp.status == 201
      then send (result (some resp.body)) noted
      else send (unknown_error (detail_of resp.body resp.status)) noted
  answered connection_error d = send (unknown_error failure) d
  answered other_failure d = d

  -- `websocket_webrtc_offer`
  unfoldable pub webrtc_offer : Bool → String → Option String → Asking → Desk → Desk
  unfolding send answered opt
  webrtc_offer loaded sdp call_id a d =
      let body =
        field "sdp" (Json.text sdp)
          (field "type" (Json.text "offer") (field "call_id" (opt Json.text call_id) end)) in
      let asked = record d {
        asked = d.asked ++ ("api" ∷ "webrtc" ∷ "offer" ∷ [], some body) ∷ [];
      } in
      if loaded then answered a.outcome (a.meanwhile asked) else send not_found d

  closed_out : Got GatewayResponse → Desk → Desk
  unfolding send
  closed_out (got resp) d = send (result (some end)) d
  closed_out connection_error d = send (unknown_error failure) d
  closed_out other_failure d = d

  -- `websocket_webrtc_close`
  unfoldable pub webrtc_close : Bool → String → Asking → Desk → Desk
  unfolding send closed_out
  webrtc_close loaded session_id a d =
      let asked = record d {
        asked = d.asked ++ ("api" ∷ "webrtc" ∷ "session" ∷ session_id ∷ [], none) ∷ [];
      } in
      if loaded then closed_out a.outcome (a.meanwhile asked) else send not_found d
