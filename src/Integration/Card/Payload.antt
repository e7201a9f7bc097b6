-- ===== src/Integration/Card/Payload.antt =====
-- websocket_api.py: the frame that the card gets is read as the event that the integration heard.
use urmet_ha.Prelude.{
  ℕ, String, ◌≡◌, refl, ap, ◌⊎◌, inl, inr, Bool, Option, none, some, List, [], ◌∷◌,
}
use urmet_ha.Domain.Errors.{Outcome, ok}
use urmet_ha.Integration.Json.{
  Json, Fields, field, get, get_or, require, mapping, elements, Conversions, str, int, to_float,
  truth,
}
use urmet_ha.Integration.Models.{
  call_state, call_direction, session_state, doorphone_from, call_from, video_from, audio_from,
  session_from, state_from, when_mapping, each_mapping, parse_at, CallState, CallDirection,
  SessionState, DoorphoneView, CallView, SessionView, StateView, VideoStats, AudioStats,
}
use urmet_ha.Integration.Events
use urmet_ha.Integration.Events.{
  GatewayEvent, parse_event, present, opt_str, opt_bool, opt_direction, doorphone_of,
}
use urmet_ha.Integration.Card.{
  state_value, direction_value, session_value, doorphone_dict, call_dict, video_dict, audio_dict,
  opt, list_of, session_dict, view_dict, event_payload,
}

call_state-value : (s : CallState) → call_state (Json.text (state_value s)) ≡ s
unfolding call_state state_value
call_state-value CallState.idle = refl
call_state-value CallState.ringing = refl
call_state-value CallState.connecting = refl
call_state-value CallState.streaming = refl
call_state-value CallState.ended = refl
call_state-value CallState.error = refl
call_state-value CallState.unknown = refl

call_direction-value : (d : CallDirection) → call_direction (Json.text (direction_value d)) ≡ d
unfolding call_direction direction_value
call_direction-value CallDirection.incoming = refl
call_direction-value CallDirection.outgoing = refl
call_direction-value CallDirection.unknown = refl

session_state-value : (s : SessionState) → session_state (Json.text (session_value s)) ≡ s
unfolding session_state session_value
session_state-value SessionState.opened = refl
session_state-value SessionState.waiting = refl
session_state-value SessionState.degraded = refl
session_state-value SessionState.closed = refl
session_state-value SessionState.unknown = refl

module _ {A : Type 0} (from_dict : Fields → Outcome A) (write : A → Fields)
    (reads : (a : A) → from_dict (write a) ≡ ok a) where
  when_mapping-opt :
      (o : Option A) → when_mapping from_dict (some (opt (λ a. Json.object (write a)) o)) ≡ ok o
  unfolding when_mapping mapping opt
  when_mapping-opt none = refl
  when_mapping-opt (some a) = rw (reads a) refl

  each_mapping-list : (as_ : List A) → each_mapping from_dict (list_of write as_) ≡ ok as_
  unfolding each_mapping mapping list_of
  each_mapping-list [] = refl
  each_mapping-list (a ∷ as_) = rw (reads a, each_mapping-list as_) refl

module _ (py : Conversions) where
  doorphone_from-dict : (d : DoorphoneView) → doorphone_from py (doorphone_dict d) ≡ ok d
  unfolding doorphone_from doorphone_dict require get_or get str
  doorphone_from-dict d = refl

  call_from-dict : (c : CallView) → call_from py (call_dict c) ≡ ok c
  unfolding call_from call_dict require get_or get str
  call_from-dict c = rw (call_state-value c.state, call_direction-value c.direction) refl

  video_from-dict : (v : VideoStats) → video_from py (video_dict v) ≡ ok v
  unfolding video_from video_dict get_or get int
  video_from-dict v = refl

  audio_from-dict : (a : AudioStats) → audio_from py (audio_dict a) ≡ ok a
  unfolding audio_from audio_dict get_or get int to_float
  audio_from-dict a = refl

  session_from-dict : (s : SessionView) → session_from py (session_dict s) ≡ ok s
  unfolding session_from session_dict require get_or get str
  session_from-dict s =
      rw
        (
          when_mapping-opt (video_from py) video_dict video_from-dict s.video,
          when_mapping-opt (audio_from py) audio_dict audio_from-dict s.audio,
          session_state-value s.state,
        )
        refl

  state_from-payload :
      (at type : Json) (v : StateView)
      → state_from py (field "at" at (field "type" type (view_dict v))) ≡ ok v
  unfolding state_from view_dict get_or get truth elements
  state_from-payload at type v =
      rw
        (
          when_mapping-opt (doorphone_from py) doorphone_dict doorphone_from-dict v.doorphone,
          each_mapping-list (call_from py) call_dict call_from-dict v.calls,
          each_mapping-list (session_from py) session_dict session_from-dict v.sessions,
        )
        refl

  doorphone_of-opt :
      (d : Option DoorphoneView)
      → doorphone_of py (some (opt (λ x. Json.object (doorphone_dict x)) d)) ≡ ok d
  unfolding doorphone_of opt
  doorphone_of-opt none = refl
  doorphone_of-opt (some d) = rw (doorphone_from-dict d) refl

  opt_str-opt : (s : Option String) → opt_str py (some (opt Json.text s)) ≡ s
  unfolding opt_str present opt str
  opt_str-opt none = refl
  opt_str-opt (some s) = refl

  opt_bool-opt : (b : Option Bool) → opt_bool py (some (opt Json.boolean b)) ≡ b
  unfolding opt_bool present opt truth
  opt_bool-opt none = refl
  opt_bool-opt (some b) = refl

opt_direction-opt :
    (d : Option CallDirection)
    → opt_direction (some (opt (λ x. Json.text (direction_value x)) d)) ≡ d
unfolding opt_direction present opt
opt_direction-opt none = refl
opt_direction-opt (some d) = ap some (call_direction-value d)

module _ (py : Conversions) (parse_datetime : String → Option ℕ) (iso : ℕ → String)
    (back : (t : ℕ) → parse_datetime (iso t) ≡ some t) where
  parse_at-opt :
      (at : Option ℕ) (rest : Fields)
      → parse_at parse_datetime (field "at" (opt (λ t. Json.text (iso t)) at) rest) ≡ at
  unfolding parse_at get opt
  parse_at-opt none rest = refl
  parse_at-opt (some t) rest = back t

  -- What the card is sent for an event reads back as that event: nothing of it is lost or changed on
  -- the way, also where it holds a word that this build does not know; an event of an unknown type is
  -- passed on as the frame that it came in. Instants must print to what is read back.
  pub parse_event-payload :
      (e : GatewayEvent)
      → (parse_event py parse_datetime (event_payload iso e) ≡ ok e)
        ⊎ ((at : Option ℕ) × (kind : String) × (raw : Fields) × (e
              ≡ Events.unknown_event at kind raw)
            × (event_payload iso e ≡ raw))
  unfolding parse_event event_payload get_or get str int truth
  parse_event-payload (Events.state_event at view) =
      inl (rw (state_from-payload py _ _ view, parse_at-opt at _) refl)
  parse_event-payload (Events.ring_event at doorphone call_id) =
      inl (rw (doorphone_of-opt py doorphone, opt_str-opt py call_id, parse_at-opt at _) refl)
  parse_event-payload (Events.call_event at call_id state direction) =
      inl (rw (call_state-value state, opt_direction-opt direction, parse_at-opt at _) refl)
  parse_event-payload (Events.open_event at actuator acknowledged call_id) =
      inl (rw (opt_str-opt py call_id, parse_at-opt at _) refl)
  parse_event-payload (Events.registration_event at registered status_code reason released) =
      inl (rw (opt_bool-opt py released, parse_at-opt at _) refl)
  parse_event-payload (Events.webrtc_event at session_id call_id state reason) =
      inl (rw (opt_str-opt py call_id, session_state-value state, parse_at-opt at _) refl)
  parse_event-payload (Events.unknown_event at kind raw) = inr (at, kind, raw, refl, refl)
