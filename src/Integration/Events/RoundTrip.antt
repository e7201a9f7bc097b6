-- ===== src/Integration/Events/RoundTrip.antt =====
-- custom_components/urmet/events.py on what the gateway sends: every event arrives as its mirror.
use urmet_ha.Prelude.{ℕ, String, ◌≡◌, refl, Option, none, some, List, [], ◌∷◌, map}
use mathlib.Core.Option
use urmet_ha.Domain
use urmet_ha.Domain.{
  Direction, ActuatorName, Event, CallView, DoorphoneView, VideoFlow, AudioFlow, SessionView,
  StateView,
}
use urmet_ha.Domain.Errors.{Outcome, ok}
use urmet_ha.Integration.Json.{
  Json, Items, Fields, get, require, get_or, str, int, to_float, truth, mapping, elements,
  Conversions,
}
use urmet_ha.Integration.Models.{
  call_state, call_direction, session_state, doorphone_from, call_from, video_from, audio_from,
  session_from, state_from, when_mapping, each_mapping, parse_at,
}
use urmet_ha.Integration.Events.{
  parse_event, present, opt_str, opt_bool, opt_direction, doorphone_of,
}
use urmet_ha.Integration.Events.Wire.{
  Printing, direction_word, session_word, mirror_state, mirror_direction, mirror_session_state,
  mirror_doorphone, mirror_video, mirror_call, mirror_audio, mirror_session, mirror_view,
  mirror_event, CarriesOption, CarriesItems, CarriesDoorphone, CarriesVideo, CarriesCall,
  CarriesAudio, CarriesSession, CarriesView, Carries,
}

call_state-word :
    (p : Printing) (s : Domain.CallState) → call_state (Json.text (p.state_word s)) ≡ mirror_state s
unfolding call_state
call_state-word p Domain.CallState.idle = rw p.state_words.0 refl
call_state-word p Domain.CallState.ringing = rw p.state_words.1 refl
call_state-word p Domain.CallState.connecting = rw p.state_words.2 refl
call_state-word p Domain.CallState.streaming = rw p.state_words.3 refl
call_state-word p Domain.CallState.ended = rw p.state_words.4 refl
call_state-word p Domain.CallState.error = rw p.state_words.5 refl

call_direction-word :
    (d : Direction) → call_direction (Json.text (direction_word d)) ≡ mirror_direction d
unfolding call_direction direction_word
call_direction-word Direction.incoming = refl
call_direction-word Direction.outgoing = refl

session_state-word :
    (s : Domain.SessionState) → session_state (Json.text (session_word s)) ≡ mirror_session_state s
unfolding session_state session_word
session_state-word Domain.SessionState.opened = refl
session_state-word Domain.SessionState.waiting = refl
session_state-word Domain.SessionState.degraded = refl
session_state-word Domain.SessionState.closed = refl

module _ {A B : Type 0} (from_dict : Fields → Outcome B) (mirror : A → B) (C : A → Fields → Type 0)
    (reads : (a : A) (fields : Fields) → C a fields → from_dict fields ≡ ok (mirror a)) where
  when_mapping-carried :
      (key : String) (o : Option A) (fields : Fields)
      → CarriesOption C key o fields
      → when_mapping from_dict (get key fields) ≡ ok (Option.map mirror o)
  unfolding when_mapping mapping
  when_mapping-carried key none fields c = rw c refl
  when_mapping-carried key (some a) fields (inner, e, c) = rw (e, reads a inner c) refl

  each_mapping-carried :
      (as_ : List A) (items : Items)
      → CarriesItems C as_ items
      → each_mapping from_dict items ≡ ok (map mirror as_)
  unfolding each_mapping mapping
  each_mapping-carried [] items c = rw c refl
  each_mapping-carried (a ∷ as_) items (inner, rest, e, c, cs) =
      rw (e, reads a inner c, each_mapping-carried as_ rest cs) refl

module _ (py : Conversions) where
  doorphone_from-carried :
      (d : DoorphoneView) (fields : Fields)
      → CarriesDoorphone d fields
      → doorphone_from py fields ≡ ok (mirror_doorphone d)
  unfolding doorphone_from require get_or str
  doorphone_from-carried d fields c = rw (c.0, c.1, doorphone_from, require, get_or) refl

  video_from-carried :
      (v : VideoFlow) (fields : Fields)
      → CarriesVideo v fields
      → video_from py fields ≡ ok (mirror_video v)
  unfolding video_from get_or int
  video_from-carried v fields (a, b, c, d) = rw (a, b, c, d, video_from, get_or) refl

  module _ (p : Printing) where
    call_from-carried :
        (v : CallView) (fields : Fields)
        → CarriesCall p v fields
        → call_from py fields ≡ ok (mirror_call p v)
    unfolding call_from require get_or str
    call_from-carried v fields (a, b, c) =
        rw
          (
            a,
            b,
            c,
            call_from,
            require,
            get_or,
            call_state-word p v.state,
            call_direction-word v.direction,
          )
          refl

    audio_from-carried :
        (v : AudioFlow) (fields : Fields)
        → CarriesAudio p v fields
        → audio_from py fields ≡ ok (mirror_audio p v)
    unfolding audio_from get_or int to_float
    audio_from-carried v fields (a, b, c, d, e, f, g, h, i) =
        rw (a, b, c, d, e, f, g, h, i, audio_from, get_or) refl

    session_from-carried :
        (v : SessionView) (fields : Fields)
        → CarriesSession p v fields
        → session_from py fields ≡ ok (mirror_session p v)
    unfolding session_from require get_or str
    session_from-carried v fields (a, b, c, d, e, f, g) =
        rw
          (
            when_mapping-carried (video_from py) mirror_video CarriesVideo video_from-carried
                "video" v.video fields f,
            when_mapping-carried (audio_from py) (mirror_audio p) (CarriesAudio p)
                audio_from-carried "audio" v.audio fields g,
            a,
            b,
            c,
            d,
            e,
            session_state-word v.state,
            require,
            get_or,
          )
          refl

    state_from-carried :
        (v : StateView) (fields : Fields)
        → CarriesView p v fields
        → state_from py fields ≡ ok (mirror_view p v)
    unfolding state_from get_or truth elements
    state_from-carried v fields (a, b, (calls, c, cs), d, (sessions, e, es)) =
        rw
          (
            when_mapping-carried (doorphone_from py) mirror_doorphone CarriesDoorphone
                doorphone_from-carried "doorphone" v.doorphone fields b,
            a,
            c,
            d,
            e,
            each_mapping-carried (call_from py) (mirror_call p) (CarriesCall p) call_from-carried
                v.calls calls cs,
            each_mapping-carried (session_from py) (mirror_session p) (CarriesSession p)
                session_from-carried v.sessions sessions es,
            get_or,
          )
          refl

  -- A frame that carries an event of the gateway is read as the mirror of that event, whatever else
  -- stands in the frame and in the objects in it: no field is lost, taken for another or defaulted.
  -- The instant must be one that Home Assistant reads back.
  pub parse_event-carried :
      (p : Printing) (parse_datetime : String → Option ℕ)
      → ((at : ℕ) → parse_datetime (p.instant at) ≡ some at)
      → (e : Event) (fields : Fields) → Carries p e fields
      → parse_event py parse_datetime fields ≡ ok (mirror_event p e)
  unfolding parse_event get_or str parse_at truth int opt_str opt_bool opt_direction present
      doorphone_of
  parse_event-carried p parse back (Domain.state_event at view) fields ((k, t), c) =
      rw (k, t, back at, state_from-carried p view fields c, parse_event, get_or, parse_at) refl
  parse_event-carried p parse back (Domain.ring_event at doorphone id) fields
        ((k, t), (inner, d, c), i) =
      rw
        (
          k,
          t,
          back at,
          d,
          i,
          doorphone_from-carried doorphone inner c,
          parse_event,
          get_or,
          parse_at,
        )
        refl
  parse_event-carried p parse back (Domain.call_event at id state direction) fields
        ((k, t), i, s, d) =
      rw
        (
          k,
          t,
          back at,
          i,
          s,
          d,
          call_state-word p state,
          call_direction-word direction,
          parse_event,
          get_or,
          parse_at,
        )
        refl
  parse_event-carried p parse back (Domain.open_event at actuator acknowledged) fields
        ((k, t), a, b, c) =
      rw (k, t, back at, a, b, c, parse_event, get_or, parse_at) refl
  parse_event-carried p parse back (Domain.registration_event at registered code reason released)
        fields ((k, t), a, b, c, d) =
      rw (k, t, back at, a, b, c, d, parse_event, get_or, parse_at) refl
  parse_event-carried p parse back (Domain.webrtc_event at session id state reason) fields
        ((k, t), a, b, c, d) =
      rw (k, t, back at, a, b, c, d, session_state-word state, parse_event, get_or, parse_at) refl
