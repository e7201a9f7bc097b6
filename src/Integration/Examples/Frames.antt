-- ===== src/Integration/Examples/Frames.antt =====
-- events.py, websocket_api.py, client.py and coordinator.py on a ring, with instants printed in unary.
use urmet_ha.Prelude.{ℕ, suc, zero, String, ◌≡◌, refl, ap, ◌⊎◌, false, Option, none, some}
use urmet_ha.Domain
use urmet_ha.Domain.{Event, StateView, CallState}
use urmet_ha.Domain.Errors.{ok, raised, other_error}
use urmet_ha.Integration.Json.{Json, Fields, end, field, get, Conversions}
use urmet_ha.Integration.Models
use urmet_ha.Integration.Events
use urmet_ha.Integration.Events.{GatewayEvent, parse_event}
use urmet_ha.Integration.Events.Wire.{Printing, Carries, mirror_event}
use urmet_ha.Integration.Events.RoundTrip.{parse_event-carried}
use urmet_ha.Integration.Events.Unknown.{join, known, IsApart, read, parse_event-join}
use urmet_ha.Integration.Card.{event_payload}
use urmet_ha.Integration.Card.Payload.{parse_event-payload}

abbrev word : CallState → String
word CallState.idle = "idle"
word CallState.ringing = "ringing"
word CallState.connecting = "connecting"
word CallState.streaming = "streaming"
word CallState.ended = "ended"
word CallState.error = "error"

abbrev pub ticks : ℕ → String
ticks zero = ""
ticks (suc n) = String.◌∷◌ "i" (ticks n)

abbrev read_ticks : String → ℕ
read_ticks String.[] = 0
read_ticks (String.◌∷◌ c s) = suc (read_ticks s)

abbrev pub read_instant : String → Option ℕ
read_instant s = some (read_ticks s)

read_ticks-ticks : (n : ℕ) → read_ticks (ticks n) ≡ n
read_ticks-ticks zero = refl
read_ticks-ticks (suc n) = ap suc (read_ticks-ticks n)

pub read_back : (at : ℕ) → read_instant (ticks at) ≡ some at
read_back at = ap some (read_ticks-ticks at)

abbrev pub printing : Printing
printing = record {
  call_id = ticks;
  session_id = ticks;
  instant = ticks;
  milliseconds = λ t. t;
  state_word = word;
  state_words = (refl, refl, refl, refl, refl, refl);
}

abbrev pub py : Conversions
py = record {
  float_to_int = λ x. raised other_error;
  text_to_int = λ s. raised other_error;
  int_to_float = λ n. raised other_error;
  text_to_float = λ s. raised other_error;
  float_is_zero = λ x. false;
  repr = λ v. "";
}

-- A ring with a field that is not known.
abbrev pub ring_frame : Fields
ring_frame = field "type" (Json.text "ring") (
    field "at" (Json.text "iii") (
      field "snapshot" Json.null (
        field "doorphone"
          (Json.object (field "mac" (Json.text "00:1B") (field "name" (Json.text "") end)))
          (field "call_id" (Json.text "ii") end))))

abbrev pub ring : Event
ring = Domain.ring_event 3 (record { mac = "00:1B"; name = "" }) 2

pub ring-Carries : Carries printing ring ring_frame
unfolding get
ring-Carries = (
  (refl, refl),
  (field "mac" (Json.text "00:1B") (field "name" (Json.text "") end), refl, (refl, refl)),
  refl,
)

parse_event-carried_example :
    parse_event py read_instant ring_frame ≡ ok (mirror_event printing ring)
parse_event-carried_example =
    parse_event-carried py printing read_instant read_back ring ring_frame ring-Carries

abbrev front : Fields
front = field "type" (Json.text "ring") (field "at" (Json.text "iii") end)

abbrev back : Fields
back = field "call_id" (Json.text "ii") end

snapshot-IsApart : IsApart known "snapshot"
snapshot-IsApart = (
  refl,
  (
    refl,
    (
      refl,
      (
        refl,
        (
          refl,
          (
            refl,
            (refl, (refl, (refl, (refl, (refl, (refl, (refl, (refl, (refl, (refl, tt)))))))))),
          ),
        ),
      ),
    ),
  ),
)

parse_event-join_example :
    read (parse_event py read_instant (join front (field "snapshot" Json.null back)))
    ≡ read (parse_event py read_instant (join front back))
parse_event-join_example =
    parse_event-join py read_instant "snapshot" Json.null front back snapshot-IsApart

abbrev strange : GatewayEvent
strange = Events.call_event none "ii" Models.CallState.unknown none

parse_event-payload_example :
    (parse_event py read_instant (event_payload ticks strange) ≡ ok strange)
    ⊎ ((at : Option ℕ) × (kind : String) × (raw : Fields) × (strange
          ≡ Events.unknown_event at kind raw)
        × (event_payload ticks strange ≡ raw))
parse_event-payload_example = parse_event-payload py read_instant ticks read_back strange
