-- ===== src/Integration/Events/Unknown.antt =====
-- custom_components/urmet/events.py and models.py on a frame with a field that they do not know.
use urmet_ha.Prelude.{ℕ, String, ◌≡◌, refl, false, Option, List, [], ◌∷◌, arith}
use text.Mathlib.Text.{◌==◌ as same_text}
use urmet_ha.Domain.Errors.{Outcome, ok}
use urmet_ha.Integration.Json.{Json, Fields, end, field, get, get_or, Conversions}
use urmet_ha.Integration.Models.{state_from, parse_at}
use urmet_ha.Integration.Events.{GatewayEvent, unknown_event, parse_event}

-- The one object followed by the other.
abbrev pub join : Fields → Fields → Fields
join end back = back
join (field k v front) back = field k v (join front back)

-- The keys that a frame is asked for.
abbrev pub known : List String
known =
    "type" ∷ "at" ∷ "registered" ∷ "doorphone" ∷ "calls" ∷ "mic_muted" ∷ "sessions" ∷ "call_id"
    ∷ "state" ∷ "direction" ∷ "actuator" ∷ "acknowledged" ∷ "status_code" ∷ "reason" ∷ "released"
    ∷ "session_id" ∷ []

abbrev pub IsApart : List String → String → Type 0
IsApart [] key = Unit {0}
IsApart (k ∷ ks) key = (same_text k key ≡ false) × IsApart ks key

-- What was read, less the frame that an event of an unknown type keeps.
abbrev pub read : Outcome GatewayEvent → Outcome GatewayEvent
read (ok (unknown_event at kind raw)) = ok (unknown_event at kind end)
read outcome = outcome

get-join :
    (k key : String) (value : Json) (front back : Fields)
    → same_text k key ≡ false
    → get k (join front (field key value back)) ≡ get k (join front back)
unfolding get
get-join k key value end back apart = rw apart refl
get-join k key value (field j v front) back apart = rw (get-join k key value front back apart) refl

module _ (py : Conversions) where
  -- A field that a later gateway adds to a frame, wherever it stands and whatever it holds, changes
  -- nothing of what the frame is read as, be that an event or an error: only an event of an unknown
  -- type keeps the field with the rest of its frame.
  pub parse_event-join :
      (parse_datetime : String → Option ℕ)
      → (key : String) (value : Json) (front back : Fields) → IsApart known key
      → read (parse_event py parse_datetime (join front (field key value back)))
        ≡ read (parse_event py parse_datetime (join front back))
  unfolding parse_event
  parse_event-join parse key value front back apart =
      let (
        t,
        (
          at,
          (
            a,
            (b, (c, (d, (e, (i, (s, (dir, (act, (ack, (code, (why, (rel, (session, _))))))))))))),
          ),
        ),
      ) =
        apart in
      rw
        (
          get-join "type" key value front back t,
          get-join "at" key value front back at,
          get-join "registered" key value front back a,
          get-join "doorphone" key value front back b,
          get-join "call_id" key value front back i,
          get-join "state" key value front back s,
          get-join "direction" key value front back dir,
          get-join "actuator" key value front back act,
          get-join "acknowledged" key value front back ack,
          get-join "status_code" key value front back code,
          get-join "reason" key value front back why,
          get-join "released" key value front back rel,
          get-join "session_id" key value front back session,
          get-join "calls" key value front back c,
          get-join "mic_muted" key value front back d,
          get-join "sessions" key value front back e,
          parse_event,
          get_or,
          parse_at,
          state_from,
        )
        (ground arith)
