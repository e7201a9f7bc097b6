-- ===== src/Integration/Models.antt =====
-- custom_components/urmet/models.py: the mirrors of the gateway's state, and how each is read from
-- the JSON that the gateway sends. A field that is missing or odd does what Python does with it.
use urmet_ha.Prelude.{
  ℕ, String, Bool, true, false, Option, none, some, List, [], ◌∷◌, if◌then◌else◌,
}
use text.Mathlib.Text.{◌==◌ as same_text}
use urmet_ha.Domain.Errors.{Outcome, ok, ◌>>=◌}
use urmet_ha.Integration.Json.{
  ℤ, Json, Items, nil, cons, Fields, get, get_or, require, mapping, elements, Conversions, str, int,
  to_float, truth, zero_float,
}

-- `dt_util.parse_datetime` on a text is Home Assistant's: a parameter.
unfoldable pub parse_at : (String → Option ℕ) → Fields → Option ℕ
unfolding get
parse_at parse_datetime payload = elim (get "at" payload) [
  | some (Json.text raw) ↦ parse_datetime raw
  | _ ↦ none
]

pub data CallState : Type 0 where
  idle ringing connecting streaming ended error unknown : CallState

-- `CallState(value)`: `_missing_` takes every value that is no member's.
unfoldable pub call_state : Json → CallState
call_state (Json.text s) =
    if same_text s "idle"
    then idle
    else if same_text s "ringing"
    then ringing
    else if same_text s "connecting"
    then connecting
    else if same_text s "streaming"
    then streaming
    else if same_text s "ended"
    then ended
    else if same_text s "error"
    then error
    else unknown
call_state value = unknown

-- `is_active`, by `ACTIVE_CALL_STATES`
unfoldable pub is_active : CallState → Bool
is_active ringing = true
is_active connecting = true
is_active streaming = true
is_active _ = false

pub data CallDirection : Type 0 where
  incoming outgoing unknown : CallDirection

-- `CallDirection(value)`
unfoldable pub call_direction : Json → CallDirection
call_direction (Json.text s) =
    if same_text s "incoming"
    then CallDirection.incoming
    else if same_text s "outgoing"
    then CallDirection.outgoing
    else CallDirection.unknown
call_direction value = CallDirection.unknown

pub data SessionState : Type 0 where
  opened waiting degraded closed unknown : SessionState

unfoldable pub is_faulted : SessionState → Bool
is_faulted SessionState.degraded = true
is_faulted SessionState.closed = true
is_faulted _ = false

-- `SessionState(value)`
unfoldable pub session_state : Json → SessionState
session_state (Json.text s) =
    if same_text s "open"
    then SessionState.opened
    else if same_text s "waiting"
    then SessionState.waiting
    else if same_text s "degraded"
    then SessionState.degraded
    else if same_text s "closed"
    then SessionState.closed
    else SessionState.unknown
session_state value = SessionState.unknown

pub record DoorphoneView : Type 0 where
  pub mac : String
  pub name : String

pub record CallView : Type 0 where
  pub id : String
  pub state : CallState
  pub direction : CallDirection

pub record VideoStats : Type 0 where
  pub width : ℤ
  pub height : ℤ
  pub packets_sent : ℤ
  pub packets_dropped : ℤ

pub record AudioStats : Type 0 where
  pub from_doorphone : ℤ
  pub to_browser : ℤ
  pub to_doorphone : ℤ
  pub silence_sent : ℤ
  pub partial_from_doorphone : ℤ
  pub dropped_from_doorphone : ℤ
  pub dropped_to_doorphone : ℤ
  -- The patterns of two floats.
  pub max_callback_ms : ℕ
  pub budget_ms : ℕ

pub record SessionView : Type 0 where
  pub session_id : String
  pub call_id : String
  pub state : SessionState
  pub connection : String
  pub reason : String
  pub video : Option VideoStats
  pub audio : Option AudioStats

pub record StateView : Type 0 where
  pub registered : Bool
  pub doorphone : Option DoorphoneView
  pub calls : List CallView
  pub mic_muted : Bool
  pub sessions : List SessionView

abbrev pub empty : Json
empty = Json.text ""

abbrev pub zero_int : Json
zero_int = Json.integer (ℤ.pos 0)

abbrev pub zero_time : Json
zero_time = Json.float zero_float

-- `T.from_dict(value) if isinstance(value, Mapping) else None`, of what `data.get(key)` gave
unfoldable pub when_mapping {ℓ} :
    {A : Type ℓ} → (Fields → Outcome A) → Option Json → Outcome (Option A)
unfolding mapping
when_mapping from_dict none = ok none
when_mapping from_dict (some value) = elim (mapping value) [
  | none ↦ ok none
  | some payload ↦ (do a ← from_dict payload; ok (some a))
]

-- `tuple(T.from_dict(c) for c in items if isinstance(c, Mapping))`
unfoldable pub each_mapping {ℓ} : {A : Type ℓ} → (Fields → Outcome A) → Items → Outcome (List A)
unfolding mapping
each_mapping from_dict nil = ok []
each_mapping from_dict (cons value items) =
    let rest = each_mapping from_dict items in
    elim (mapping value) [
      | none ↦ rest
      | some payload ↦ (do a ← from_dict payload; as_ ← rest; ok (a ∷ as_))
    ]

module _ (py : Conversions) where
  -- `DoorphoneView.from_dict`
  unfoldable pub doorphone_from : Fields → Outcome DoorphoneView
  unfolding require get_or str
  doorphone_from payload = do
    mac ← require "mac" payload
    ok (record { mac = str py mac; name = str py (get_or empty "name" payload) })

  -- `CallView.from_dict`
  unfoldable pub call_from : Fields → Outcome CallView
  unfolding require get_or str call_state call_direction
  call_from payload = do
    id ← require "id" payload
    ok (record {
      id = str py id;
      state = call_state (get_or empty "state" payload);
      direction = call_direction (get_or empty "direction" payload);
    })

  -- `VideoStats.from_dict`
  unfoldable pub video_from : Fields → Outcome VideoStats
  unfolding get_or int
  video_from payload = do
    w ← int py (get_or zero_int "width" payload)
    h ← int py (get_or zero_int "height" payload)
    sent ← int py (get_or zero_int "packets_sent" payload)
    dropped ← int py (get_or zero_int "packets_dropped" payload)
    ok (record { width = w; height = h; packets_sent = sent; packets_dropped = dropped })

  -- `AudioStats.from_dict`
  unfoldable pub audio_from : Fields → Outcome AudioStats
  unfolding get_or int to_float
  audio_from payload = do
    heard ← int py (get_or zero_int "from_doorphone" payload)
    played ← int py (get_or zero_int "to_browser" payload)
    said ← int py (get_or zero_int "to_doorphone" payload)
    silent ← int py (get_or zero_int "silence_sent" payload)
    partial ← int py (get_or zero_int "partial_from_doorphone" payload)
    lost_heard ← int py (get_or zero_int "dropped_from_doorphone" payload)
    lost_said ← int py (get_or zero_int "dropped_to_doorphone" payload)
    longest ← to_float py (get_or zero_time "max_callback_ms" payload)
    budget ← to_float py (get_or zero_time "budget_ms" payload)
    ok (record {
      from_doorphone = heard;
      to_browser = played;
      to_doorphone = said;
      silence_sent = silent;
      partial_from_doorphone = partial;
      dropped_from_doorphone = lost_heard;
      dropped_to_doorphone = lost_said;
      max_callback_ms = longest;
      budget_ms = budget;
    })

  -- `SessionView.from_dict`
  unfoldable pub session_from : Fields → Outcome SessionView
  unfolding require get get_or str session_state when_mapping video_from audio_from
  session_from payload = do
    id ← require "session_id" payload
    video ← when_mapping video_from (get "video" payload)
    audio ← when_mapping audio_from (get "audio" payload)
    ok (record {
      session_id = str py id;
      call_id = str py (get_or empty "call_id" payload);
      state = session_state (get_or empty "state" payload);
      connection = str py (get_or empty "connection" payload);
      reason = str py (get_or empty "reason" payload);
      video = video;
      audio = audio;
    })

  -- `StateView.from_dict`
  unfoldable pub state_from : Fields → Outcome StateView
  unfolding get get_or truth elements when_mapping each_mapping doorphone_from call_from
      session_from
  state_from payload = do
    doorphone ← when_mapping doorphone_from (get "doorphone" payload)
    calls ← elements (get_or (Json.array nil) "calls" payload)
    calls ← each_mapping call_from calls
    sessions ← elements (get_or (Json.array nil) "sessions" payload)
    sessions ← each_mapping session_from sessions
    ok (record {
      registered = truth py (get_or (Json.boolean false) "registered" payload);
      doorphone = doorphone;
      calls = calls;
      mic_muted = truth py (get_or (Json.boolean false) "mic_muted" payload);
      sessions = sessions;
    })
