-- ===== src/Integration/Client.antt =====
-- custom_components/urmet/client.py: the requests, and the reading of the event stream with its
-- reconnections. The sets of listeners are lists, in the order in which they are called, and what
-- the client calls, logs and sleeps is kept in order. Times are in milliseconds.
pub mod Calls
pub mod Requests
pub mod Connection
pub mod Backoff
pub mod Delivery
use urmet_ha.Prelude.{
  ℕ, ◌+◌, ◌-◌, ◌*◌, ◌/◌, zero, suc, min, String, ◌≡◌, Bool, true, false, ◌||◌, Option, none, some,
  List, [], ◌∷◌, ◌++◌, ltb, if◌then◌else◌, contains, discard,
}
use urmet_ha.Domain.Errors.{Outcome, ok, raised}
use urmet_ha.Integration.Json.{Json, Fields}
use urmet_ha.Integration.Events.{GatewayEvent}

-- `BACKOFF_SCHEDULE_S`, the last value repeating
unfoldable pub schedule : ℕ → ℕ
schedule zero = 1000
schedule (suc zero) = 2000
schedule (suc (suc zero)) = 4000
schedule (suc (suc (suc zero))) = 8000
schedule _ = 15000

-- `len(BACKOFF_SCHEDULE_S)`
abbrev pub steps : ℕ
steps = 5

-- `base * BACKOFF_JITTER`
abbrev pub jitter : ℕ → ℕ
jitter base = base / 4

pub data Line : Type 0 where
  unavailable : ℕ → Line
  reconnected stream_error stream_crashed bad_frame listener_raised : Line

pub record Client : Type 0 where
  pub event_listeners : List ℕ
  pub conn_listeners : List ℕ
  pub task : Bool
  pub closing : Bool
  pub connected : Bool
  pub degraded : Bool
  pub heard : List (ℕ × GatewayEvent)
  pub told : List (ℕ × Bool)
  pub log : List Line
  pub slept : List ℕ

-- `__init__`
abbrev pub new_client : Client
new_client = record {
  event_listeners = [];
  conn_listeners = [];
  task = false;
  closing = false;
  connected = false;
  degraded = false;
  heard = [];
  told = [];
  log = [];
  slept = [];
}

unfoldable pub write : Line → Client → Client
write line c = record c { log = c.log ++ line ∷ [] }

-- The except clause around a listener's call, with whether it raised.
unfoldable pub note_raise : Bool → Client → Client
unfolding write
note_raise raised_ c = if raised_ then write listener_raised c else c

-- `set.add` of a listener, and what the call gives back to drop it
unfoldable pub add_event_listener : ℕ → Client → Client
add_event_listener l c = record c {
  event_listeners =
      if contains l c.event_listeners then c.event_listeners else c.event_listeners ++ l ∷ [];
}

unfoldable pub drop_event_listener : ℕ → Client → Client
drop_event_listener l c = record c { event_listeners = discard l c.event_listeners }

unfoldable pub add_connection_listener : ℕ → Client → Client
add_connection_listener l c = record c {
  conn_listeners =
      if contains l c.conn_listeners then c.conn_listeners else c.conn_listeners ++ l ∷ [];
}

unfoldable pub drop_connection_listener : ℕ → Client → Client
drop_connection_listener l c = record c { conn_listeners = discard l c.conn_listeners }

-- What the client is given: which listeners raise, `json.loads` and `parse_event`.
pub record Surroundings : Type 0 where
  pub event_raises : ℕ → GatewayEvent → Bool
  pub conn_raises : ℕ → Bool → Bool
  pub loads : String → Option Json
  pub parse : Fields → Outcome GatewayEvent

-- What comes over the socket.
pub data Message : Type 0 where
  text : String → Message
  error closed closing other : Message

-- The exceptions that `_run` tells apart: aiohttp's, a timeout or an OSError; a cancellation; others.
pub data Failure : Type 0 where
  transport cancelled crash : Failure

-- How a wait ends: by itself or by an exception.
pub data Ending : Type 0 where
  returned : Ending
  failed : Failure → Ending

-- What `ws_connect` comes to: an exception, or a socket with its messages and the end of them.
pub data Attempt : Type 0 where
  refused : Failure → Attempt
  accepted : List Message → Ending → Attempt

unfoldable pub same_bool : Bool → Bool → Bool
same_bool true b = b
same_bool false true = false
same_bool false false = true

module _ (around : Surroundings) where
  -- The loop of `_set_connected`.
  unfoldable pub tell_each : Bool → List ℕ → Client → Client
  unfolding note_raise
  tell_each value [] c = c
  tell_each value (l ∷ ls) c =
      let c' = record c { told = c.told ++ (l, value) ∷ [] } in
      tell_each value ls (note_raise (around.conn_raises l value) c')

  unfoldable pub set_connected : Bool → Client → Client
  unfolding tell_each same_bool
  set_connected value c =
      if same_bool value c.connected
      then c
      else tell_each value c.conn_listeners (record c { connected = value })

  -- The loop of `_dispatch_event`.
  unfoldable pub hear_each : GatewayEvent → List ℕ → Client → Client
  unfolding note_raise
  hear_each event [] c = c
  hear_each event (l ∷ ls) c =
      let c' = record c { heard = c.heard ++ (l, event) ∷ [] } in
      hear_each event ls (note_raise (around.event_raises l event) c')

  -- What `_dispatch_event` does with a decoded frame; a raise of `parse_event` leaves it.
  unfoldable pub dispatch_json : Json → Client → Ending × Client
  unfolding hear_each
  dispatch_json (Json.object fields) c = elim (around.parse fields) [
    | ok event ↦ (returned, hear_each event c.event_listeners c)
    | raised e ↦ (failed crash, c)
  ]
  dispatch_json value c = (returned, c)

  -- `_dispatch_event`
  unfoldable pub dispatch_event : String → Client → Ending × Client
  unfolding dispatch_json write
  dispatch_event raw c = elim (around.loads raw) [
    | none ↦ (returned, write bad_frame c)
    | some value ↦ dispatch_json value c
  ]

  -- The loop of `_consume` over the messages, then `last`, how the iteration ends.
  unfoldable pub read_messages : List Message → Ending → Client → Ending × Client
  unfolding dispatch_event
  read_messages [] last c = (last, c)
  read_messages (text raw ∷ ms) last c =
      let r = dispatch_event raw c in
      let rest = read_messages ms last r.1 in elim r.0 [ returned ↦ rest | _ ↦ r ]
  read_messages (error ∷ ms) last c = (returned, c)
  read_messages (closed ∷ ms) last c = (returned, c)
  read_messages (closing ∷ ms) last c = (returned, c)
  read_messages (other ∷ ms) last c = read_messages ms last c

  -- `_consume`, less the socket
  unfoldable pub consume : Attempt → Client → Ending × Client
  unfolding set_connected read_messages write
  consume (refused why) c = (failed why, c)
  consume (accepted ms last) c =
      let up = if c.degraded then record (write reconnected c) { degraded = false } else c in
      let r = read_messages ms last (set_connected true up) in (r.0, set_connected false r.1)

  -- `_delay_for`, with `drawn` what `random.uniform` draws above its least value
  unfoldable pub delay_for : ℕ → ℕ → ℕ
  unfolding schedule
  delay_for attempt drawn =
      let base = schedule (min attempt (steps - 1)) in (base - jitter base) + drawn

  -- The except clauses of `_run`.
  unfoldable pub log_failure : Ending → Client → Client
  unfolding write
  log_failure returned c = c
  log_failure (failed transport) c = write stream_error c
  log_failure (failed why) c = write stream_crashed c

  -- `if connected: attempt = 0`
  unfoldable pub attempts : Ending → ℕ → ℕ
  attempts returned attempt = 0
  attempts (failed why) attempt = attempt

  -- The rest of the loop of `_run`, from the delay on.
  unfoldable pub back_off : ℕ → ℕ → Client → Client
  unfolding delay_for write
  back_off attempt drawn c =
      let delay = delay_for attempt drawn in
      let c1 = if ltb attempt steps then write (unavailable delay) c else c in
      record c1 { degraded = true; slept = c1.slept ++ delay ∷ [] }

  -- The loop of `_run` after an attempt that ended so: the next attempt's number, or the end.
  unfoldable pub after : Ending → ℕ → ℕ → Client → Option ℕ × Client
  unfolding log_failure attempts back_off
  after (failed cancelled) attempt drawn c = (none, c)
  after ending attempt drawn c =
      let c1 = log_failure ending c in
      let n = attempts ending attempt in
      if c1.closing then (none, c1) else (some (suc n), back_off n drawn c1)

  -- The loop of `_run` over what its attempts come to, each with what is drawn for its delay.
  unfoldable pub run_from : ℕ → List (Attempt × ℕ) → Client → Client
  unfolding consume after
  run_from attempt [] c = c
  run_from attempt ((tried, drawn) ∷ rounds) c =
      let r = consume tried c in
      let next = after r.0 attempt drawn r.1 in
      let rest : Client = elim next.0 [ none ↦ next.1 | some n ↦ run_from n rounds next.1 ] in
      if c.closing then c else rest

  -- `_run`
  unfoldable pub run : List (Attempt × ℕ) → Client → Client
  unfolding run_from
  run rounds c = run_from 0 rounds c

  -- `async_start`; the task is the loop.
  unfoldable pub async_start : Client → Client
  async_start c = if c.task then c else record c { closing = false; task = true }

  -- `async_stop`, once the task that it cancels has ended
  unfoldable pub async_stop : Client → Client
  unfolding set_connected
  async_stop c = set_connected false (record c { closing = true; task = false })
