-- ===== src/Http/EventStream.antt =====
-- addon/urmet-gateway/urmet_gateway/http/ws.py: the event stream of one subscriber. A message is the
-- event that it carries. What the client sends is read and dropped; it may end the stream, which has
-- nothing more sent.
pub mod Snapshot
use urmet_ha.Prelude.{
  ℕ, String, Bool, true, false, Option, none, some, List, [], ◌∷◌, ◌++◌, if◌then◌else◌, lookup,
}
use urmet_ha.Bus.{Subscription, EventBus, next, publish, read}

abbrev pub behind : String
behind = "the event stream fell behind"

abbrev pub shutting_down : String
shutting_down = "the gateway is shutting down"

abbrev pub failed : String
failed = "the event stream failed"

-- The close codes of RFC 6455 that aiohttp names so.
abbrev pub going_away : ℕ
going_away = 1001

abbrev pub internal_error : ℕ
internal_error = 1011

abbrev pub try_again_later : ℕ
try_again_later = 1013

-- What happens around a stream that is on: an event is published, or the client took a message and
-- the loop of `_stream` goes round once, where there is something to send.
pub data Moment (E : Type 0) : Type 0 where
  publishes : E → Moment E
  reads : Moment E

-- The bus, and the messages that the subscriber was sent.
pub record Watched (E : Type 0) : Type 0 where
  pub bus : EventBus E
  pub sent : List E

module _ {E : Type 0} where
  -- The loop of `_stream` over a queue, with whether the subscriber was dropped: what is sent, and
  -- whether the loop ended or waits for more.
  unfoldable pub read_on : Bool → List (Option E) → List E × Bool
  read_on dropped [] = ([], false)
  read_on dropped (none ∷ queue) = ([], true)
  read_on dropped (some event ∷ queue) =
      let rest = read_on dropped queue in if dropped then ([], true) else (event ∷ rest.0, rest.1)

  -- `_stream`: the snapshot, then what the subscription has.
  unfoldable pub stream : E → Subscription E → List E × Bool
  unfolding read_on
  stream snapshot s = let rest = read_on s.dropped s.queue in (snapshot ∷ rest.0, rest.1)

  -- One turn of `async for` in `_stream`; the end of the queue and a drop send nothing.
  unfoldable pub sent_by : Subscription E → List E
  sent_by s = elim (next s) [
    | none ↦ []
    | some (none, s') ↦ []
    | some (some event, s') ↦ if s.dropped then [] else event ∷ []
  ]

  unfoldable pub moment : ℕ → Moment E → Watched E → Watched E
  unfolding sent_by
  moment i (publishes event) w = record w { bus = publish w.bus event }
  moment i reads w = elim (lookup i w.bus.subscribers) [
    | none ↦ w
    | some s ↦ record { bus = read w.bus i; sent = w.sent ++ sent_by s }
  ]

  unfoldable pub watch : ℕ → List (Moment E) → Watched E → Watched E
  watch i [] w = w
  watch i (m ∷ ms) w = watch i ms (moment i m w)

  -- `_farewell`, with whether the stream failed
  unfoldable pub farewell : Bool → Subscription E → ℕ × String
  farewell failed_ s =
      if failed_
      then (internal_error, failed)
      else (if s.dropped then (try_again_later, behind) else (going_away, shutting_down))
