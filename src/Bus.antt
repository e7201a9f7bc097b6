-- ===== src/Bus.antt =====
-- addon/urmet-gateway/urmet_gateway/usecases/events.py: one bounded queue per subscriber.
-- `publish` from a foreign thread is one more turn of the loop, so a run of the bus is the list of
-- the fan-outs in the order in which the loop makes them. The set of subscribers is a list; each
-- subscriber has a number, by which Python's object identity is read.
pub mod Invariant
pub mod Runs
pub mod Delivery
pub mod Closing
pub mod Reading
mod Examples
use urmet_ha.Prelude.{
  ℕ, suc, ◌+◌, Bool, true, false, Option, none, some, List, [], ◌∷◌, ◌++◌, ◌||◌, leb, if◌then◌else◌,
  length, ◌==◌, Dict, lookup, erase,
}

abbrev pub default_capacity : ℕ
default_capacity = 64

-- `none` in the queue is the closing sentinel.
pub record Subscription (E : Type 0) : Type 0 where
  pub capacity : ℕ
  pub queue : List (Option E)
  pub closed : Bool
  pub dropped : Bool

pub record EventBus (E : Type 0) : Type 0 where
  pub capacity : ℕ
  pub subscribers : Dict (Subscription E)
  -- The subscriptions that left the set; their holders still read what they were sent.
  pub gone : Dict (Subscription E)
  pub opened : ℕ
  pub closed : Bool

module _ {E : Type 0} where
  unfoldable pub subscription : ℕ → Subscription E
  subscription capacity = record {
    capacity = capacity;
    queue = [];
    closed = false;
    dropped = false;
  }

  -- `Subscription.offer`: the queue as it is then, and whether there was room.
  unfoldable pub offer : Subscription E → E → Subscription E × Bool
  offer s event =
      if s.closed || leb s.capacity (length s.queue)
      then (s, false)
      else (record s { queue = s.queue ++ some event ∷ [] }, true)

  -- `Subscription.close`, its own part: the bus takes it out of the set.
  pub close_subscription : Subscription E → Bool → Subscription E
  close_subscription s dropped =
      if s.closed
      then s
      else record s { closed = true; dropped = dropped; queue = s.queue ++ none ∷ [] }

  -- One turn of `async for`: the event to yield, or the end, and what is left of the queue. An empty
  -- queue has the reader wait, and answers nothing.
  unfoldable pub next : Subscription E → Option (Option E × Subscription E)
  next s = elim s.queue [ [] ↦ none | event ∷ rest ↦ some (event, record s { queue = rest }) ]

  unfoldable pub event_bus : ℕ → EventBus E
  event_bus capacity = record {
    capacity = capacity;
    subscribers = [];
    gone = [];
    opened = 0;
    closed = false;
  }

  -- `EventBus.subscribe`; none is `EventBusClosedError`.
  unfoldable pub subscribe : EventBus E → Option (ℕ × EventBus E)
  unfolding subscription
  subscribe b =
      if b.closed
      then none
      else some (
        b.opened,
        record b {
          subscribers = b.subscribers ++ (b.opened, subscription b.capacity) ∷ [];
          opened = suc b.opened;
        },
      )

  -- Who stays after one event, and who is dropped, over the subscribers there are.
  unfoldable pub deliver : E → Dict (Subscription E) → Dict (Subscription E) × Dict (Subscription E)
  unfolding offer close_subscription
  deliver event [] = ([], [])
  deliver event ((i, s) ∷ subs) =
      let (stay, go) = deliver event subs in
      let (s', room) = offer s event in
      if room then ((i, s') ∷ stay, go) else (stay, (i, close_subscription s' true) ∷ go)

  -- `EventBus._fan_out`.
  unfoldable pub fan_out : EventBus E → E → EventBus E
  fan_out b event =
      let (stay, go) = deliver event b.subscribers in
      record b { subscribers = stay; gone = go ++ b.gone }

  -- `EventBus.publish`.
  unfoldable pub publish : EventBus E → E → EventBus E
  unfolding fan_out
  publish b event = if b.closed then b else fan_out b event

  pub close_all : Dict (Subscription E) → Dict (Subscription E)
  unfolding close_subscription
  close_all [] = []
  close_all ((i, s) ∷ subs) = (i, close_subscription s false) ∷ close_all subs

  -- `EventBus.close`.
  pub close : EventBus E → EventBus E
  unfolding close_all
  close b =
      if b.closed
      then b
      else record b { closed = true; subscribers = []; gone = close_all b.subscribers ++ b.gone }

  -- `Subscription.close` by its holder, as `__exit__` calls it: the subscriber leaves the set.
  pub leave : EventBus E → ℕ → EventBus E
  unfolding close_subscription
  leave b i = elim (lookup i b.subscribers) [
    | none ↦ b
    | some s ↦ record b {
      subscribers = erase i b.subscribers;
      gone = (i, close_subscription s false) ∷ b.gone;
    }
  ]

  -- What a turn of the holder's `async for` does to the queue.
  unfoldable pub advance : Subscription E → Subscription E
  unfolding next
  advance s = elim (next s) [ none ↦ s | some (event, s') ↦ s' ]

  unfoldable pub advance_in : ℕ → Dict (Subscription E) → Dict (Subscription E)
  unfolding advance
  advance_in i [] = []
  advance_in i ((j, s) ∷ subs) =
      let rest = advance_in i subs in if i == j then (j, advance s) ∷ rest else (j, s) ∷ rest

  -- A turn of the holder's `async for` over a subscription in the set.
  unfoldable pub read : EventBus E → ℕ → EventBus E
  unfolding advance_in
  read b i = record b { subscribers = advance_in i b.subscribers }

  unfoldable pub publish_all : EventBus E → List E → EventBus E
  publish_all b [] = b
  publish_all b (event ∷ events) = publish_all (publish b event) events
