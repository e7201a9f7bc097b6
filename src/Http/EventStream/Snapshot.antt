-- ===== src/Http/EventStream/Snapshot.antt =====
-- http/ws.py on the bus of usecases/events.py: the state first, then every event, and why it ended.
use urmet_ha.Prelude.{
  ℕ, suc, ◌-◌, take, sym, ◌∙◌, length-append, ◌<◌, ◌≡◌, refl, ap, true, false, Option, none, some,
  List, [], ◌∷◌, ◌++◌, map, lookup, length, arith,
}
use urmet_ha.Bus.{
  Subscription, EventBus, next, advance, read, subscribe, publish, publish_all, close,
}
use mathlib.Core.Path.{subst}
use mathlib.Core.List.{append_assoc, append-nil}
use urmet_ha.Bus.Reading.{read-IsValid, lookup-read}
use urmet_ha.Bus.Invariant.{IsValid, subscribe-IsValid, publish-IsValid}
use urmet_ha.Bus.Delivery.{publish_room, publish-closed, publish_all-drops, behind as cut_off}
use urmet_ha.Bus.Closing.{fresh_subscriber, close-leaves}
use urmet_ha.Http.EventStream.{
  Moment, publishes, reads, Watched, moment, watch, sent_by, read_on, stream, farewell,
  shutting_down, behind, going_away, try_again_later,
}

module _ {E : Type 0} where
  read_all : (events : List E) → read_on false (map some events ++ none ∷ []) ≡ (events, true)
  unfolding read_on
  read_all [] = refl
  read_all (e ∷ events) = rw (read_all events) refl

  -- What was published, in order.
  unfoldable pub published : List (Moment E) → List E
  published [] = []
  published (publishes e ∷ ms) = e ∷ published ms
  published (reads ∷ ms) = published ms

  -- Of a subscriber with so many events unread, that each event finds fewer than the capacity unread.
  unfoldable pub KeepsUp : (capacity unread : ℕ) → List (Moment E) → Type 0
  KeepsUp c n [] = Unit {0}
  KeepsUp c n (publishes e ∷ ms) = (n < c) × KeepsUp c (suc n) ms
  KeepsUp c n (reads ∷ ms) = KeepsUp c (n - 1) ms

  abbrev unread : ℕ → List E → Subscription E
  unread c events = record {
    capacity = c;
    queue = map some events;
    closed = false;
    dropped = false;
  }

  -- The stream so far, and what is unread, are what it was and what was published.
  abbrev IsComplete : ℕ → ℕ → List E → List (Moment E) → Watched E → Type 0
  IsComplete c i all ms w =
      (events : List E) × (lookup i w.bus.subscribers ≡ some (unread c events))
      × (w.bus.closed ≡ false)
      × (w.sent ++ events ≡ all ++ published ms)

  map_snoc : (xs : List E) (x : E) → map some xs ++ some x ∷ [] ≡ map some (xs ++ x ∷ [])
  map_snoc [] x = refl
  map_snoc (y ∷ xs) x = ap (◌∷◌ (some y)) (map_snoc xs x)

  length-unread : (xs : List E) → length (map some xs) ≡ length xs
  length-unread [] = refl
  length-unread (x ∷ xs) = ap suc (length-unread xs)

  publish-unread :
      (c i : ℕ) (b : EventBus E) (events : List E) (e : E)
      → IsValid b
      → b.closed ≡ false
      → lookup i b.subscribers ≡ some (unread c events)
      → length events < c
      → lookup i (publish b e).subscribers ≡ some (unread c (events ++ e ∷ []))
  publish-unread c i b events e v o h room =
      publish_room b i e (unread c events) v o h (omega (arith, length-unread events, room))
      ∙ ap (λ q. some (record { capacity = c; queue = q; closed = false; dropped = false }))
          (map_snoc events e)

  moment-reads :
      (i : ℕ) (w : Watched E) (s : Subscription E)
      → lookup i w.bus.subscribers ≡ some s
      → moment i reads w ≡ record { bus = read w.bus i; sent = w.sent ++ sent_by s }
  unfolding moment
  moment-reads i w s h = rw (h, moment) refl

  -- Neither the stream nor what is unread loses an event by a read.
  read_lem :
      (c : ℕ) (events : List E)
      → (rest : List E) × (advance (unread c events) ≡ unread c rest)
        × (sent_by (unread c events) ++ rest ≡ events)
        × (length rest ≡ length events - 1)
  unfolding advance next sent_by
  read_lem c [] = ([], refl, refl, refl)
  read_lem c (e ∷ events) = (events, refl, refl, omega arith)

  watch-IsComplete :
      (c i : ℕ) (ms : List (Moment E)) (w : Watched E) (events : List E)
      → IsValid w.bus
      → w.bus.closed ≡ false
      → lookup i w.bus.subscribers ≡ some (unread c events)
      → KeepsUp c (length events) ms
      → IsComplete c i (w.sent ++ events) ms (watch i ms w)
  unfolding watch moment published KeepsUp
  watch-IsComplete c i [] w events v o h room = (events, h, o, sym (append-nil (w.sent ++ events)))
  watch-IsComplete c i (publishes e ∷ ms) w events v o h room =
      let w' : Watched E = record w { bus = publish w.bus e } in
      let more : length (events ++ e ∷ []) ≡ suc (length events) =
        omega (arith, length-append events (e ∷ [])) in
      let (left, there, on, all) =
        watch-IsComplete c i ms w' (events ++ e ∷ []) (publish-IsValid w.bus e v)
          (publish-closed w.bus e ∙ o) (publish-unread c i w.bus events e v o h room.0)
          (rw more room.1) in
      (left, there, on, all ∙ simp append_assoc refl)
  watch-IsComplete c i (reads ∷ ms) w events v o h room =
      let (rest, moved, kept, fewer) = read_lem c events in
      let got = lookup-read w.bus i (unread c events) h in
      let w' : Watched E = record {
        bus = read w.bus i;
        sent = w.sent ++ sent_by (unread c events);
      } in
      let after =
        watch-IsComplete c i ms w' rest (read-IsValid w.bus i v) (got.1 ∙ o) (got.0 ∙ ap some moved)
          (rw fewer room) in
      let same : w'.sent ++ rest ≡ w.sent ++ events =
        append_assoc w.sent (sent_by (unread c events)) rest ∙ ap (λ l. w.sent ++ l) kept in
      subst (λ x. IsComplete c i (w.sent ++ events) ms (watch i ms x))
        (sym (moment-reads i w (unread c events) h))
        (subst (λ l. IsComplete c i l ms (watch i ms w')) same after)

  -- Whoever subscribes to an open bus and then reads the snapshot misses nothing, in whatever order the
  -- bus publishes and the client takes its messages: if no event finds a full queue, the stream is the
  -- snapshot, then every event published from the subscription on, in order, until the bus closes, and
  -- it ends by the close code of a shutdown.
  pub stream_complete :
      (b : EventBus E) (snapshot : E) (ms : List (Moment E)) {i : ℕ} {b' : EventBus E}
      → IsValid b
      → subscribe b ≡ some (i, b')
      → KeepsUp b.capacity 0 ms
      → let w = watch i ms (record { bus = b'; sent = snapshot ∷ [] }) in
        (s : Subscription E) × (lookup i (close w.bus).gone ≡ some s)
        × (w.sent ++ (read_on s.dropped s.queue).0 ≡ snapshot ∷ published ms)
        × ((read_on s.dropped s.queue).1 ≡ true)
        × (farewell false s ≡ (going_away, shutting_down))
  unfolding farewell
  stream_complete b snapshot ms {i} {b'} v e room =
      let fresh = fresh_subscriber b v e in
      let w0 : Watched E = record { bus = b'; sent = snapshot ∷ [] } in
      let w = watch i ms w0 in
      let (events, there, on, all) =
        watch-IsComplete b.capacity i ms w0 [] (subscribe-IsValid b v e) fresh.1 fresh.0 room in
      (
        record (unread b.capacity events) { closed = true; queue = map some events ++ none ∷ [] },
        close-leaves w.bus i (unread b.capacity events) on there refl,
        ap (λ r. w.sent ++ r.0) (read_all events) ∙ all,
        ap (λ r. r.1) (read_all events),
        refl,
      )

  read_dropped : (queue : List (Option E)) → read_on true (queue ++ none ∷ []) ≡ ([], true)
  unfolding read_on
  read_dropped [] = refl
  read_dropped (none ∷ queue) = refl
  read_dropped (some e ∷ queue) = refl

  -- A subscriber that is sent more than its capacity before it reads on gets the snapshot and nothing after
  -- it, and is told by the close code to try again later, whatever is published then.
  pub stream-behind :
      (b : EventBus E) (snapshot : E) (events : List E) {i : ℕ} {b' : EventBus E}
      → IsValid b
      → subscribe b ≡ some (i, b')
      → b.capacity < length events
      → (s : Subscription E) × (lookup i (publish_all b' events).gone ≡ some s)
        × (stream snapshot s ≡ (snapshot ∷ [], true))
        × (farewell false s ≡ (try_again_later, behind))
  unfolding stream farewell
  stream-behind b snapshot events {i} {b'} v e over =
      let fresh = fresh_subscriber b v e in
      let fresh_ : Subscription E = record {
        capacity = b.capacity;
        queue = [];
        closed = false;
        dropped = false;
      } in
      let drops =
        publish_all-drops b' i events fresh_ (subscribe-IsValid b v e) fresh.1 fresh.0 (omega arith)
          (omega (arith, over)) in
      (
        cut_off fresh_ events,
        drops.1,
        ap (λ r. (snapshot ∷ r.0, r.1)) (read_dropped (map some (take (b.capacity - 0) events))),
        refl,
      )
