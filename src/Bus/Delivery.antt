-- ===== src/Bus/Delivery.antt =====
-- events.py: what each subscriber is sent. It depends on its own queue alone.
use urmet_ha.Prelude.{
  ℕ, suc, ◌+◌, ◌-◌, ◌≤◌, ◌<◌, ◌≡◌, refl, ◌∙◌, true, false, List, [], ◌∷◌, ◌++◌, none, some, map,
  arith, length, length-append, take, Dict, lookup, Distinct, lookup-append,
}
use mathlib.Core.List.{append_assoc, append-nil}
use native.Mathlib.Decide.{dec_lt}
use urmet_ha.Bus.{Subscription, EventBus, deliver, publish, publish_all}
use urmet_ha.Bus.Invariant.{IsValid, AllClosed-lookup, publish-IsValid, lookup-deliver-none}

module _ {E : Type 0} where
  -- One event, for a subscriber with room.
  deliver_room :
      (i : ℕ) (e : E) (subs : Dict (Subscription E)) (s : Subscription E)
      → Distinct subs
      → lookup i subs ≡ some s
      → s.closed ≡ false
      → length s.queue < s.capacity
      → (lookup i (deliver e subs).0 ≡ some (record s { queue = s.queue ++ some e ∷ [] }))
        × (lookup i (deliver e subs).1 ≡ none)
  unfolding deliver
  deliver_room i e [] s d h open_ room = cc
  deliver_room i e (x ∷ subs) s d h open_ room =
      ground (arith, deliver_room i e subs s d.1, lookup-deliver-none i e subs)

  -- One event, for a subscriber without.
  deliver_full :
      (i : ℕ) (e : E) (subs : Dict (Subscription E)) (s : Subscription E)
      → Distinct subs
      → lookup i subs ≡ some s
      → s.closed ≡ false
      → s.capacity ≤ length s.queue
      → (lookup i (deliver e subs).0 ≡ none)
        × (lookup i (deliver e subs).1
            ≡ some (record s { queue = s.queue ++ none ∷ []; closed = true; dropped = true }))
  unfolding deliver
  deliver_full i e [] s d h open_ full = cc
  deliver_full i e (x ∷ subs) s d h open_ full =
      ground (arith, deliver_full i e subs s d.1, lookup-deliver-none i e subs)

  pub publish-closed : (b : EventBus E) (e : E) → (publish b e).closed ≡ b.closed
  unfolding publish
  publish-closed b e = ground arith

  pub publish_room :
      (b : EventBus E) (i : ℕ) (e : E) (s : Subscription E)
      → IsValid b
      → b.closed ≡ false
      → lookup i b.subscribers ≡ some s
      → length s.queue < s.capacity
      → lookup i (publish b e).subscribers ≡ some (record s { queue = s.queue ++ some e ∷ [] })
  unfolding publish
  publish_room b i e s v o h room = ground (
    arith,
    deliver_room i e b.subscribers s v.set_distinct h
        (AllClosed-lookup false i b.subscribers s v.set_open h) room,
  )

  publish_full :
      (b : EventBus E) (i : ℕ) (e : E) (s : Subscription E)
      → IsValid b
      → b.closed ≡ false
      → lookup i b.subscribers ≡ some s
      → s.capacity ≤ length s.queue
      → (lookup i (publish b e).subscribers ≡ none)
        × (lookup i (publish b e).gone
            ≡ some (record s { queue = s.queue ++ none ∷ []; closed = true; dropped = true }))
  unfolding publish
  publish_full b i e s v o h full = ground (
    arith,
    deliver_full i e b.subscribers s v.set_distinct h
        (AllClosed-lookup false i b.subscribers s v.set_open h) full,
    lookup-append i (deliver e b.subscribers).1 b.gone,
  )

  -- A subscriber with room for all the events of a run stays in the set, and its queue gains exactly
  -- those events, in order, whatever the other subscribers do.
  pub publish_all-delivers :
      (b : EventBus E) (i : ℕ) (events : List E) (s : Subscription E)
      → IsValid b
      → b.closed ≡ false
      → lookup i b.subscribers ≡ some s
      → length s.queue + length events ≤ s.capacity
      → lookup i (publish_all b events).subscribers
        ≡ some (record s { queue = s.queue ++ map some events })
  unfolding publish_all
  publish_all-delivers b i [] s v o h room = rw append-nil h
  publish_all-delivers b i (e ∷ events) s v o h room =
      rw (← append_assoc s.queue (some e ∷ []) (map some events)) (
        publish_all-delivers (publish b e) i events (record s { queue = s.queue ++ some e ∷ [] })
          (publish-IsValid b e v) (publish-closed b e ∙ o)
          (publish_room b i e s v o h (omega arith))
          (omega (arith, length-append s.queue (some e ∷ []))))

  -- What left the set is sent nothing more.
  publish-gone :
      (b : EventBus E) (i : ℕ) (e : E) (s : Subscription E)
      → lookup i b.subscribers ≡ none
      → lookup i b.gone ≡ some s
      → (lookup i (publish b e).subscribers ≡ none) × (lookup i (publish b e).gone ≡ some s)
  unfolding publish
  publish-gone b i e s h g = ground (
    arith,
    lookup-deliver-none i e b.subscribers h,
    lookup-append i (deliver e b.subscribers).1 b.gone,
  )

  publish_all-gone :
      (b : EventBus E) (i : ℕ) (events : List E) (s : Subscription E)
      → lookup i b.subscribers ≡ none
      → lookup i b.gone ≡ some s
      → (lookup i (publish_all b events).subscribers ≡ none)
        × (lookup i (publish_all b events).gone ≡ some s)
  unfolding publish_all
  publish_all-gone b i [] s h g = (h, g)
  publish_all-gone b i (e ∷ events) s h g =
      let after = publish-gone b i e s h g in
      publish_all-gone (publish b e) i events s after.0 after.1

  take_room :
      (x : E) (xs : List E) (c n : ℕ) → n < c → take (c - n) (x ∷ xs) ≡ x ∷ take (c - (n + 1)) xs
  take_room x xs c n h = let e : c - n ≡ suc (c - (n + 1)) = omega arith in rw e refl

  take_none : (xs : List E) (c n : ℕ) → c ≤ n → take (c - n) xs ≡ []
  take_none xs c n h = let e : c - n ≡ 0 = omega arith in rw e refl

  abbrev pub behind : Subscription E → List E → Subscription E
  behind s events = record s {
    queue = s.queue ++ (map some (take (s.capacity - length s.queue) events) ++ none ∷ []);
    closed = true;
    dropped = true;
  }

  behind_step :
      (s : Subscription E) (e : E) (events : List E)
      → behind (record s { queue = s.queue ++ some e ∷ [] }) events ≡ record s {
        queue =
            s.queue
            ++ (some e ∷ (map some (take (s.capacity - (length s.queue + 1)) events) ++ none ∷ []));
        closed = true;
        dropped = true;
      }
  behind_step s e events = rw (length-append s.queue (some e ∷ []), append_assoc) refl

  -- A subscriber that falls behind by more than its capacity is out of the set, marked as dropped;
  -- it still reads what fitted, in order, and then the end.
  pub publish_all-drops :
      (b : EventBus E) (i : ℕ) (events : List E) (s : Subscription E)
      → IsValid b
      → b.closed ≡ false
      → lookup i b.subscribers ≡ some s
      → length s.queue ≤ s.capacity
      → s.capacity < length s.queue + length events
      → (lookup i (publish_all b events).subscribers ≡ none)
        × (lookup i (publish_all b events).gone ≡ some (behind s events))
  unfolding publish_all
  publish_all-drops b i [] s v o h within over = absurd (omega arith)
  publish_all-drops b i (e ∷ events) s v o h within over =
      elim (dec_lt (length s.queue) s.capacity) [
        | yes room ↦ rw (take_room e events s.capacity (length s.queue) room) (
            rw (behind_step s e events) at (
              publish_all-drops (publish b e) i events (record s { queue = s.queue ++ some e ∷ [] })
                (publish-IsValid b e v) (publish-closed b e ∙ o) (publish_room b i e s v o h room)
                (omega (arith, length-append s.queue (some e ∷ [])))
                (omega (arith, length-append s.queue (some e ∷ [])))))
        | no full ↦
            let out = publish_full b i e s v o h (omega arith) in
            rw (take_none (e ∷ events) s.capacity (length s.queue) (omega arith))
              (publish_all-gone (publish b e) i events _ out.0 out.1)
      ]
