-- ===== src/Bus/Closing.antt =====
-- usecases/events.py: a subscriber when it comes, and when the bus closes.
use urmet_ha.Prelude.{
  ℕ, ◌≡◌, refl, true, false, none, some, List, [], ◌∷◌, ◌++◌, Dict, lookup, arith, lookup-append,
}
use urmet_ha.Bus.{
  Subscription, EventBus, subscription, subscribe, publish, publish_all, fan_out, close, close_all,
  close_subscription,
}
use urmet_ha.Bus.Invariant.{IsValid, AllBelow}

module _ {E : Type 0} where
  below_absent : (n : ℕ) (subs : Dict (Subscription E)) → AllBelow n subs → lookup n subs ≡ none
  below_absent n [] h = refl
  below_absent n (x ∷ subs) h = ground (arith, below_absent n subs h.1)

  pub fresh_subscriber :
      (b : EventBus E) {i : ℕ} {b' : EventBus E}
      → IsValid b
      → subscribe b ≡ some (i, b')
      → (lookup i b'.subscribers
          ≡ some (record { capacity = b.capacity; queue = []; closed = false; dropped = false }))
        × (b'.closed ≡ false)
  unfolding subscribe subscription
  fresh_subscriber b v e = ground (
    arith,
    e,
    below_absent b.opened b.subscribers v.set_below,
    lookup-append b.opened b.subscribers ((b.opened, subscription b.capacity) ∷ []),
  )

  pub publish_all-open :
      (b : EventBus E) (events : List E) → b.closed ≡ false → (publish_all b events).closed ≡ false
  unfolding publish_all publish fan_out
  publish_all-open b [] h = h
  publish_all-open b (e ∷ events) h = publish_all-open (publish b e) events (ground (arith, h))

  lookup-close_all :
      (i : ℕ) (subs : Dict (Subscription E)) (s : Subscription E)
      → lookup i subs ≡ some s
      → lookup i (close_all subs) ≡ some (close_subscription s false)
  unfolding close_all
  lookup-close_all i [] s h = cc
  lookup-close_all i (x ∷ subs) s h = ground (arith, lookup-close_all i subs s)

  -- A subscriber that the bus closes is out of the set and reads its end behind what it was sent.
  pub close-leaves :
      (b : EventBus E) (i : ℕ) (s : Subscription E)
      → b.closed ≡ false
      → lookup i b.subscribers ≡ some s
      → s.closed ≡ false
      → lookup i (close b).gone
        ≡ some (record s { closed = true; dropped = false; queue = s.queue ++ none ∷ [] })
  unfolding close close_subscription
  close-leaves b i s o h on = ground (
    arith,
    o,
    on,
    lookup-close_all i b.subscribers s h,
    lookup-append i (close_all b.subscribers) b.gone,
  )
