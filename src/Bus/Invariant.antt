-- ===== src/Bus/Invariant.antt =====
-- events.py: every queue keeps to its bound, the sentinel's slot included.
use urmet_ha.Prelude.{
  ℕ, suc, ◌+◌, ◌≤◌, ◌<◌, ◌≡◌, refl, Bool, true, false, [], ◌∷◌, ◌++◌, none, some, arith, length,
  length-append, inl, inr, Option-cases, Dict, lookup, erase, Distinct, erase-Distinct,
  lookup-append,
}
use urmet_ha.Bus.{
  Subscription, EventBus, subscription, offer, close_subscription, event_bus, subscribe, deliver,
  publish, close_all, close, leave,
}

module _ {E : Type 0} where
  -- An open queue within its capacity; a closed one may hold the sentinel beyond it.
  abbrev pub IsWithin : Subscription E → Type 0
  IsWithin s = (s.closed ≡ false → length s.queue ≤ s.capacity) × (length s.queue ≤ s.capacity + 1)

  pub offer-IsWithin : (s : Subscription E) (e : E) → IsWithin s → IsWithin (offer s e).0
  unfolding offer
  offer-IsWithin s e h = ground (arith, length-append s.queue (some e ∷ []))

  pub close_subscription-IsWithin :
      (s : Subscription E) (d : Bool) → IsWithin s → IsWithin (close_subscription s d)
  unfolding close_subscription
  close_subscription-IsWithin s d h = ground (arith, length-append s.queue (none ∷ []))

  -- All the subscriptions of a list, each of the capacity that the bus gives.
  abbrev pub AllWithin : ℕ → Dict (Subscription E) → Type 0
  AllWithin c [] = Unit {0}
  AllWithin c ((i, s) ∷ subs) = IsWithin s × (s.capacity ≡ c) × AllWithin c subs

  abbrev pub AllClosed : Bool → Dict (Subscription E) → Type 0
  AllClosed b [] = Unit {0}
  AllClosed b ((i, s) ∷ subs) = (s.closed ≡ b) × AllClosed b subs

  abbrev pub AllBelow : ℕ → Dict (Subscription E) → Type 0
  AllBelow n [] = Unit {0}
  AllBelow n ((i, s) ∷ subs) = (i < n) × AllBelow n subs

  -- The set holds open subscriptions under numbers of their own, what left it is closed, and no
  -- queue is over its bound. A closed bus has an empty set.
  pub record IsValid (b : EventBus E) : Type 0 where
    pub set_within : AllWithin b.capacity b.subscribers
    pub set_open : AllClosed false b.subscribers
    pub set_distinct : Distinct b.subscribers
    pub set_below : AllBelow b.opened b.subscribers
    pub gone_within : AllWithin b.capacity b.gone
    pub gone_closed : AllClosed true b.gone
    pub ended : b.closed ≡ true → b.subscribers ≡ []

  AllWithin-append :
      (c : ℕ) (xs ys : Dict (Subscription E))
      → AllWithin c xs
      → AllWithin c ys
      → AllWithin c (xs ++ ys)
  AllWithin-append c [] ys h k = k
  AllWithin-append c (x ∷ xs) ys h k = (h.0, h.1, AllWithin-append c xs ys h.2 k)

  AllClosed-append :
      (b : Bool) (xs ys : Dict (Subscription E))
      → AllClosed b xs
      → AllClosed b ys
      → AllClosed b (xs ++ ys)
  AllClosed-append b [] ys h k = k
  AllClosed-append b (x ∷ xs) ys h k = (h.0, AllClosed-append b xs ys h.1 k)

  AllBelow-append :
      (n : ℕ) (xs ys : Dict (Subscription E))
      → AllBelow n xs
      → AllBelow n ys
      → AllBelow n (xs ++ ys)
  AllBelow-append n [] ys h k = k
  AllBelow-append n (x ∷ xs) ys h k = (h.0, AllBelow-append n xs ys h.1 k)

  AllBelow-suc : (n : ℕ) (xs : Dict (Subscription E)) → AllBelow n xs → AllBelow (suc n) xs
  AllBelow-suc n [] h = tt
  AllBelow-suc n (x ∷ xs) h = (omega arith, AllBelow-suc n xs h.1)

  lookup_above : (n : ℕ) (xs : Dict (Subscription E)) → AllBelow n xs → lookup n xs ≡ none
  lookup_above n [] h = refl
  lookup_above n (x ∷ xs) h = ground (arith, lookup_above n xs h.1)

  -- One event: who is kept is as valid as before, who goes is closed.
  deliver-AllWithin :
      (c : ℕ) (e : E) (subs : Dict (Subscription E))
      → AllWithin c subs
      → AllWithin c (deliver e subs).0 × AllWithin c (deliver e subs).1
  unfolding deliver
  deliver-AllWithin c e [] h = (tt, tt)
  deliver-AllWithin c e ((i, s) ∷ subs) h = ground (
    arith,
    deliver-AllWithin c e subs h.2,
    length-append s.queue (some e ∷ []),
    length-append s.queue (none ∷ []),
  )

  deliver-AllClosed :
      (e : E) (subs : Dict (Subscription E))
      → AllClosed false subs
      → AllClosed false (deliver e subs).0 × AllClosed true (deliver e subs).1
  unfolding deliver
  deliver-AllClosed e [] h = (tt, tt)
  deliver-AllClosed e ((i, s) ∷ subs) h = ground (arith, deliver-AllClosed e subs h.1)

  pub lookup-deliver-none :
      (i : ℕ) (e : E) (subs : Dict (Subscription E))
      → lookup i subs ≡ none
      → (lookup i (deliver e subs).0 ≡ none) × (lookup i (deliver e subs).1 ≡ none)
  unfolding deliver
  lookup-deliver-none i e [] h = (refl, refl)
  lookup-deliver-none i e (x ∷ subs) h = ground (arith, lookup-deliver-none i e subs)

  pub deliver-Distinct :
      (e : E) (subs : Dict (Subscription E)) → Distinct subs → Distinct (deliver e subs).0
  unfolding deliver
  deliver-Distinct e [] h = tt
  deliver-Distinct e (x ∷ subs) h =
      ground (arith, deliver-Distinct e subs h.1, lookup-deliver-none x.0 e subs h.0)

  deliver-AllBelow :
      (n : ℕ) (e : E) (subs : Dict (Subscription E))
      → AllBelow n subs
      → AllBelow n (deliver e subs).0
  unfolding deliver
  deliver-AllBelow n e [] h = tt
  deliver-AllBelow n e (x ∷ subs) h = ground (arith, deliver-AllBelow n e subs h.1)

  pub publish-IsValid : (b : EventBus E) (e : E) → IsValid b → IsValid (publish b e)
  unfolding publish
  publish-IsValid b e v = ground (
    arith,
    deliver-AllWithin b.capacity e b.subscribers v.set_within,
    deliver-AllClosed e b.subscribers v.set_open,
    deliver-Distinct e b.subscribers v.set_distinct,
    deliver-AllBelow b.opened e b.subscribers v.set_below,
    AllWithin-append b.capacity (deliver e b.subscribers).1 b.gone,
    AllClosed-append true (deliver e b.subscribers).1 b.gone,
  )

  Distinct-append :
      (i : ℕ) (s : Subscription E) (xs : Dict (Subscription E))
      → lookup i xs ≡ none
      → Distinct xs
      → Distinct (xs ++ (i, s) ∷ [])
  Distinct-append i s [] h k = (refl, tt)
  Distinct-append i s (x ∷ xs) h k =
      ground (arith, Distinct-append i s xs, lookup-append x.0 xs ((i, s) ∷ []))

  pub subscribe-IsValid :
      (b : EventBus E) {i : ℕ} {b' : EventBus E}
      → IsValid b
      → subscribe b ≡ some (i, b')
      → IsValid b'
  unfolding subscribe
  subscribe-IsValid b {i} {b'} v h = ground (
    arith,
    AllWithin-append b.capacity b.subscribers ((b.opened, fresh) ∷ []) v.set_within,
    AllClosed-append false b.subscribers ((b.opened, fresh) ∷ []) v.set_open,
    AllBelow-append (suc b.opened) b.subscribers ((b.opened, fresh) ∷ []),
    AllBelow-suc b.opened b.subscribers v.set_below,
    Distinct-append b.opened fresh b.subscribers,
    lookup_above b.opened b.subscribers v.set_below,
  )
    where
      fresh : Subscription E
      fresh = subscription b.capacity

  close_all-AllWithin :
      (c : ℕ) (xs : Dict (Subscription E)) → AllWithin c xs → AllWithin c (close_all xs)
  unfolding close_all
  close_all-AllWithin c [] h = tt
  close_all-AllWithin c ((i, s) ∷ xs) h =
      ground (arith, close_all-AllWithin c xs h.2, length-append s.queue (none ∷ []))

  close_all-AllClosed :
      (xs : Dict (Subscription E)) → AllClosed false xs → AllClosed true (close_all xs)
  unfolding close_all
  close_all-AllClosed [] h = tt
  close_all-AllClosed (x ∷ xs) h = ground (arith, close_all-AllClosed xs h.1)

  pub close-IsValid : (b : EventBus E) → IsValid b → IsValid (close b)
  unfolding close
  close-IsValid b v = ground (
    arith,
    close_all-AllWithin b.capacity b.subscribers v.set_within,
    close_all-AllClosed b.subscribers v.set_open,
    AllWithin-append b.capacity (close_all b.subscribers) b.gone,
    AllClosed-append true (close_all b.subscribers) b.gone,
  )

  AllWithin-lookup :
      (c i : ℕ) (xs : Dict (Subscription E)) (s : Subscription E)
      → AllWithin c xs
      → lookup i xs ≡ some s
      → IsWithin s × (s.capacity ≡ c)
  AllWithin-lookup c i [] s h e = cc
  AllWithin-lookup c i (x ∷ xs) s h e = ground (arith, AllWithin-lookup c i xs s h.2)

  pub AllClosed-lookup :
      (b : Bool) (i : ℕ) (xs : Dict (Subscription E)) (s : Subscription E)
      → AllClosed b xs
      → lookup i xs ≡ some s
      → s.closed ≡ b
  AllClosed-lookup b i [] s h e = cc
  AllClosed-lookup b i (x ∷ xs) s h e = ground (arith, AllClosed-lookup b i xs s h.1)

  AllWithin-erase :
      (c i : ℕ) (xs : Dict (Subscription E)) → AllWithin c xs → AllWithin c (erase i xs)
  AllWithin-erase c i [] h = tt
  AllWithin-erase c i (x ∷ xs) h = ground (arith, AllWithin-erase c i xs h.2)

  AllClosed-erase :
      (b : Bool) (i : ℕ) (xs : Dict (Subscription E)) → AllClosed b xs → AllClosed b (erase i xs)
  AllClosed-erase b i [] h = tt
  AllClosed-erase b i (x ∷ xs) h = ground (arith, AllClosed-erase b i xs h.1)

  AllBelow-erase : (n i : ℕ) (xs : Dict (Subscription E)) → AllBelow n xs → AllBelow n (erase i xs)
  AllBelow-erase n i [] h = tt
  AllBelow-erase n i (x ∷ xs) h = ground (arith, AllBelow-erase n i xs h.1)

  pub leave-IsValid : (b : EventBus E) (i : ℕ) → IsValid b → IsValid (leave b i)
  unfolding leave
  leave-IsValid b i v = elim (Option-cases (lookup i b.subscribers)) [
    | inl missing ↦ ground arith
    | inr (s, e) ↦ ground (
      arith,
      AllWithin-lookup b.capacity i b.subscribers s v.set_within e,
      AllClosed-lookup false i b.subscribers s v.set_open e,
      AllWithin-erase b.capacity i b.subscribers v.set_within,
      AllClosed-erase false i b.subscribers v.set_open,
      AllBelow-erase b.opened i b.subscribers v.set_below,
      erase-Distinct i b.subscribers v.set_distinct,
      length-append s.queue (none ∷ []),
    )
  ]

  pub event_bus-IsValid : (c : ℕ) → IsValid (event_bus {E = E} c)
  unfolding event_bus
  event_bus-IsValid c = ground arith
