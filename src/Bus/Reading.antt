-- ===== src/Bus/Reading.antt =====
-- events.py: a subscriber that reads on while others publish.
use urmet_ha.Prelude.{
  ℕ, ◌≤◌, ◌≡◌, refl, ap, Bool, false, [], ◌∷◌, none, some, arith, length, Dict, lookup, Distinct,
}
use urmet_ha.Bus.{Subscription, EventBus, next, advance, advance_in, read}
use urmet_ha.Bus.Invariant.{IsValid, AllWithin, AllClosed, AllBelow}

module _ {E : Type 0} where
  advance_lem :
      (s : Subscription E)
      → ((advance s).closed ≡ s.closed)
        × ((advance s).capacity ≡ s.capacity)
        × (length (advance s).queue ≤ length s.queue)
  unfolding advance next
  advance_lem s = ground arith

  advance_in-AllWithin :
      (c i : ℕ) (xs : Dict (Subscription E)) → AllWithin c xs → AllWithin c (advance_in i xs)
  unfolding advance_in
  advance_in-AllWithin c i [] h = tt
  advance_in-AllWithin c i ((j, s) ∷ xs) h =
      ground (arith, advance_in-AllWithin c i xs h.2, advance_lem s)

  advance_in-AllClosed :
      (b : Bool) (i : ℕ) (xs : Dict (Subscription E))
      → AllClosed b xs
      → AllClosed b (advance_in i xs)
  unfolding advance_in
  advance_in-AllClosed b i [] h = tt
  advance_in-AllClosed b i ((j, s) ∷ xs) h =
      ground (arith, advance_in-AllClosed b i xs h.1, advance_lem s)

  advance_in-AllBelow :
      (n i : ℕ) (xs : Dict (Subscription E)) → AllBelow n xs → AllBelow n (advance_in i xs)
  unfolding advance_in
  advance_in-AllBelow n i [] h = tt
  advance_in-AllBelow n i ((j, s) ∷ xs) h = ground (arith, advance_in-AllBelow n i xs h.1)

  lookup-advance_in-none :
      (k i : ℕ) (xs : Dict (Subscription E))
      → lookup k xs ≡ none
      → lookup k (advance_in i xs) ≡ none
  unfolding advance_in
  lookup-advance_in-none k i [] h = refl
  lookup-advance_in-none k i ((j, s) ∷ xs) h = ground (arith, lookup-advance_in-none k i xs)

  advance_in-Distinct :
      (i : ℕ) (xs : Dict (Subscription E)) → Distinct xs → Distinct (advance_in i xs)
  unfolding advance_in
  advance_in-Distinct i [] h = tt
  advance_in-Distinct i ((j, s) ∷ xs) h =
      ground (arith, advance_in-Distinct i xs h.1, lookup-advance_in-none j i xs h.0)

  lookup-advance_in :
      (i : ℕ) (xs : Dict (Subscription E)) (s : Subscription E)
      → lookup i xs ≡ some s
      → lookup i (advance_in i xs) ≡ some (advance s)
  unfolding advance_in
  lookup-advance_in i [] s h = cc
  lookup-advance_in i ((j, s') ∷ xs) s h = ground (arith, lookup-advance_in i xs s)

  pub read-IsValid : (b : EventBus E) (i : ℕ) → IsValid b → IsValid (read b i)
  unfolding read
  read-IsValid b i v = record {
    set_within = advance_in-AllWithin b.capacity i b.subscribers v.set_within;
    set_open = advance_in-AllClosed false i b.subscribers v.set_open;
    set_distinct = advance_in-Distinct i b.subscribers v.set_distinct;
    set_below = advance_in-AllBelow b.opened i b.subscribers v.set_below;
    gone_within = v.gone_within;
    gone_closed = v.gone_closed;
    ended = λ c. ap (advance_in i) (v.ended c);
  }

  pub lookup-read :
      (b : EventBus E) (i : ℕ) (s : Subscription E)
      → lookup i b.subscribers ≡ some s
      → (lookup i (read b i).subscribers ≡ some (advance s)) × ((read b i).closed ≡ b.closed)
  unfolding read
  lookup-read b i s h = (lookup-advance_in i b.subscribers s h, refl)
