-- ===== src/Prelude/Lists.antt =====
-- Lists measured by native numbers, and association lists for the dicts keyed by an id.
use Prim.Native.Nat.{ℕ, zero, suc, ◌+◌, ◌-◌, min}
use mathlib.Core.Path.{◌≡◌, refl, ap}
use mathlib.Core.Logic.{◌≢◌}
use mathlib.Core.Bool.{Bool, false, ◌||◌}
use mathlib.Core.List.{List, [], ◌∷◌, ◌++◌}
use mathlib.Core.Option.{Option, none, some}
use native.Mathlib.Omega.{arith}
use urmet_ha.Prelude.Tests.{◌==◌, if◌then◌else◌}

module _ {ℓ} {A : Type ℓ} where
  abbrev pub length : List A → ℕ
  length [] = 0
  length (x ∷ xs) = suc (length xs)

  abbrev pub take : ℕ → List A → List A
  take zero xs = []
  take (suc n) [] = []
  take (suc n) (x ∷ xs) = x ∷ take n xs

  abbrev pub drop : ℕ → List A → List A
  drop zero xs = xs
  drop (suc n) [] = []
  drop (suc n) (x ∷ xs) = drop n xs

  pub length-append : (xs ys : List A) → length (xs ++ ys) ≡ length xs + length ys
  length-append [] ys = omega arith
  length-append (x ∷ xs) ys = omega (arith, length-append xs ys)

  pub take-append-drop : (n : ℕ) (xs : List A) → take n xs ++ drop n xs ≡ xs
  take-append-drop zero xs = refl
  take-append-drop (suc n) [] = refl
  take-append-drop (suc n) (x ∷ xs) = ap (◌∷◌ x) (take-append-drop n xs)

  pub length-take : (n : ℕ) (xs : List A) → length (take n xs) ≡ min n (length xs)
  length-take zero xs = omega arith
  length-take (suc n) [] = omega arith
  length-take (suc n) (x ∷ xs) = omega (arith, length-take n xs)

  pub length-drop : (n : ℕ) (xs : List A) → length (drop n xs) ≡ length xs - n
  length-drop zero xs = omega arith
  length-drop (suc n) [] = omega arith
  length-drop (suc n) (x ∷ xs) = omega (arith, length-drop n xs)

-- Membership of an id in a set kept as a list.
abbrev pub contains : ℕ → List ℕ → Bool
contains k [] = false
contains k (x ∷ xs) = k == x || contains k xs

-- `set.discard`
abbrev pub discard : ℕ → List ℕ → List ℕ
discard k [] = []
discard k (x ∷ xs) = let rest = discard k xs in if k == x then rest else x ∷ rest

-- A Python dict keyed by ids, in insertion order.
abbrev pub Dict {ℓ} : Type ℓ → Type ℓ
Dict V = List (ℕ × V)

module _ {ℓ} {V : Type ℓ} where
  -- `d.get(key)`
  abbrev pub lookup : ℕ → Dict V → Option V
  lookup key [] = none
  lookup key ((j, x) ∷ d) = if key == j then some x else lookup key d

  -- `d[key] = x`: a key that is there keeps its place.
  abbrev pub insert : ℕ → V → Dict V → Dict V
  insert key x [] = (key, x) ∷ []
  insert key x (e ∷ d) = if key == e.0 then (key, x) ∷ d else e ∷ insert key x d

  -- `d.pop(key, None)`
  abbrev pub erase : ℕ → Dict V → Dict V
  erase key [] = []
  erase key (e ∷ d) = if key == e.0 then d else e ∷ erase key d

module _ {V : Type 0} where
  -- The keys stand once each.
  abbrev pub Distinct : Dict V → Type 0
  Distinct [] = Unit {0}
  Distinct ((k, v) ∷ d) = (lookup k d ≡ none) × Distinct d

  pub lookup-insert :
      (j k : ℕ) (v : V) (d : Dict V)
      → lookup j (insert k v d) ≡ (if j == k then some v else lookup j d)
  lookup-insert j k v [] = refl
  lookup-insert j k v (e ∷ d) = ground (arith, lookup-insert j k v d)

  pub lookup-erase_ne : (j key : ℕ) (d : Dict V) → j ≢ key → lookup j (erase key d) ≡ lookup j d
  lookup-erase_ne j key [] h = refl
  lookup-erase_ne j key (e ∷ d) h = ground (arith, lookup-erase_ne j key d h)

  pub lookup-erase_self : (key : ℕ) (d : Dict V) → Distinct d → lookup key (erase key d) ≡ none
  lookup-erase_self key [] h = refl
  lookup-erase_self key (e ∷ d) h = ground (arith, lookup-erase_self key d h.1)

  pub insert-Distinct : (key : ℕ) (v : V) (d : Dict V) → Distinct d → Distinct (insert key v d)
  insert-Distinct key v [] h = (refl, tt)
  insert-Distinct key v (e ∷ d) h =
      ground (arith, insert-Distinct key v d h.1, lookup-insert e.0 key v d)

  pub erase-Distinct : (key : ℕ) (d : Dict V) → Distinct d → Distinct (erase key d)
  erase-Distinct key [] h = tt
  erase-Distinct key (e ∷ d) h = ground (arith, erase-Distinct key d h.1, lookup-erase_ne e.0 key d)

  pub lookup-append :
      (key : ℕ) (d e : Dict V)
      → lookup key (d ++ e) ≡ elim (lookup key d) [ none ↦ lookup key e | some v ↦ some v ]
  lookup-append key [] e = refl
  lookup-append key (x ∷ d) e = ground (arith, lookup-append key d e)

pub contains-discard :
    (j key : ℕ) (xs : List ℕ)
    → contains j (discard key xs) ≡ (if j == key then false else contains j xs)
contains-discard j key [] = ground arith
contains-discard j key (x ∷ xs) = ground (arith, contains-discard j key xs)
