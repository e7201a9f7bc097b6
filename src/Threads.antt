-- ===== src/Threads.antt =====
-- Coroutines on one event loop. A coroutine runs to its next await, and goes on from there in
-- whatever state the loop is in when it is resumed; the loop resumes any that waits, in any order.
use urmet_ha.Domain.Errors.{Outcome, ok}
use urmet_ha.Prelude.{ℕ, zero, suc, Option, none, some, List, [], ◌∷◌, ◌++◌}

-- A coroutine that gives an `A`: it ends in a state, with a value or an error, or waits in one.
pub data Course (S A : Type 0) : Type 0 where
  ends : Outcome A → S → Course S A
  waits : S → (S → Course S A) → Course S A

module _ {S A : Type 0} where
  -- A coroutine alone, with what the loop does at its awaits, in their order.
  unfoldable pub plays : (ℕ → S → S) → ℕ → Course S A → Outcome A × S
  plays meanwhile n (ends o s) = (o, s)
  plays meanwhile n (waits s k) = plays meanwhile (suc n) (k (meanwhile n s))

  -- What is done however a coroutine ends.
  unfoldable pub finally : (S → S) → Course S A → Course S A
  finally f (ends o s) = ends o (f s)
  finally f (waits s k) = waits s (λ t. finally f (k t))

  -- A coroutine whose result nobody reads.
  unfoldable pub silent : Course S A → Course S (Unit {0})
  silent (ends o s) = ends (ok tt) s
  silent (waits s k) = waits s (λ t. silent (k t))

-- The loop's state, and the coroutines that wait, oldest first.
pub record Pool (S : Type 0) : Type 0 where
  pub state : S
  pub waiting : List (S → Course S (Unit {0}))

-- A coroutine or a callback begins, or one that waits is resumed.
pub data Step (R : Type 0) : Type 0 where
  begins : R → Step R
  resumes : ℕ → Step R

-- The element at that place, and the others.
unfoldable pub take_out : {A : Type 0} → ℕ → List A → Option (A × List A)
take_out n [] = none
take_out zero (x ∷ xs) = some (x, xs)
take_out (suc n) (x ∷ xs) = elim (take_out n xs) [ none ↦ none | some (y, ys) ↦ some (y, x ∷ ys) ]

module _ {S : Type 0} where
  unfoldable pub advance : Course S (Unit {0}) → List (S → Course S (Unit {0})) → Pool S
  advance (ends o s) ks = record { state = s; waiting = ks }
  advance (waits s k) ks = record { state = s; waiting = ks ++ k ∷ [] }

  unfoldable pub resume :
      Option ((S → Course S (Unit {0})) × List (S → Course S (Unit {0}))) → Pool S → Pool S
  resume none p = p
  resume (some (k, ks)) p = advance (k p.state) ks

  module _ {R : Type 0} (course : R → S → Course S (Unit {0})) where
    unfoldable pub step : Step R → Pool S → Pool S
    unfolding advance take_out resume
    step (begins r) p = advance (course r p.state) p.waiting
    step (resumes n) p = resume (take_out n p.waiting) p

    unfoldable pub run : List (Step R) → Pool S → Pool S
    unfolding step
    run [] p = p
    run (t ∷ ts) p = run ts (step t p)

  -- What holds between any two steps, and what every step keeps to.
  module _ (P : S → Type 0) (G : S → S → Type 0) where
    unfoldable pub IsSafe : {A : Type 0} → S → Course S A → Type 0
    IsSafe s (ends o s') = P s' × G s s'
    IsSafe s (waits s' k) = P s' × G s s' × ((t : S) → G s' t → P t → IsSafe t (k t))

    pub silent-IsSafe : {A : Type 0} (s : S) (c : Course S A) → IsSafe s c → IsSafe s (silent c)
    unfolding IsSafe silent
    silent-IsSafe s (ends o t) h = h
    silent-IsSafe s (waits t k) h = (h.0, h.1, λ u g p. silent-IsSafe u (k u) (h.2 u g p))

    -- A coroutine that waits may go on from wherever the others have brought the state.
    abbrev pub IsReady : S → (S → Course S (Unit {0})) → Type 0
    IsReady s k = (t : S) → G s t → P t → IsSafe t (k t)

    abbrev pub AreReady : S → List (S → Course S (Unit {0})) → Type 0
    AreReady s [] = Unit {0}
    AreReady s (k ∷ ks) = IsReady s k × AreReady s ks

    module _ (same : (s : S) → G s s) (joined : (s t u : S) → G s t → G t u → G s u) where
      AreReady-later :
          (s t : S) (ks : List (S → Course S (Unit {0}))) → G s t → AreReady s ks → AreReady t ks
      AreReady-later s t [] g h = tt
      AreReady-later s t (k ∷ ks) g h =
          (λ u q p. h.0 u (joined s t u g q) p, AreReady-later s t ks g h.1)

      AreReady-append :
          (s : S) (ks ls : List (S → Course S (Unit {0})))
          → AreReady s ks
          → AreReady s ls
          → AreReady s (ks ++ ls)
      AreReady-append s [] ls h l = l
      AreReady-append s (k ∷ ks) ls h l = (h.0, AreReady-append s ks ls h.1 l)

      abbrev pub IsKept : Pool S → Type 0
      IsKept p = P p.state × AreReady p.state p.waiting

      advance-IsKept :
          (s : S) (c : Course S (Unit {0})) (ks : List (S → Course S (Unit {0})))
          → IsSafe s c
          → AreReady s ks
          → IsKept (advance c ks)
      unfolding advance IsSafe
      advance-IsKept s (ends o s') ks h r = (h.0, AreReady-later s s' ks h.1 r)
      advance-IsKept s (waits s' k) ks h r =
          (h.0, AreReady-append s' ks (k ∷ []) (AreReady-later s s' ks h.1 r) (h.2, tt))

      abbrev Splits :
          S → Option ((S → Course S (Unit {0})) × List (S → Course S (Unit {0}))) → Type 0
      Splits s none = Unit {0}
      Splits s (some (k, ks)) = IsReady s k × AreReady s ks

      take_out-Splits :
          (n : ℕ) (s : S) (ks : List (S → Course S (Unit {0})))
          → AreReady s ks
          → Splits s (take_out n ks)
      unfolding take_out
      take_out-Splits n s [] h = tt
      take_out-Splits zero s (k ∷ ks) h = h
      take_out-Splits (suc n) s (k ∷ ks) h = go (take_out n ks) (take_out-Splits n s ks h.1)
        where
          go :
              (o : Option ((S → Course S (Unit {0})) × List (S → Course S (Unit {0}))))
              → Splits s o
              → Splits s (elim o [ none ↦ none | some (y, ys) ↦ some (y, k ∷ ys) ])
          go none q = tt
          go (some (y, ys)) q = (q.0, (h.0, q.1))

      resume-IsKept :
          (o : Option ((S → Course S (Unit {0})) × List (S → Course S (Unit {0})))) (p : Pool S)
          → IsKept p
          → Splits p.state o
          → IsKept (resume o p)
      unfolding resume
      resume-IsKept none p h q = h
      resume-IsKept (some (k, ks)) p h q =
          advance-IsKept p.state (k p.state) ks (q.0 p.state (same p.state) h.0) q.1

      module _ {R : Type 0} (course : R → S → Course S (Unit {0}))
          (safe : (r : R) (s : S) → P s → IsSafe s (course r s)) where
        -- Under every interleaving the invariant holds between any two steps.
        pub run-IsKept : (ts : List (Step R)) (p : Pool S) → IsKept p → IsKept (run course ts p)
        unfolding run step
        run-IsKept [] p h = h
        run-IsKept (begins r ∷ ts) p h =
            run-IsKept ts (advance (course r p.state) p.waiting)
              (advance-IsKept p.state (course r p.state) p.waiting (safe r p.state h.0) h.1)
        run-IsKept (resumes n ∷ ts) p h =
            run-IsKept ts (resume (take_out n p.waiting) p)
              (resume-IsKept (take_out n p.waiting) p h (take_out-Splits n p.state p.waiting h.1))
