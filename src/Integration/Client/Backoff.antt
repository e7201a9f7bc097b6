-- ===== src/Integration/Client/Backoff.antt =====
-- client.py: an outage, however long, is waited out on the schedule, and said a bounded number of
-- times.
use urmet_ha.Prelude.{
  ℕ, suc, min, ◌+◌, ◌-◌, ◌*◌, ◌≤◌, ◌≡◌, refl, sym, ap, ◌∙◌, Bool, some, true, false, List, [], ◌∷◌,
  ◌++◌, length, if◌then◌else◌, ltb, arith,
}
use mathlib.Core.Path.{subst}
use mathlib.Core.List.{append-nil, append_assoc}
use urmet_ha.Integration.Client.{
  Client, Surroundings, Line, unavailable, reconnected, stream_error, stream_crashed, bad_frame,
  listener_raised, transport, crash, Attempt, refused, failed, consume, after, log_failure,
  attempts, back_off, run_from, run, write, steps, delay_for, schedule, jitter,
}

-- The schedule of an attempt.
abbrev pub base_of : ℕ → ℕ
base_of attempt = schedule (min attempt (steps - 1))

-- Within a quarter of the schedule.
abbrev pub Near : ℕ → ℕ → Type 0
Near attempt delay = (3 * base_of attempt ≤ 4 * delay) × (4 * delay ≤ 5 * base_of attempt)

delay_for-Near :
    (around : Surroundings) (attempt drawn : ℕ)
    → drawn ≤ 2 * jitter (base_of attempt)
    → Near attempt (delay_for around attempt drawn)
unfolding delay_for
delay_for-Near around attempt drawn h = (omega (arith, h), omega (arith, h))

-- The warnings among the lines.
abbrev pub warnings : List Line → ℕ
warnings [] = 0
warnings (unavailable delay ∷ log) = suc (warnings log)
warnings (_ ∷ log) = warnings log

warnings-append : (xs ys : List Line) → warnings (xs ++ ys) ≡ warnings xs + warnings ys
warnings-append [] ys = omega arith
warnings-append (unavailable d ∷ xs) ys = omega (arith, warnings-append xs ys)
warnings-append (reconnected ∷ xs) ys = warnings-append xs ys
warnings-append (stream_error ∷ xs) ys = warnings-append xs ys
warnings-append (stream_crashed ∷ xs) ys = warnings-append xs ys
warnings-append (bad_frame ∷ xs) ys = warnings-append xs ys
warnings-append (listener_raised ∷ xs) ys = warnings-append xs ys

-- Attempts that all fail to connect, each with whether it crashed and with what is drawn for its delay.
abbrev pub outage : List (Bool × ℕ) → List (Attempt × ℕ)
outage [] = []
outage ((crashed, drawn) ∷ fails) =
    (refused (if crashed then crash else transport), drawn) ∷ outage fails

-- What is drawn is within the jitter.
abbrev pub AreDrawn : ℕ → List (Bool × ℕ) → Type 0
AreDrawn n [] = Unit {0}
AreDrawn n ((crashed, drawn) ∷ fails) = (drawn ≤ 2 * jitter (base_of n)) × AreDrawn (suc n) fails

abbrev pub AreNear : ℕ → List ℕ → Type 0
AreNear n [] = Unit {0}
AreNear n (delay ∷ delays) = Near n delay × AreNear (suc n) delays

-- What an outage comes to from the attempt of a number on.
record WaitedOut (around : Surroundings) (n : ℕ) (fails : List (Bool × ℕ)) (c c' : Client)
    : Type 0 where
  waits : List ℕ
  slept : c'.slept ≡ c.slept ++ waits
  each : length waits ≡ length fails
  near : AreNear n waits
  said : warnings c'.log ≡ warnings c.log + min (length fails) (steps - n)

module _ (around : Surroundings) where
  -- One attempt that fails, and its delay.
  failed_once :
      (n drawn : ℕ) (crashed : Bool) (c : Client)
      → c.closing ≡ false
      → let ending = failed (if crashed then crash else transport) in
        let next = after around ending n drawn c in
        (next.0 ≡ some (suc n))
        × (next.1.closing ≡ false)
        × (next.1.slept ≡ c.slept ++ delay_for around n drawn ∷ [])
        × (warnings next.1.log ≡ warnings c.log + (if ltb n steps then 1 else 0))
  unfolding after log_failure attempts back_off write
  failed_once n drawn true c live = ground (
    arith,
    live,
    warnings-append c.log (stream_crashed ∷ []),
    warnings-append (c.log ++ stream_crashed ∷ []) (unavailable (delay_for around n drawn) ∷ []),
  )
  failed_once n drawn false c live = ground (
    arith,
    live,
    warnings-append c.log (stream_error ∷ []),
    warnings-append (c.log ++ stream_error ∷ []) (unavailable (delay_for around n drawn) ∷ []),
  )

  run_from-waits :
      (n : ℕ) (fails : List (Bool × ℕ)) (c : Client)
      → c.closing ≡ false
      → AreDrawn n fails
      → WaitedOut around n fails c (run_from around n (outage fails) c)
  unfolding run_from consume
  run_from-waits n [] c live drawn = record {
    waits = [];
    slept = sym (append-nil c.slept);
    each = refl;
    near = tt;
    said = omega arith;
  }
  run_from-waits n ((crashed, d) ∷ fails) c live (within, drawn) =
      let ending = failed (if crashed then crash else transport) in
      let next = after around ending n d c in
      let one = failed_once n d crashed c live in
      let rest = run_from-waits (suc n) fails next.1 one.1 drawn in
      let eq : run_from around (suc n) (outage fails) next.1
          ≡ run_from around n (outage ((crashed, d) ∷ fails)) c =
        simp (live, one.0) refl in
      subst (WaitedOut around n ((crashed, d) ∷ fails) c) eq (record {
        waits = delay_for around n d ∷ rest.waits;
        slept = rest.slept ∙ rw one.2 (append_assoc c.slept (delay_for around n d ∷ []) rest.waits);
        each = ap suc rest.each;
        near = (delay_for-Near around n d within, rest.near);
        said = ground (arith, rest.said, one.3);
      })

  -- While the gateway cannot be reached, the client waits out its schedule: after each of any number
  -- of attempts that all fail it sleeps within a quarter of the time that the schedule gives for that
  -- attempt, the last repeating, and it warns at most five times in all, however long that lasts.
  -- What is drawn must lie within the jitter.
  pub run-waits :
      (fails : List (Bool × ℕ)) (c : Client)
      → c.closing ≡ false
      → AreDrawn 0 fails
      → (waits : List ℕ) × ((run around (outage fails) c).slept ≡ c.slept ++ waits)
        × (length waits ≡ length fails)
        × AreNear 0 waits
        × (warnings (run around (outage fails) c).log ≡ warnings c.log + min (length fails) 5)
  unfolding run
  run-waits fails c live drawn =
      let w = run_from-waits 0 fails c live drawn in (w.waits, w.slept, w.each, w.near, w.said)
