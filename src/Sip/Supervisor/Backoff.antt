-- ===== src/Sip/Supervisor/Backoff.antt =====
-- supervision.py: how long the loop waits before it builds the next client.
use urmet_ha.Prelude.{
  ℕ, zero, suc, ◌+◌, ◌*◌, ◌≡◌, refl, ◌∙◌, Bool, true, false, List, [], ◌∷◌, ◌++◌, min, arith,
  length,
}
use mathlib.Core.List.{append_assoc, append-nil}
use urmet_ha.Sip.Supervisor.{
  Supervisor, Turn, Call, returns, urmet_error, other_error, backoff, nth, current_delay,
  publish_down, told_release, release, sleep, defer, wait_before_retry, let_go, build_client,
  started, supervise, supervise_all,
}

-- The cadence as a law: five seconds, doubled by each attempt that failed, up to a minute.
unfoldable pub doubling : ℕ → ℕ
doubling zero = 5
doubling (suc n) = min 60 (2 * doubling n)

doubling_settled : (n : ℕ) → doubling (suc (suc (suc (suc n)))) ≡ 60
unfolding doubling
doubling_settled zero = refl
doubling_settled (suc n) = omega (arith, doubling_settled n)

nth-doubling : (n : ℕ) → nth backoff (min n 4) ≡ doubling n
unfolding nth doubling
nth-doubling zero = refl
nth-doubling (suc zero) = refl
nth-doubling (suc (suc zero)) = refl
nth-doubling (suc (suc (suc zero))) = refl
nth-doubling (suc (suc (suc (suc n)))) =
    let e : min (suc (suc (suc (suc n)))) 4 ≡ 4 = omega arith in rw (e, doubling_settled n) refl

pub current_delay-doubling : (s : Supervisor) → current_delay s ≡ doubling s.step
unfolding current_delay
current_delay-doubling s = nth-doubling s.step

-- The worker was found busy so often, and the wait was as long each time.
unfoldable pub waits : ℕ → ℕ → List ℕ
waits delay zero = []
waits delay (suc n) = delay ∷ waits delay n

defer_lem :
    (delay busy : ℕ) (s : Supervisor)
    → defer delay busy s ≡ record s { slept = s.slept ++ waits delay busy }
unfolding defer waits
defer_lem delay zero s = rw append-nil
defer_lem delay (suc busy) s =
    defer_lem delay busy (sleep delay s) ∙ rw (append_assoc s.slept (delay ∷ []) (waits delay busy))

pub wait_before_retry_lem :
    (busy : ℕ) (s : Supervisor)
    → wait_before_retry busy s
      ≡ record s { slept = s.slept ++ waits (doubling s.step) (suc busy); step = suc s.step }
unfolding wait_before_retry waits sleep
wait_before_retry_lem busy s = rw (defer_lem (current_delay s) busy (sleep (current_delay s) s)) (
    rw (append_assoc s.slept (current_delay s ∷ []) (waits (current_delay s) busy))
      (rw (current_delay-doubling s) refl))

abbrev pub is_started : Call (Unit {0}) → Bool
is_started (returns _) = true
is_started (urmet_error _) = false
is_started (other_error _) = false

abbrev pub is_contained : Call Bool → Bool
is_contained (returns _) = true
is_contained (urmet_error _) = true
is_contained (other_error _) = false

-- The client's `start` raised, and nothing but an SDK error came out of its `stop`.
abbrev pub IsRefused : Turn → Type 0
IsRefused t = (is_started t.start ≡ false) × (is_contained t.stop ≡ true)

abbrev pub IsLive : Supervisor → Type 0
IsLive s = (s.stopped ≡ false) × (s.died ≡ false)

let_go_lem :
    (t : Turn) (s : Supervisor)
    → is_contained t.stop ≡ true
    → s.died ≡ false
    → ((let_go t s).slept ≡ s.slept ++ waits (doubling s.step) (suc t.busy))
      × ((let_go t s).step ≡ suc s.step)
      × ((let_go t s).stopped ≡ s.stopped)
      × ((let_go t s).died ≡ false)
unfolding let_go release told_release
let_go_lem t s c d = ground (arith, wait_before_retry_lem t.busy (release t.stop s))

-- What a turn leaves when it lets its client go, with these delays behind it.
abbrev pub Waited : Supervisor → ℕ → List ℕ → Supervisor → Type 0
Waited s step delays s' =
    (s'.slept ≡ s.slept ++ delays) × (s'.step ≡ step) × (s'.stopped ≡ false) × (s'.died ≡ false)

started_refused :
    (t : Turn) (c : Call (Unit {0})) (s : Supervisor)
    → IsLive s
    → is_started c ≡ false
    → is_contained t.stop ≡ true
    → Waited s (suc s.step) (waits (doubling s.step) (suc t.busy)) (started t c s)
unfolding started publish_down
started_refused t (returns _) s live h c = cc
started_refused t (urmet_error reason) s live h c =
    ground (arith, let_go_lem t (publish_down t.reading reason s) c)
started_refused t (other_error reason) s live h c =
    ground (arith, let_go_lem t (publish_down t.reading reason s) c)

supervise_refused :
    (t : Turn) (s : Supervisor)
    → IsLive s
    → IsRefused t
    → Waited s (suc s.step) (waits (doubling s.step) (suc t.busy)) (supervise t s)
unfolding supervise build_client
supervise_refused t s live refused = ground (arith, started_refused t t.start (build_client s))

-- Every turn of the list is refused.
abbrev pub AllRefused : List Turn → Type 0
AllRefused [] = Unit {0}
AllRefused (t ∷ ts) = IsRefused t × AllRefused ts

unfoldable pub schedule : ℕ → List Turn → List ℕ
schedule step [] = []
schedule step (t ∷ ts) = waits (doubling step) (suc t.busy) ++ schedule (suc step) ts

-- Through any row of refused registrations the loop goes on, and it sleeps by the doubling law from
-- the step that it is at: 5, 10, 20, 40, 60, 60 seconds and so on, the same delay once more for
-- each time that the worker was found busy, which does not advance the step.
pub supervise_all-refused :
    (ts : List Turn) (s : Supervisor)
    → IsLive s
    → AllRefused ts
    → Waited s (s.step + length ts) (schedule s.step ts) (supervise_all ts s)
unfolding supervise_all schedule
supervise_all-refused [] s live all = (rw append-nil, omega arith, live.0, live.1)
supervise_all-refused (t ∷ ts) s live all =
    let one = supervise_refused t s live all.0 in
    let rest = supervise_all-refused ts (supervise t s) (one.2, one.3) all.1 in
    (
      rest.0
          ∙ rw (one.0, one.1)
              (append_assoc s.slept (waits (doubling s.step) (suc t.busy))
                (schedule (suc s.step) ts)),
      omega (arith, rest.1, one.1),
      rest.2,
      rest.3,
    )
