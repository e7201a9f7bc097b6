-- ===== src/Sip/Worker/Runs.antt =====
-- sip/worker.py: what holds of the thread after any calls of its methods.
use urmet_ha.Prelude.{
  ℕ, ◌-◌, ◌≤◌, ◌≡◌, refl, ap, true, false, List, [], ◌∷◌, arith, length, length-append,
  if◌then◌else◌, ltb,
}
use urmet_ha.Domain.Errors.{ok, raised, worker_stopped}
use urmet_ha.Sip.Worker.{Worker, new_worker, busy, submit, settle, finish, aclose}

-- What reaches the worker: a command, the thread at the end of the call that runs, and the end. The
-- coroutine that awaits a call settles it when the thread has ended it.
pub data WorkerCall : Type 0 where
  submits : ℕ → WorkerCall
  finishes closes : WorkerCall

-- The call that the thread ends is settled by its coroutine; one that is idle ends nothing.
unfoldable pub finish_settled : Worker → Worker
unfolding finish settle
finish_settled w = elim w.queued [ [] ↦ w | call ∷ rest ↦ settle (finish w) ]

-- The calls that `aclose` drops are cancelled, and their coroutines settle them.
unfoldable pub settle_each : List ℕ → Worker → Worker
unfolding settle
settle_each [] w = w
settle_each (c ∷ cs) w = settle_each cs (settle w)

unfoldable pub dropped_by_close : Worker → List ℕ
dropped_by_close w = if w.stopped then [] else elim w.queued [ [] ↦ [] | call ∷ rest ↦ rest ]

-- One of them, and the calls that were refused, counted.
unfoldable pub worker_call : WorkerCall → Worker → Worker
unfolding submit finish_settled aclose settle_each dropped_by_close
worker_call (submits c) w = elim (submit c w) [ raised e ↦ w | ok w' ↦ w' ]
worker_call finishes w = finish_settled w
worker_call closes w = settle_each (dropped_by_close w) (aclose w)

unfoldable pub worker_calls : List WorkerCall → Worker → Worker
worker_calls [] w = w
worker_calls (c ∷ cs) w = worker_calls cs (worker_call c w)

-- The count is that of the calls that the thread still has, and a stopped one has one at most.
abbrev pub IsCounted : Worker → Type 0
IsCounted w = (w.active ≡ length w.queued) × (w.stopped ≡ true → length w.queued ≤ 1)

settle_each-count :
    (cs : List ℕ) (w : Worker)
    → ((settle_each cs w).active ≡ w.active - length cs)
      × ((settle_each cs w).stopped ≡ w.stopped)
      × ((settle_each cs w).queued ≡ w.queued)
unfolding settle_each settle
settle_each-count [] w = (omega arith, refl, refl)
settle_each-count (c ∷ cs) w =
    let rest = settle_each-count cs (settle w) in (omega (arith, rest.0), rest.1, rest.2)

worker_call-IsCounted : (c : WorkerCall) (w : Worker) → IsCounted w → IsCounted (worker_call c w)
unfolding worker_call submit finish_settled finish settle aclose dropped_by_close
worker_call-IsCounted (submits c) w v = ground (arith, length-append w.queued (c ∷ []))
worker_call-IsCounted finishes w v = ground arith
worker_call-IsCounted closes w v = ground (arith, settle_each-count (dropped_by_close w) (aclose w))

worker_calls-IsCounted :
    (cs : List WorkerCall) (w : Worker) → IsCounted w → IsCounted (worker_calls cs w)
unfolding worker_calls
worker_calls-IsCounted [] w v = v
worker_calls-IsCounted (c ∷ cs) w v =
    worker_calls-IsCounted cs (worker_call c w) (worker_call-IsCounted c w v)

-- After any commands, endings and closings of a new worker, in any order: `busy` is true exactly
-- where the thread still has a call, and the count is the number of those.
pub worker_calls-busy :
    (cs : List WorkerCall)
    → let w = worker_calls cs new_worker in
      (w.active ≡ length w.queued) × (busy w ≡ ltb 0 (length w.queued))
unfolding busy new_worker
worker_calls-busy cs =
    let v =
      worker_calls-IsCounted cs (record { active = 0; stopped = false; queued = [] })
        (refl, λ h. omega arith) in
    (v.0, ap (ltb 0) v.0)

worker_call-stopped :
    (c : WorkerCall) (w : Worker) → w.stopped ≡ true → (worker_call c w).stopped ≡ true
unfolding worker_call submit finish_settled finish settle aclose dropped_by_close
worker_call-stopped (submits c) w h = ground arith
worker_call-stopped finishes w h = ground arith
worker_call-stopped closes w h = ground (arith, settle_each-count (dropped_by_close w) (aclose w))

worker_calls-stopped :
    (cs : List WorkerCall) (w : Worker) → w.stopped ≡ true → (worker_calls cs w).stopped ≡ true
unfolding worker_calls
worker_calls-stopped [] w h = h
worker_calls-stopped (c ∷ cs) w h =
    worker_calls-stopped cs (worker_call c w) (worker_call-stopped c w h)

close-stopped : (w : Worker) → (worker_call closes w).stopped ≡ true
unfolding worker_call aclose dropped_by_close
close-stopped w = ground (arith, settle_each-count (dropped_by_close w) (aclose w))

-- Once `aclose` was called, whatever is called after it: every further command is refused as such,
-- and of the calls that were queued the thread has at most the one that it was running.
pub worker_calls_after_close :
    (before after : List WorkerCall) (command : ℕ)
    → let w = worker_calls after (worker_call closes (worker_calls before new_worker)) in
      (submit command w ≡ raised worker_stopped) × (length w.queued ≤ 1)
unfolding submit new_worker
worker_calls_after_close before after command =
    let v : IsCounted (worker_calls before (record { active = 0; stopped = false; queued = [] })) =
      worker_calls-IsCounted before (record { active = 0; stopped = false; queued = [] })
        (refl, λ h. omega arith) in
    let w0 = worker_calls before (record { active = 0; stopped = false; queued = [] }) in
    let v' =
      worker_calls-IsCounted after (worker_call closes w0) (worker_call-IsCounted closes w0 v) in
    let st = worker_calls-stopped after (worker_call closes w0) (close-stopped w0) in
    (ground (arith, st), v'.1 st)
