-- ===== src/Sip/Examples.antt =====
-- sip/worker.py on short runs.
use urmet_ha.Prelude.{◌≤◌, ◌≡◌, List, [], ◌∷◌, length}
use urmet_ha.Domain.Errors.{raised, worker_stopped}
use urmet_ha.Sip.Worker.{new_worker, submit}
use urmet_ha.Sip.Worker.Runs.{
  WorkerCall, submits, finishes, closes, worker_call, worker_calls, worker_calls_after_close,
}

abbrev morning : List WorkerCall
morning = submits 4 ∷ submits 5 ∷ finishes ∷ submits 6 ∷ []

worker_calls_after_close_example :
    let w = worker_calls (submits 7 ∷ []) (worker_call closes (worker_calls morning new_worker)) in
    (submit 8 w ≡ raised worker_stopped) × (length w.queued ≤ 1)
worker_calls_after_close_example = worker_calls_after_close morning (submits 7 ∷ []) 8
