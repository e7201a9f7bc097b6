-- ===== src/Sip/Worker.antt =====
-- addon/urmet-gateway/urmet_gateway/sip/worker.py and tap.py: the one thread that every
-- SDK call crosses.
pub mod Runs
use urmet_ha.Prelude.{
  ℕ, suc, ◌+◌, ◌-◌, ◌*◌, ◌^◌, ◌≤◌, ◌<◌, Bool, true, false, Option, none, some, List, [], ◌∷◌, ◌++◌,
  ltb, if◌then◌else◌,
}
use urmet_ha.Domain.Errors.{Outcome, ok, raised, ErrorType, worker_stopped}

-- The calls that stand in the executor's queue, the one that runs first.
pub record Worker : Type 0 where
  pub active : ℕ
  pub stopped : Bool
  pub queued : List ℕ

unfoldable pub new_worker : Worker
new_worker = record { active = 0; stopped = false; queued = [] }

-- `busy`
unfoldable pub busy : Worker → Bool
busy w = ltb 0 w.active

-- The part of `run` before its await: refused once stopped, queued behind what is there otherwise.
unfoldable pub submit : ℕ → Worker → Outcome Worker
submit call w =
    if w.stopped
    then raised worker_stopped
    else ok (record w { active = suc w.active; queued = w.queued ++ call ∷ [] })

-- The part of `run` after it, the `finally`: however the await ended, the count comes down.
unfoldable pub settle : Worker → Worker
settle w = record w { active = w.active - 1 }

-- The thread ends the call that runs.
unfoldable pub finish : Worker → Worker
finish w = elim w.queued [ [] ↦ w | call ∷ rest ↦ record w { queued = rest } ]

-- `aclose`: the queue is dropped, up to the call that runs.
unfoldable pub aclose : Worker → Worker
aclose w =
    if w.stopped
    then w
    else record w { stopped = true; queued = elim w.queued [ [] ↦ [] | call ∷ rest ↦ call ∷ [] ] }

-- `MAX_TAP_BYTES` of tap.py, inside a signed 32 bit field.
abbrev pub max_tap_bytes : ℕ
max_tap_bytes = 1536 * 1024 * 1024
