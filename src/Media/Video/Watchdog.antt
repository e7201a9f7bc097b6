-- ===== src/Media/Video/Watchdog.antt =====
-- addon/urmet-gateway/urmet_gateway/media/watchdog.py: noticing that something stopped moving. The
-- clock never goes back; instants and budgets are numbers in one unit of it.
pub mod Budget
use urmet_ha.Prelude.{
  ℕ, suc, ◌-◌, String, Bool, true, false, Option, none, some, List, [], ◌∷◌, ◌++◌, ltb,
  if◌then◌else◌,
}

-- Why it fired. The two texts of the code name the silence, which the stall has beside them.
pub data Reason : Type 0 where
  probed : String → Reason
  nothing_moved nothing_arrived : Reason

pub record Stall : Type 0 where
  pub reason : Reason
  pub silent_for : ℕ

-- `started` is that the task is kept, which a task that reacted and ended still is, `running` that it
-- goes on; `stalls` has what `_on_stall` was called with.
pub record Watchdog : Type 0 where
  pub timeout : ℕ
  pub startup_timeout : ℕ
  pub last : ℕ
  pub moved : Bool
  pub started : Bool
  pub running : Bool
  pub stalls : List Stall

-- `Watchdog.__init__`, at an instant.
unfoldable pub watchdog : ℕ → Option ℕ → ℕ → Watchdog
watchdog timeout startup_timeout now = record {
  timeout = timeout;
  startup_timeout = elim startup_timeout [ none ↦ timeout | some t ↦ t ];
  last = now;
  moved = false;
  started = false;
  running = false;
  stalls = [];
}

-- `beat`
unfoldable pub beat : ℕ → Watchdog → Watchdog
beat now w = record w { last = now; moved = true }

-- `rearm`
unfoldable pub rearm : ℕ → Watchdog → Watchdog
rearm now w = record w { last = now; moved = false }

-- `start`
unfoldable pub start : ℕ → Watchdog → Watchdog
start now w = if w.started then w else record w { last = now; started = true; running = true }

-- `aclose`
unfoldable pub aclose : Watchdog → Watchdog
aclose w = record w { started = false; running = false }

-- `_look`, with what the probe answers, if there is one.
unfoldable pub look : ℕ → Option String → Watchdog → Option Stall
look now probe w =
    let silent_for = now - w.last in
    elim probe [
      | some reason ↦ some (record { reason = probed reason; silent_for = silent_for })
      | none ↦
          if w.moved
          then (if ltb w.timeout silent_for
              then some (record { reason = nothing_moved; silent_for = silent_for })
              else none)
          else (if ltb w.startup_timeout silent_for
              then some (record { reason = nothing_arrived; silent_for = silent_for })
              else none)
    ]

-- One round of `_run` after its sleep: the reaction ends the task, however it ends itself.
unfoldable pub round : ℕ → Option String → Watchdog → Watchdog
unfolding look
round now probe w =
    if w.running
    then elim (look now probe w) [
      | none ↦ w
      | some stall ↦ record w { stalls = w.stalls ++ stall ∷ []; running = false }
    ]
    else w
