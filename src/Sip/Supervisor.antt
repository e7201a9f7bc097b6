-- ===== src/Sip/Supervisor.antt =====
-- addon/urmet-gateway/urmet_gateway/sip/supervision.py: keeping the binding alive. One turn of the
-- supervise loop takes what the client, the hook and the worker answered in it. Delays are seconds;
-- the SDK's status code and reason are read off the client at each publication.
pub mod Backoff
pub mod Reports
mod Examples
use urmet_ha.Prelude.{
  ℕ, zero, suc, ◌+◌, ◌-◌, String, Bool, true, false, Option, none, some, List, [], ◌∷◌, ◌++◌, min,
  length, if◌then◌else◌,
}

abbrev pub liveness_interval : ℕ
liveness_interval = 300

abbrev pub released_reason : String
released_reason = "binding released"

abbrev pub not_released_reason : String
not_released_reason = "the registrar still holds the binding; it will expire"

abbrev pub unconfirmed_reason : String
unconfirmed_reason = "liveness re-REGISTER did not confirm the binding"

pub record RegistrationOutcome : Type 0 where
  pub registered : Bool
  pub status_code : ℕ
  pub reason : String
  pub released : Option Bool

-- What a client reads as when its state is published.
pub record Reading : Type 0 where
  pub status_code : ℕ
  pub reason : String

pub record Supervisor : Type 0 where
  pub step : ℕ
  pub stopped : Bool
  -- The loop ended by raising.
  pub died : Bool
  -- The clients built so far, the last of them the one in use where there is one.
  pub built : ℕ
  pub client : Option ℕ
  pub published : List RegistrationOutcome
  pub slept : List ℕ

-- `RegistrationSupervisor.__init__`
unfoldable pub supervisor : Supervisor
supervisor = record {
  step = 0;
  stopped = false;
  died = false;
  built = 0;
  client = none;
  published = [];
  slept = [];
}

-- How a call on the worker ends: it returns, raises an SDK error, or raises anything else.
pub data Call (A : Type 0) : Type 0 where
  returns : A → Call A
  urmet_error : String → Call A
  other_error : String → Call A

-- `_BACKOFF_S`
abbrev pub backoff : List ℕ
backoff = 5 ∷ 10 ∷ 20 ∷ 40 ∷ 60 ∷ []

nth : List ℕ → ℕ → ℕ
nth [] i = 0
nth (x ∷ xs) zero = x
nth (x ∷ xs) (suc i) = nth xs i

-- `_current_delay`
unfoldable pub current_delay : Supervisor → ℕ
unfolding nth
current_delay s = nth backoff (min s.step (length backoff - 1))

unfoldable pub publish : RegistrationOutcome → Supervisor → Supervisor
publish o s = record s { published = s.published ++ o ∷ [] }

-- `_publish_up`
unfoldable pub publish_up : Reading → Supervisor → Supervisor
unfolding publish
publish_up r =
    publish (record {
      registered = true;
      status_code = r.status_code;
      reason = r.reason;
      released = none;
    })

-- `_publish_down`
unfoldable pub publish_down : Reading → String → Supervisor → Supervisor
unfolding publish
publish_down r reason =
    publish
      (record { registered = false; status_code = r.status_code; reason = reason; released = none })

unfoldable pub told_release : Bool → Supervisor → Supervisor
unfolding publish
told_release released = publish (record {
  registered = false;
  status_code = 0;
  reason = if released then released_reason else not_released_reason;
  released = some released;
})

-- `_release`: an error that is not the SDK's goes through.
unfoldable pub release : Call Bool → Supervisor → Supervisor
unfolding told_release
release (returns released) s = told_release released s
release (urmet_error _) s = told_release false s
release (other_error _) s = record s { died = true }

unfoldable pub sleep : ℕ → Supervisor → Supervisor
sleep d s = record s { slept = s.slept ++ d ∷ [] }

-- The deferrals of one wait: how often the worker was found busy.
unfoldable pub defer : ℕ → ℕ → Supervisor → Supervisor
unfolding sleep
defer delay zero s = s
defer delay (suc busy) s = defer delay busy (sleep delay s)

-- `_advance`
unfoldable pub advance : Supervisor → Supervisor
advance s = record s { step = suc s.step }

-- `_reset_backoff`
unfoldable pub reset_backoff : Supervisor → Supervisor
reset_backoff s = record s { step = 0 }

-- `_wait_before_retry`
unfoldable pub wait_before_retry : ℕ → Supervisor → Supervisor
unfolding advance
wait_before_retry busy s = advance (defer (current_delay s) busy (sleep (current_delay s) s))

-- One refresh: the client's `start` again, and whether it is registered after it.
pub record Refresh : Type 0 where
  pub start : Call (Unit {0})
  pub registered : Bool
  pub reading : Reading

-- `_hold`: the refreshes until one fails, and what ended it.
unfoldable pub hold : List Refresh → Supervisor → Supervisor × Option (Reading × String)
unfolding sleep publish_up
hold [] s = (s, none)
hold (r ∷ rs) s =
    let waited = sleep liveness_interval s in
    let up = hold rs (publish_up r.reading waited) in
    elim r.start [
      | urmet_error reason ↦ (waited, some (r.reading, reason))
      | other_error reason ↦ (waited, some (r.reading, reason))
      | returns _ ↦ if r.registered then up else (waited, some (r.reading, unconfirmed_reason))
    ]

-- One turn of `_supervise`, from the building of a client to the wait before the next.
pub record Turn : Type 0 where
  pub start : Call (Unit {0})
  pub reading : Reading
  pub hook : Call (Unit {0})
  pub refreshes : List Refresh
  pub stop : Call Bool
  pub busy : ℕ

-- A client is let go of, and the loop waits; a release that raised ends the loop.
unfoldable pub let_go : Turn → Supervisor → Supervisor
let_go t s = let s' = release t.stop s in if s'.died then s' else wait_before_retry t.busy s'

unfoldable pub lose : Turn → Supervisor × Option (Reading × String) → Supervisor
lose t (s, none) = s
lose t (s, some (reading, reason)) = let_go t (publish_down reading reason s)

unfoldable pub build_client : Supervisor → Supervisor
build_client s = record s { built = suc s.built; client = some (suc s.built) }

-- Registered: published, the backoff back at its start, the hook run, and the binding held.
unfoldable pub connected : Turn → Call (Unit {0}) → Supervisor → Supervisor
connected t (returns _) s = lose t (hold t.refreshes s)
connected t (urmet_error _) s = record s { died = true }
connected t (other_error _) s = record s { died = true }

unfoldable pub started : Turn → Call (Unit {0}) → Supervisor → Supervisor
started t (returns _) s = connected t t.hook (reset_backoff (publish_up t.reading s))
started t (urmet_error reason) s = let_go t (publish_down t.reading reason s)
started t (other_error reason) s = let_go t (publish_down t.reading reason s)

-- Without a refresh that fails the loop is still holding when the turn ends.
unfoldable pub supervise : Turn → Supervisor → Supervisor
supervise t s = if s.stopped then s else (if s.died then s else started t t.start (build_client s))

unfoldable pub supervise_all : List Turn → Supervisor → Supervisor
supervise_all [] s = s
supervise_all (t ∷ ts) s = supervise_all ts (supervise t s)

-- `RegistrationSupervisor.stop`, the loop being cancelled first: the error of a loop that ended by
-- raising comes out of it, and the client stays.
unfoldable pub stop : Call Bool → Supervisor → Supervisor
unfolding release
stop c s =
    let ended : Supervisor = record s { stopped = true; client = none } in
    if s.stopped
    then s
    else (if s.died
        then record s { stopped = true }
        else elim s.client [ none ↦ ended | some _ ↦ release c ended ])
