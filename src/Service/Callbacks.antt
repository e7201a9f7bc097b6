-- ===== src/Service/Callbacks.antt =====
-- usecases/service.py and usecases/sessions.py: the two callbacks of the SDK, already on the loop,
-- and the tasks that the loop runs later.
use urmet_ha.Prelude.{ℕ, false, none, some, ◌==◌, if◌then◌else◌}
use urmet_ha.Domain.{
  Direction, incoming, outgoing, CallState, CallTests, CallHandle, Doorphone, view_of, ring_event,
  call_event,
}
use urmet_ha.Calls.{find, record_call, mark_incoming, forget}
use urmet_ha.Service.World.{Service, Task, close_leg, reap_after_grace, publish_state, publish}
use urmet_ha.Service.Legs.{close_session_object, without, orphaned_monitor, call_ended}
use urmet_ha.Service.Commands.{hang_up}
use urmet_ha.Domain.Errors.{Outcome, ok}
use urmet_ha.Threads.{Course, ends, waits, finally}

-- `DoorphoneService.ring_arrived`
unfoldable pub ring_arrived : ℕ → Doorphone → ℕ → Service → Service
ring_arrived now doorphone call_id s =
    publish now (ring_event now (view_of doorphone) call_id)
      (record s { calls = mark_incoming s.calls call_id })

-- The side that a reported state is taken to be of.
unfoldable pub guess : Service → Direction
guess s = if s.inviting == 0 then incoming else outgoing

module _ (tests : CallTests) where
  -- What follows a state that is news.
  unfoldable pub state_told : ℕ → CallHandle → CallState → Direction → Service → Service
  state_told now call state side s =
      let direction : Direction = elim (find s.calls call.id) [
        | none ↦ side
        | some tracked ↦ tracked.direction
      ] in
      let told = publish now (call_event now call.id state direction) s in
      if tests.is_terminal state
      then (let ended = call_ended tests call.id told in
          publish_state now (record ended { calls = forget ended.calls call.id }))
      else told

  -- `DoorphoneService.call_state_arrived`
  unfoldable pub call_state_arrived : ℕ → CallHandle → CallState → Service → Service
  unfolding guess
  call_state_arrived now call state s =
      let (calls', news) = record_call s.calls call state (guess s) false in
      let seen : Service = record s { calls = calls' } in
      if news then state_told now call state (guess s) seen else seen

  -- A task: the closing of a session, or `_reap_after_grace` from its sleep on.
  unfoldable pub task_work :
      ℕ → (torn_down port : Outcome (Unit {0})) → Task → Service → Course Service (Unit {0})
  task_work now torn_down port (close_leg id reason) s =
      close_session_object tests now torn_down id reason (ends (ok tt)) s
  task_work now torn_down port (reap_after_grace call_id) s = waits s (λ t.
      if orphaned_monitor tests t call_id
      then hang_up tests now torn_down port call_id (ends (ok tt)) t
      else ends (ok tt) t)

  -- A task runs, and `_finished` takes it out of the set, however it ends.
  unfoldable pub run_task :
      ℕ → (torn_down port : Outcome (Unit {0})) → Task → Service → Course Service (Unit {0})
  unfolding task_work without
  run_task now torn_down port task s =
      finally (λ t. record t { tasks = without task t.tasks }) (task_work now torn_down port task s)
