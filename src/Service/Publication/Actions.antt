-- ===== src/Service/Publication/Actions.antt =====
-- usecases/service.py: the actions and the callbacks keep every event followed by a state.
use urmet_ha.Prelude.{
  ℕ, suc, ◌-◌, Bool, true, false, Option, none, some, List, [], ◌∷◌, ◌++◌, if◌then◌else◌,
}
use urmet_ha.Domain.{
  Direction, incoming, outgoing, ActuatorName, signal, CallState, CallTests, CallHandle, Doorphone,
  call_event,
}
use urmet_ha.Domain.Errors.{Outcome, ok, raised, open_not_acknowledged}
use urmet_ha.Calls.{
  TrackedCall, CallBook, record_call, mark_incoming, forget, find, handle, streaming_calls,
}
use urmet_ha.Service.World.{
  Service, Command, open_during, open_on_demand, Task, close_leg, reap_after_grace, Await,
  publish_state, publish, send,
}
use urmet_ha.Service.Legs.{call_ended, orphaned_monitor, close_for_call, call_over}
use urmet_ha.Service.Commands.{
  ◌and_then◌, recorded, clear_calls, Ran, cross, crossing, hang_up, hangup_each, hangup_monitors,
  inviting_while, placed, placing, place_call, set_mic_muted, open_command, open_told,
  open_actuator, side_now,
}
use urmet_ha.Service.Opening.{asked}
use urmet_ha.Service.Loop.{answering, muting, opening}
use urmet_ha.Service.Callbacks.{
  guess, ring_arrived, state_told, call_state_arrived, task_work, run_task,
}
use urmet_ha.Threads.{Course, ends, waits, finally, IsSafe}
use urmet_ha.Service.World
use urmet_ha.Service.Publication.{
  Told, Followed, Told-tasks, IsTold, Tells, ends-Tells, IsTold-moved, waits-IsTold, came-Tells,
  publish_state-Told, publish-Told, close_session_object-Tells, close_for_call-Tells,
  call_ended-Told,
}

and_then-Told :
    {A B : Type 0} (r : Ran A) (f : A → Service → Ran B)
    → Told r.1
    → ((a : A) (s : Service) → Told s → Told (f a s).1)
    → Told (r and_then f).1
unfolding ◌and_then◌
and_then-Told (ok a, s) f t k = k a s t
and_then-Told (raised e, s) f t k = t

recorded-Told :
    (call : CallHandle) (side : Direction) (s : Service) → Told s → Told (recorded call side s)
unfolding recorded Told
recorded-Told call side s t = t

-- Only the published events count.
Told-calls : (b : CallBook) (s : Service) → Told s → Told (record s { calls = b })
unfolding Told
Told-calls b s t = t

Told-mic : (muted : Bool) (s : Service) → Told s → Told (record s { mic_muted = muted })
unfolding Told
Told-mic muted s t = t

send-Told : (c : Command) (s : Service) → Told s → Told (send c s)
unfolding send Told
send-Told c s t = t

Told-inviting : (n : ℕ) (s : Service) → Told s → Told (record s { inviting = n })
unfolding Told
Told-inviting n s t = t

crossing-Tells :
    {A B : Type 0} (c : Command) (o : Outcome A) (next : A → Service → Course Service B)
    → ((a : A) → Tells (next a))
    → Tells (crossing c o next)
unfolding crossing
crossing-Tells c o next h s t = waits-IsTold s (send c s) _ (send-Told c s t) (came-Tells o next h)

-- A coroutine that ends as a result says.
ran-Tells : {A : Type 0} (s : Service) (r : Ran A) → Told r.1 → IsTold s (ends r.0 r.1)
ran-Tells s r t = IsTold-moved r.1 s _ (ends-Tells r.0 r.1 t)

module _ (tests : CallTests) where
  pub hang_up-Tells :
      {A : Type 0} (now : ℕ) (o port : Outcome (Unit {0})) (call_id : ℕ)
      → (next : Service → Course Service A) → Tells next
      → Tells (hang_up tests now o port call_id next)
  unfolding hang_up
  hang_up-Tells {A} now o port call_id next k s t = go (find s.calls call_id)
    where
      told : Service → Course Service A
      told u = next (publish_state now (record u { calls = forget u.calls call_id }))

      go :
          (f : Option TrackedCall)
          → IsTold s (elim f as (λ _. Course Service A) [
            | none ↦ next s
            | some tracked ↦
                close_for_call tests now o call_id call_over
                  (crossing (World.hangup tracked.handle) port (λ _. told))
                  s
          ])
      go none = k s t
      go (some tracked) =
          close_for_call-Tells tests now o call_id call_over _
            (crossing-Tells _ port (λ _. told)
              (λ _ u q.
                IsTold-moved _ u _
                  (k _ (publish_state-Told now _ (Told-calls (forget u.calls call_id) u q)))))
            s t

  hangup_each-Tells :
      {A : Type 0} (now : ℕ) (o port : ℕ → Outcome (Unit {0})) (cs : List TrackedCall)
      → (next : Service → Course Service A) → Tells next
      → Tells (hangup_each tests now o port cs next)
  unfolding hangup_each
  hangup_each-Tells now o port [] next k s t = k s t
  hangup_each-Tells {A} now o port (c ∷ cs) next k s t =
      elim (side_now tests s c)
        as (λ d. IsTold s (elim d as (λ _. Course Service A) [
          | incoming ↦ hangup_each tests now o port cs next s
          | outgoing ↦
              hang_up tests now (o c.handle.id) (port c.handle.id) c.handle.id
                (hangup_each tests now o port cs next) s
        ])) [
          | incoming ↦ hangup_each-Tells now o port cs next k s t
          | outgoing ↦
              hang_up-Tells now (o c.handle.id) (port c.handle.id) c.handle.id _
                (hangup_each-Tells now o port cs next k) s t
        ]

  placed-Told :
      (now : ℕ) (want_video : Bool) (called : Outcome CallHandle) (s u : Service)
      → Told u
      → Told (placed tests now want_video (record { meanwhile = λ _. u; outcome = called }) s).1
  unfolding placed inviting_while cross
  placed-Told now want_video called s u t =
      and_then-Told _ _ (Told-inviting _ u t)
        (λ call v q. publish_state-Told now _ (recorded-Told call outgoing v q))

  pub place_call-Tells :
      (now : ℕ) (o port : ℕ → Outcome (Unit {0})) (want_video : Bool) (called : Outcome CallHandle)
      → Tells (place_call tests now o port want_video called)
  unfolding place_call hangup_monitors placing
  place_call-Tells now o port want_video called s t =
      hangup_each-Tells now o port _ _
        (λ u q.
          waits-IsTold u _ _ (send-Told _ _ (Told-inviting _ u q))
            (λ v r. ran-Tells v _ (placed-Told now want_video called u v r)))
        s t

  pub answering-Tells :
      (now : ℕ) (r : Outcome (Unit {0})) (call_id : ℕ) → Tells (answering now r call_id)
  unfolding answering
  answering-Tells now r call_id s t =
      elim (handle s.calls call_id)
        as (λ o. IsTold s (elim o as (λ _. Course Service (Unit {0})) [
          | raised e ↦ ends (raised e) s
          | ok call ↦
              crossing (World.answer call) r
                (λ _ u. ends (ok tt) (publish_state now (recorded call incoming u))) s
        ])) [
          | raised e ↦ ends-Tells (raised e) s t
          | ok call ↦
              crossing-Tells _ r _
                (λ _ u q.
                  ran-Tells u (ok tt, _)
                    (publish_state-Told now _ (recorded-Told call incoming u q)))
                s t
        ]

  asked-Told : (actuator : ActuatorName) (s : Service) → Told s → Told (asked tests actuator s)
  unfolding Told
  asked-Told actuator s t =
      elim (streaming_calls tests s.calls)
        as (λ cs.
          Followed
            (elim cs as (λ _. Service) [
              | [] ↦ record s {
                inviting = suc s.inviting;
                sent = s.sent ++ open_on_demand (signal actuator) ∷ [];
              }
              | c ∷ cs' ↦ record s { sent = s.sent ++ open_during c.handle (signal actuator) ∷ [] }
            ]).published) [ [] ↦ t | c ∷ cs ↦ t ]

  open_told-Told :
      (now : ℕ) (actuator : ActuatorName) (r : Ran (Unit {0}))
      → Told r.1
      → Told (open_told now actuator r).1
  unfolding open_told
  open_told-Told now actuator (ok _, s) t = publish-Told now _ s t
  open_told-Told now actuator (raised open_not_acknowledged, s) t = publish-Told now _ s t
  open_told-Told now actuator (raised e, s) t = t

  open_command-Told :
      (actuator : ActuatorName) (o : Outcome (Unit {0})) (s u : Service)
      → Told u
      → Told (open_command tests actuator (record { meanwhile = λ _. u; outcome = o }) s).1
  unfolding open_command inviting_while cross
  open_command-Told actuator o s u t =
      elim (streaming_calls tests s.calls)
        as (λ cs.
          Told
            (elim cs as (λ _. Ran (Unit {0})) [
              | [] ↦ (o, record u { inviting = u.inviting - 1 })
              | c ∷ cs ↦ (o, u)
            ]).1) [ [] ↦ Told-inviting _ u t | c ∷ cs ↦ t ]

  pub opening-Tells :
      (now : ℕ) (actuator : ActuatorName) (o : Outcome (Unit {0}))
      → Tells (opening tests now actuator o)
  unfolding opening open_actuator
  opening-Tells now actuator o s t =
      waits-IsTold s _ _ (asked-Told actuator s t)
        (λ u q. ran-Tells u _ (open_told-Told now actuator _ (open_command-Told actuator o s u q)))

  pub state_told-Told :
      (now : ℕ) (call : CallHandle) (state : CallState) (side : Direction) (s : Service)
      → Told s
      → Told (state_told tests now call state side s)
  unfolding state_told
  state_told-Told now call state side s t = go (tests.is_terminal state)
    where
      told : Service
      told =
          publish now
            (call_event now call.id state
              (elim (find s.calls call.id) [ none ↦ side | some tracked ↦ tracked.direction ]))
            s

      go :
          (terminal : Bool)
          → Told (
              if terminal
              then publish_state now (record (call_ended tests call.id told) {
                calls = forget (call_ended tests call.id told).calls call.id;
              })
              else told)
      go true = publish_state-Told now _ (
          Told-calls (forget (call_ended tests call.id told).calls call.id)
            (call_ended tests call.id told)
            (call_ended-Told tests call.id told (publish-Told now _ s t)))
      go false = publish-Told now _ s t

  pub call_state_arrived-Told :
      (now : ℕ) (call : CallHandle) (state : CallState) (s : Service)
      → Told s
      → Told (call_state_arrived tests now call state s)
  unfolding call_state_arrived
  call_state_arrived-Told now call state s t = go (record_call s.calls call state (guess s) false)
    where
      go :
          (r : CallBook × Bool)
          → Told (
              if r.1
              then state_told tests now call state (guess s) (record s { calls = r.0 })
              else record s { calls = r.0 })
      go (b, true) = state_told-Told now call state _ (record s { calls = b }) (Told-calls b s t)
      go (b, false) = Told-calls b s t

pub muting-Tells : (now : ℕ) (o : Outcome (Unit {0})) (muted : Bool) → Tells (muting now o muted)
unfolding muting set_mic_muted cross
muting-Tells now o muted s t = waits-IsTold s _ _ (send-Told _ s t) (λ u q.
    ran-Tells u _ (and_then-Told _ _ q (λ _ v r. publish_state-Told now _ (Told-mic muted v r))))

pub ring_arrived-Told :
    (now : ℕ) (d : Doorphone) (call_id : ℕ) (s : Service)
    → Told s
    → Told (ring_arrived now d call_id s)
unfolding ring_arrived
ring_arrived-Told now d call_id s t =
    publish-Told now _ (record s { calls = mark_incoming s.calls call_id })
      (Told-calls (mark_incoming s.calls call_id) s t)

pub clear_calls-Told : (s : Service) → Told s → Told (clear_calls s)
unfolding clear_calls
clear_calls-Told s t = Told-calls _ s t

finally-IsTold :
    {A : Type 0} (f : Service → Service)
    → ((s : Service) → Told s → Told (f s))
    → (s : Service) (c : Course Service A) → IsTold s c
    → IsTold s (finally f c)
unfolding finally IsSafe
finally-IsTold f h s (ends o u) t = (h u t.0, tt)
finally-IsTold f h s (waits u k) t = (t.0, tt, λ v g q. finally-IsTold f h v (k v) (t.2 v g q))

module _ (tests : CallTests) where
  task_work-Tells :
      (now : ℕ) (o port : Outcome (Unit {0})) (task : Task)
      → Tells (task_work tests now o port task)
  unfolding task_work
  task_work-Tells now o port (close_leg id reason) s t =
      close_session_object-Tells tests now o id reason _ (ends-Tells (ok tt)) s t
  task_work-Tells now o port (reap_after_grace call_id) s t = waits-IsTold s s _ t (λ u q.
      elim (orphaned_monitor tests u call_id)
        as (λ b.
          IsTold u
            (if b then hang_up tests now o port call_id (ends (ok tt)) u else ends (ok tt) u)) [
              | true ↦ hang_up-Tells tests now o port call_id _ (ends-Tells (ok tt)) u q
              | false ↦ ends-Tells (ok tt) u q
            ])

  pub run_task-Tells :
      (now : ℕ) (o port : Outcome (Unit {0})) (task : Task) → Tells (run_task tests now o port task)
  unfolding run_task
  run_task-Tells now o port task s t =
      finally-IsTold _ (λ u q. Told-tasks _ u q) s _ (task_work-Tells now o port task s t)
