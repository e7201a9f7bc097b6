-- ===== src/Runtime/Shutdown.antt =====
-- runtime.py: what a shutdown leaves, and what a supervise loop that raised makes of it.
use urmet_ha.Prelude.{
  ℕ, suc, ◌<◌, ◌≡◌, refl, sym, ap, ◌∙◌, Bool, true, false, none, some, List, [], ◌∷◌, ◌++◌,
  if◌then◌else◌, drop, length, lookup, arith,
}
use mathlib.Core.List.{append_assoc}
use mathlib.Core.Path.{subst}
use urmet_ha.Domain.{Event, state_event, CallTests}
use urmet_ha.Domain.Errors.{Outcome, ok, raised, other_error, ErrorType}
use urmet_ha.Calls.{empty_book, clear}
use urmet_ha.Bus.{Subscription, publish_all, close}
use urmet_ha.Bus.Invariant.{IsValid}
use urmet_ha.Bus.Delivery.{publish_all-delivers}
use urmet_ha.Bus.Closing.{close-leaves, publish_all-open}
use urmet_ha.Service.World.{Service, Task, snapshot, publish_state, emit}
use urmet_ha.Service.Commands.{clear_calls}
use urmet_ha.Sip.Supervisor
use urmet_ha.Sip.Supervisor.{Call}
use urmet_ha.Sip.Worker
use urmet_ha.Runtime.{
  Runtime, on_service, on_supervisor, publish_outcomes, drained, finish, close_legs, shutdown,
}

drop_all : {A : Type 0} (xs ys : List A) → drop (length xs) (xs ++ ys) ≡ ys
drop_all [] ys = refl
drop_all (x ∷ xs) ys =
    let e : length (x ∷ xs) ≡ suc (length xs) = omega arith in
    subst (λ n. drop n (x ∷ (xs ++ ys)) ≡ ys) (sym e) (drop_all xs ys)

drop_itself : {A : Type 0} (xs : List A) → drop (length xs) xs ≡ []
drop_itself [] = refl
drop_itself (x ∷ xs) =
    let e : length (x ∷ xs) ≡ suc (length xs) = omega arith in rw e (drop_itself xs)

-- The last that is told: the state without any dialog.
abbrev pub last_told : ℕ → Service → Event
last_told now s = state_event now (snapshot (clear_calls s))

drained-bus :
    (now : ℕ) (r : Runtime)
    → (drained now r).bus ≡ close (publish_all r.bus (last_told now r.service ∷ []))
unfolding drained on_service publish_state emit clear_calls publish_all
drained-bus now r =
    let p = r.service.published in
    let st = last_told now r.service in rw (drop_itself p, drop_all p (st ∷ [])) refl

drained_lem :
    (now : ℕ) (r : Runtime)
    → ((drained now r).service.calls ≡ empty_book)
      × ((drained now r).service.published ≡ r.service.published ++ last_told now r.service ∷ [])
      × ((drained now r).worker ≡ Worker.aclose r.worker)
unfolding drained on_service publish_state emit clear_calls clear
drained_lem now r = (refl, refl, refl)

aclose-stopped : (w : Worker.Worker) → (Worker.aclose w).stopped ≡ true
unfolding Worker.aclose
aclose-stopped w = ground arith

-- What a subscriber with room for one more reads when the bus closes behind that.
abbrev pub read_out : Event → Subscription Event → Subscription Event
read_out e s = record s { closed = true; dropped = false; queue = s.queue ++ some e ∷ none ∷ [] }

drained-reads :
    (now : ℕ) (r : Runtime) (i : ℕ) (s : Subscription Event)
    → IsValid r.bus
    → r.bus.closed ≡ false
    → lookup i r.bus.subscribers ≡ some s
    → s.closed ≡ false
    → length s.queue < s.capacity
    → lookup i (drained now r).bus.gone ≡ some (read_out (last_told now r.service) s)
drained-reads now r i s v o h on room =
    let st = last_told now r.service in
    let b = publish_all r.bus (st ∷ []) in
    let one = publish_all-delivers r.bus i (st ∷ []) s v o h (omega arith) in
    let left =
      close-leaves b i (record s { queue = s.queue ++ some st ∷ [] })
        (publish_all-open r.bus (st ∷ []) o) one on in
    rw (drained-bus now r) (
      left
      ∙ ap (λ q. some (record s { closed = true; dropped = false; queue = q }))
          (append_assoc s.queue (some st ∷ []) (none ∷ [])))

finish-drained :
    (now : ℕ) (j : Runtime → Runtime) (u w : Runtime)
    → u.supervisor.stopped ≡ false
    → w.supervisor.died ≡ false
    → finish now j u w ≡ (ok tt, j (drained now w))
unfolding finish
finish-drained now j u w first alive =
    ap
      (λ b.
        if b
        then (ok tt, j (drained now u))
        else (if w.supervisor.died then (raised other_error, w) else (ok tt, j (drained now w))))
      first
    ∙ ap (λ b. if b then (raised other_error, w) else (ok tt, j (drained now w))) alive

finish_raises :
    (now : ℕ) (j : Runtime → Runtime) (u w : Runtime)
    → u.supervisor.stopped ≡ false
    → w.supervisor.died ≡ true
    → finish now j u w ≡ (raised other_error, w)
unfolding finish
finish_raises now j u w first dead =
    ap
      (λ b.
        if b
        then (ok tt, j (drained now u))
        else (if w.supervisor.died then (raised other_error, w) else (ok tt, j (drained now w))))
      first
    ∙ ap (λ b. if b then (raised other_error, w) else (ok tt, j (drained now w))) dead

stop_died :
    (c : Call Bool) (s : Supervisor.Supervisor)
    → s.stopped ≡ false
    → s.died ≡ true
    → Supervisor.stop c s ≡ record s { stopped = true }
unfolding Supervisor.stop
stop_died c s running dead = ground (arith, running, dead)

on_supervisor_silent :
    (now : ℕ) (f : Supervisor.Supervisor → Supervisor.Supervisor) (r : Runtime)
    → (f r.supervisor).published ≡ r.supervisor.published
    → ((on_supervisor now f r).supervisor ≡ f r.supervisor)
      × ((on_supervisor now f r).bus ≡ r.bus)
      × ((on_supervisor now f r).worker ≡ r.worker)
unfolding on_supervisor on_service publish_outcomes publish_all
on_supervisor_silent now f r same = (
  refl,
  rw (same, drop_itself r.supervisor.published, drop_itself r.service.published) refl,
  refl,
)

-- The runtime when `shutdown` has closed the legs, when the release has ended, and when the worker is
-- joined: the arguments are those of `shutdown`.
module _ (tests : CallTests) (now : ℕ) (closing : ℕ → Service → Service)
    (torn_down : ℕ → Outcome (Unit {0})) (cancelled : Task → Outcome (Unit {0}))
    (while_closing while_releasing while_joining : Runtime → Runtime) (release : Call Bool)
    (r : Runtime) where
  abbrev pub legs_closed : Outcome (Unit {0})
  legs_closed = (close_legs tests now closing torn_down cancelled r).0

  abbrev pub unbridged : Runtime
  unbridged = while_closing (close_legs tests now closing torn_down cancelled r).1

  abbrev pub released : Runtime
  released = on_supervisor now (Supervisor.stop release) (while_releasing unbridged)

  abbrev pub shut_down : Outcome (Unit {0}) × Runtime
  shut_down =
      shutdown tests now closing torn_down cancelled while_closing while_releasing while_joining
        release r

  abbrev shut_by : Outcome (Unit {0}) → Outcome (Unit {0}) × Runtime
  shut_by (raised e) = (raised e, unbridged)
  shut_by (ok _) = finish now while_joining unbridged released

  shutdown-shut_by : shut_down ≡ shut_by legs_closed
  unfolding shutdown
  shutdown-shut_by =
      elim (close_legs tests now closing torn_down cancelled r).0
        as (λ o.
          (elim o as (λ _. Outcome (Unit {0}) × Runtime) [
            | raised e ↦ (raised e, unbridged)
            | ok _ ↦ finish now while_joining unbridged released
          ])
          ≡ shut_by o) [ raised e ↦ refl | ok _ ↦ refl ]

  -- A teardown of a leg or a task that raises ends the shutdown there: nothing after it is done.
  shutdown_stuck : (e : ErrorType) → legs_closed ≡ raised e → shut_down ≡ (raised e, unbridged)
  shutdown_stuck e h = shutdown-shut_by ∙ ap shut_by h

  shutdown-drained :
      legs_closed ≡ ok tt
      → unbridged.supervisor.stopped ≡ false
      → released.supervisor.died ≡ false
      → shut_down ≡ (ok tt, while_joining (drained now released))
  shutdown-drained closed first alive =
      shutdown-shut_by
      ∙ ap shut_by closed
      ∙ finish-drained now while_joining unbridged released first alive

  -- The first shutdown of a gateway, where no teardown of a leg and no task raises, the registration
  -- loop has not raised and the release raises nothing but the SDK's errors, whatever the loop does
  -- during its awaits: when it comes to its last await, for the worker, the last thing told is the
  -- state without any dialog, behind all that was told before; a subscriber that has room for it
  -- reads it and then the end; the book is empty, and the worker takes no further call. What the
  -- loop does during that await is all that comes after.
  pub shutdown-drains :
      (i : ℕ) (s : Subscription Event)
      → legs_closed ≡ ok tt
      → unbridged.supervisor.stopped ≡ false
      → released.supervisor.died ≡ false
      → IsValid released.bus
      → released.bus.closed ≡ false
      → lookup i released.bus.subscribers ≡ some s
      → s.closed ≡ false
      → length s.queue < s.capacity
      → (after : Runtime) × (shut_down ≡ (ok tt, while_joining after))
        × (after.service.calls ≡ empty_book)
        × (after.service.published
            ≡ released.service.published ++ last_told now released.service ∷ [])
        × (lookup i after.bus.gone ≡ some (read_out (last_told now released.service) s))
        × (after.worker.stopped ≡ true)
  shutdown-drains i s closed first alive v o h on room =
      let d = drained_lem now released in
      (
        drained now released,
        shutdown-drained closed first alive,
        d.0,
        d.1,
        drained-reads now released i s v o h on room,
        ap (λ w. w.stopped) d.2 ∙ aclose-stopped released.worker,
      )

  -- A registration loop that ended by raising has the shutdown raise: the client keeps its binding,
  -- the bus stays open and the worker runs on.
  shutdown_raises :
      legs_closed ≡ ok tt
      → unbridged.supervisor.stopped ≡ false
      → (while_releasing unbridged).supervisor.stopped ≡ false
      → (while_releasing unbridged).supervisor.died ≡ true
      → let during = while_releasing unbridged in
        let after = shut_down.1 in
        (after.supervisor.client ≡ during.supervisor.client)
        × (after.bus ≡ during.bus)
        × (after.worker ≡ during.worker)
  shutdown_raises closed first running dead =
      let during = while_releasing unbridged in
      let e = stop_died release during.supervisor running dead in
      let silent =
        on_supervisor_silent now (Supervisor.stop release) during (ap (λ s. s.published) e) in
      let same =
        shutdown-shut_by
        ∙ ap shut_by closed
        ∙ finish_raises now while_joining unbridged released first
            (ap (λ s. s.died) (silent.0 ∙ e) ∙ dead) in
      (
        ap (λ t. t.1.supervisor.client) same ∙ ap (λ s. s.client) (silent.0 ∙ e),
        ap (λ t. t.1.bus) same ∙ silent.1,
        ap (λ t. t.1.worker) same ∙ silent.2,
      )
