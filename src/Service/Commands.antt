-- ===== src/Service/Commands.antt =====
-- usecases/service.py: the coroutines that a request runs.
use urmet_ha.Prelude.{ℕ, suc, ◌-◌, Bool, true, false, none, some, List, [], ◌∷◌}
use urmet_ha.Domain.{
  Direction, incoming, outgoing, ActuatorName, signal, streaming, CallTests, CallHandle, open_event,
}
use urmet_ha.Domain.Errors.{Outcome, ok, raised, open_not_acknowledged}
use urmet_ha.Calls.{TrackedCall, find, handle, record_call, forget, clear, streaming_calls}
use urmet_ha.Service.World
use urmet_ha.Service.World.{
  Service, Command, view_door, open_during, open_on_demand, Await, publish_state, publish, send,
}
use urmet_ha.Threads.{Course, ends, waits}
use urmet_ha.Service.Legs.{close_for_call, call_over}

-- The end of a coroutine, and the service that it leaves.
abbrev pub Ran : Type 0 → Type 0
Ran A = Outcome A × Service

-- The command goes out and is awaited.
unfoldable pub cross : {A : Type 0} → Command → Await A → Service → Ran A
unfolding send
cross c a s = (a.outcome, a.meanwhile (send c s))

-- The same in a coroutine, which goes on if the port has answered.
unfoldable pub crossing :
    {A B : Type 0}
    → Command
    → Outcome A
    → (A → Service → Course Service B)
    → Service
    → Course Service B
unfolding send
crossing c answered next s =
    waits (send c s) (λ t. elim answered [ raised e ↦ ends (raised e) t | ok a ↦ next a t ])

infixl 5 ◌and_then◌
unfoldable pub ◌and_then◌ : {A B : Type 0} → Ran A → (A → Service → Ran B) → Ran B
(ok a, s) and_then f = f a s
(raised e, s) and_then f = (raised e, s)

unfoldable pub recorded : CallHandle → Direction → Service → Service
recorded call side s = record s { calls = (record_call s.calls call streaming side true).0 }

-- `_invite` and `_open_on_demand`: the count of INVITEs in flight is up while the port is awaited,
-- and comes down however that ends.
unfoldable pub inviting_while : {A : Type 0} → Command → Await A → Service → Ran A
unfolding cross
inviting_while c a s =
    let (r, s') = cross c a (record s { inviting = suc s.inviting }) in
    (r, record s' { inviting = s'.inviting - 1 })

module _ (tests : CallTests) where
  -- `DoorphoneService.hangup`, with how the end of its session and the port come out.
  unfoldable pub hang_up :
      {A : Type 0}
      → ℕ
      → (torn_down port : Outcome (Unit {0})) → ℕ
      → (Service → Course Service A)
      → Service
      → Course Service A
  unfolding crossing
  hang_up now torn_down port call_id next s = elim (find s.calls call_id) [
    | none ↦ next s
    | some tracked ↦
        close_for_call tests now torn_down call_id call_over
          (crossing (World.hangup tracked.handle) port
            (λ _ t. next (publish_state now (record t { calls = forget t.calls call_id }))))
          s
  ]

  -- An entry is one object: its side is read when its turn comes. One that has left the book is
  -- read as it was listed, and hanging it up does nothing.
  unfoldable pub side_now : Service → TrackedCall → Direction
  side_now s c = elim (find s.calls c.handle.id) [ none ↦ c.direction | some c' ↦ c'.direction ]

  unfoldable pub hangup_each :
      {A : Type 0}
      → ℕ
      → (torn_down port : ℕ → Outcome (Unit {0})) → List TrackedCall
      → (Service → Course Service A)
      → Service
      → Course Service A
  unfolding side_now
  hangup_each now torn_down port [] next s = next s
  hangup_each now torn_down port (c ∷ cs) next s =
      let i = c.handle.id in
      elim (side_now s c) [
        | incoming ↦ hangup_each now torn_down port cs next s
        | outgoing ↦ hang_up now (torn_down i) (port i) i (hangup_each now torn_down port cs next) s
      ]

  -- `DoorphoneService._hangup_monitors`
  unfoldable pub hangup_monitors :
      {A : Type 0}
      → ℕ
      → (torn_down port : ℕ → Outcome (Unit {0})) → (Service → Course Service A)
      → Service
      → Course Service A
  hangup_monitors now torn_down port next s =
      hangup_each now torn_down port (streaming_calls tests s.calls) next s

  -- What `place_call` does once the monitors are gone.
  unfoldable pub placed : ℕ → Bool → Await CallHandle → Service → Ran ℕ
  placed now want_video a s = inviting_while (view_door want_video) a s and_then λ call s'.
      (ok call.id, publish_state now (recorded call outgoing s'))

  -- `placed` as a coroutine: up to the port's answer, and from there.
  unfoldable pub placing : ℕ → Bool → Outcome CallHandle → Service → Course Service ℕ
  unfolding send placed
  placing now want_video called s =
      waits (send (view_door want_video) (record s { inviting = suc s.inviting })) (λ t.
        let (r, u) = placed now want_video (record { meanwhile = λ _. t; outcome = called }) s in
        ends r u)

  -- `DoorphoneService.place_call`
  unfoldable pub place_call :
      ℕ
      → (torn_down port : ℕ → Outcome (Unit {0})) → Bool
      → Outcome CallHandle
      → Service
      → Course Service ℕ
  unfolding placing
  place_call now torn_down port want_video called s =
      hangup_monitors now torn_down port (placing now want_video called) s

  -- `DoorphoneService.open`
  unfoldable pub open_command : ActuatorName → Await (Unit {0}) → Service → Ran (Unit {0})
  unfolding cross
  open_command actuator a s = elim (streaming_calls tests s.calls) [
    | [] ↦ inviting_while (open_on_demand (signal actuator)) a s
    | c ∷ cs ↦ cross (open_during c.handle (signal actuator)) a s
  ]

-- `DoorphoneService.answer`
unfoldable pub answer_call : ℕ → Await (Unit {0}) → ℕ → Service → Ran (Unit {0})
unfolding cross
answer_call now a call_id s = elim (handle s.calls call_id) [
  | raised e ↦ (raised e, s)
  | ok call ↦ cross (World.answer call) a s and_then λ _ s'.
      (ok tt, publish_state now (recorded call incoming s'))
]

-- `DoorphoneService.set_mic_muted`
unfoldable pub set_mic_muted : ℕ → Await (Unit {0}) → Bool → Service → Ran (Unit {0})
unfolding cross
set_mic_muted now a muted s = cross (World.set_mic_muted muted) a s and_then λ _ s'.
    (ok tt, publish_state now (record s' { mic_muted = muted }))

-- `DoorphoneService.realign`
unfoldable pub realign : ℕ → Await (Unit {0}) → Service → Ran (Unit {0})
realign now a s = set_mic_muted now a s.mic_muted s

-- What an open tells, by how the port ended; any other error passes in silence.
unfoldable pub open_told : ℕ → ActuatorName → Ran (Unit {0}) → Ran (Unit {0})
open_told now actuator (ok _, s) = (ok tt, publish now (open_event now actuator true) s)
open_told now actuator (raised open_not_acknowledged, s) =
    (raised open_not_acknowledged, publish now (open_event now actuator false) s)
open_told now actuator (raised e, s) = (raised e, s)

module _ (tests : CallTests) where
  unfoldable pub open_actuator : ℕ → ActuatorName → Await (Unit {0}) → Service → Ran (Unit {0})
  open_actuator now actuator a s = open_told now actuator (open_command tests actuator a s)

-- `DoorphoneService.clear_calls`
unfoldable pub clear_calls : Service → Service
clear_calls s = record s { calls = clear s.calls }
