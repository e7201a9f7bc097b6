-- ===== src/Service/Opening.antt =====
-- usecases/service.py: `open`. One command goes out, and what is told is what the panel answered.
use urmet_ha.Prelude.{
  ℕ, suc, ◌+◌, ◌≡◌, refl, ◌∙◌, Bool, true, false, List, [], ◌∷◌, ◌++◌, arith, if◌then◌else◌,
}
use mathlib.Core.Path.{ap₂}
use urmet_ha.Domain.{ActuatorName, signal, CallTests, Event, state_event, open_event}
use urmet_ha.Domain.Errors.{Outcome, ok, raised, open_not_acknowledged}
use urmet_ha.Calls.{streaming_calls}
use urmet_ha.Service.World.{Service, open_during, open_on_demand, Await, snapshot, emit, publish}
use urmet_ha.Service.Commands.{Ran, cross, inviting_while, open_command, open_told, open_actuator}

-- How many opens were told with that answer.
pub opens_told : Bool → List Event → ℕ
opens_told b [] = 0
opens_told b (open_event at actuator acknowledged ∷ es) =
    let rest = opens_told b es in
    if acknowledged then (if b then suc rest else rest) else (if b then rest else suc rest)
opens_told b (e ∷ es) = opens_told b es

opens_told-append :
    (b : Bool) (es fs : List Event) → opens_told b (es ++ fs) ≡ opens_told b es + opens_told b fs
unfolding opens_told
opens_told-append b [] fs = omega arith
opens_told-append b (open_event at actuator acknowledged ∷ es) fs =
    ground (arith, opens_told-append b es fs)
opens_told-append b (e ∷ es) fs = opens_told-append b es fs

abbrev pub is_ok : Outcome (Unit {0}) → Bool
is_ok (ok _) = true
is_ok (raised e) = false

abbrev pub is_silence : Outcome (Unit {0}) → Bool
is_silence (raised open_not_acknowledged) = true
is_silence _ = false

abbrev pub number : Bool → ℕ
number true = 1
number false = 0

-- The service as the loop has it while the panel is asked: inside the oldest streaming dialog where
-- there is one, by a short call of the SDK's own, counted as ours, where there is none.
abbrev pub asked : CallTests → ActuatorName → Service → Service
asked tests actuator s = elim (streaming_calls tests s.calls) [
  | [] ↦ record s {
    inviting = suc s.inviting;
    sent = s.sent ++ open_on_demand (signal actuator) ∷ [];
  }
  | c ∷ cs ↦ record s { sent = s.sent ++ open_during c.handle (signal actuator) ∷ [] }
]

opens_told-publish :
    (b : Bool) (now : ℕ) (e : Event) (s : Service)
    → opens_told b (publish now e s).published ≡ opens_told b s.published + opens_told b (e ∷ [])
unfolding opens_told publish
opens_told-publish b now e s = omega (
  arith,
  opens_told-append b (s.published ++ e ∷ []) (state_event now (snapshot (emit e s)) ∷ []),
  opens_told-append b s.published (e ∷ []),
)

told_counts :
    (now : ℕ) (actuator : ActuatorName) (r : Outcome (Unit {0})) (s : Service)
    → let (out, s') = open_told now actuator (r, s) in
      (out ≡ r)
      × (s'.sent ≡ s.sent)
      × (opens_told true s'.published ≡ opens_told true s.published + number (is_ok r))
      × (opens_told false s'.published ≡ opens_told false s.published + number (is_silence r))
unfolding open_told publish opens_told
told_counts now actuator (ok tt) s = (
  refl,
  refl,
  opens_told-publish true now (open_event now actuator true) s,
  opens_told-publish false now (open_event now actuator true) s,
)
told_counts now actuator (raised open_not_acknowledged) s = (
  refl,
  refl,
  opens_told-publish true now (open_event now actuator false) s,
  opens_told-publish false now (open_event now actuator false) s,
)
told_counts now actuator (raised e) s = (refl, refl, omega arith, omega arith)

open_command-asked :
    (tests : CallTests) (actuator : ActuatorName) (a : Await (Unit {0})) (s : Service)
    → ((open_command tests actuator a s).0 ≡ a.outcome)
      × ((open_command tests actuator a s).1.sent ≡ (a.meanwhile (asked tests actuator s)).sent)
      × ((open_command tests actuator a s).1.published
          ≡ (a.meanwhile (asked tests actuator s)).published)
unfolding open_command inviting_while cross
open_command-asked tests actuator a s =
    elim (streaming_calls tests s.calls)
      as (λ cs.
        let r = elim cs as (λ _. Ran (Unit {0})) [
          | [] ↦ inviting_while (open_on_demand (signal actuator)) a s
          | c ∷ cs' ↦ cross (open_during c.handle (signal actuator)) a s
        ] in
        let before = elim cs as (λ _. Service) [
          | [] ↦ record s {
            inviting = suc s.inviting;
            sent = s.sent ++ open_on_demand (signal actuator) ∷ [];
          }
          | c ∷ cs' ↦ record s { sent = s.sent ++ open_during c.handle (signal actuator) ∷ [] }
        ] in
        (r.0 ≡ a.outcome)
        × (r.1.sent ≡ (a.meanwhile before).sent)
        × (r.1.published ≡ (a.meanwhile before).published)) [
          | [] ↦ (refl, refl, refl)
          | c ∷ cs ↦ (refl, refl, refl)
        ]

-- `open` sends one command, inside the oldest streaming dialog where there is one, and none after
-- it, however that ends: it answers as the port did, tells one acknowledged open exactly if the port
-- succeeded, one unacknowledged open exactly if the panel did not acknowledge, and else nothing.
pub open_actuator-told :
    (tests : CallTests) (now : ℕ) (actuator : ActuatorName) (a : Await (Unit {0})) (s : Service)
    → let (out, s') = open_actuator tests now actuator a s in
      let waited = a.meanwhile (asked tests actuator s) in
      (out ≡ a.outcome)
      × (s'.sent ≡ waited.sent)
      × (opens_told true s'.published ≡ opens_told true waited.published + number (is_ok a.outcome))
      × (opens_told false s'.published
          ≡ opens_told false waited.published + number (is_silence a.outcome))
unfolding open_actuator
open_actuator-told tests now actuator a s =
    let asked_ = open_command-asked tests actuator a s in
    let (r, s') = open_command tests actuator a s in
    let told = told_counts now actuator r s' in
    (
      told.0 ∙ asked_.0,
      told.1 ∙ asked_.1,
      told.2 ∙ ap₂ (λ es q. opens_told true es + number (is_ok q)) asked_.2 asked_.0,
      told.3 ∙ ap₂ (λ es q. opens_told false es + number (is_silence q)) asked_.2 asked_.0,
    )
