-- ===== src/Service/Loop/Alone.antt =====
-- usecases/service.py: a coroutine of one await, cut at it, is the coroutine.
use urmet_ha.Prelude.{ℕ, suc, ◌≡◌, refl, Bool, [], ◌∷◌, ◌++◌}
use urmet_ha.Domain.{ActuatorName, incoming, CallTests, CallHandle, signal}
use urmet_ha.Domain.Errors.{Outcome, ok, raised}
use urmet_ha.Calls.{handle, streaming_calls}
use urmet_ha.Threads.{Course, ends, plays}
use urmet_ha.Service.World
use urmet_ha.Service.World.{Service, publish_state, send, open_during, open_on_demand}
use urmet_ha.Service.Commands.{
  answer_call, set_mic_muted, open_actuator, open_command, open_told, placed, placing, cross,
  crossing, recorded, inviting_while, ◌and_then◌, Ran,
}
use urmet_ha.Service.Loop.{answering, muting, opening}

module _ (m : ℕ → Service → Service) (now : ℕ) where
  muting-plays :
      (r : Outcome (Unit {0})) (muted : Bool) (s : Service)
      → plays m 0 (muting now r muted s)
        ≡ set_mic_muted now (record { meanwhile = m 0; outcome = r }) muted s
  unfolding plays muting set_mic_muted cross
  muting-plays r muted s = refl

  answering-plays :
      (r : Outcome (Unit {0})) (call_id : ℕ) (s : Service)
      → plays m 0 (answering now r call_id s)
        ≡ answer_call now (record { meanwhile = m 0; outcome = r }) call_id s
  unfolding plays answering answer_call cross crossing ◌and_then◌
  answering-plays r call_id s = go r (handle s.calls call_id)
    where
      go :
          (r : Outcome (Unit {0})) (o : Outcome CallHandle)
          → plays m 0 (elim o as (λ _. Course Service (Unit {0})) [
            | raised e ↦ ends (raised e) s
            | ok call ↦
                crossing
                  (World.answer call)
                  r
                  (λ _ t. ends (ok tt) (publish_state now (recorded call incoming t)))
                  s
          ])
            ≡ (elim o as (λ _. Ran (Unit {0})) [
              | raised e ↦ (raised e, s)
              | ok call ↦
                  cross (World.answer call) (record { meanwhile = m 0; outcome = r }) s
                  and_then λ _ s'. (ok tt, publish_state now (recorded call incoming s'))
            ])
      go r (raised e) = refl
      go (ok tt) (ok call) = refl
      go (raised e) (ok call) = refl

  module _ (tests : CallTests) where
    placing-plays :
        (want_video : Bool) (called : Outcome CallHandle) (s : Service)
        → plays m 0 (placing tests now want_video called s)
          ≡ placed tests now want_video (record { meanwhile = m 0; outcome = called }) s
    unfolding plays placing placed inviting_while cross
    placing-plays want_video called s = refl

    opening-plays :
        (actuator : ActuatorName) (r : Outcome (Unit {0})) (s : Service)
        → plays m 0 (opening tests now actuator r s)
          ≡ open_actuator tests now actuator (record { meanwhile = m 0; outcome = r }) s
    unfolding plays opening open_actuator open_command inviting_while cross
    opening-plays actuator r s =
        elim (streaming_calls tests s.calls)
          as (λ cs.
            open_told now actuator (elim cs as (λ _. Ran (Unit {0})) [
              | [] ↦
                  inviting_while (open_on_demand (signal actuator))
                    (record {
                      meanwhile = λ _. m 0 (elim cs as (λ _. Service) [
                        | [] ↦ record s {
                          inviting = suc s.inviting;
                          sent = s.sent ++ open_on_demand (signal actuator) ∷ [];
                        }
                        | c ∷ cs' ↦ record s {
                          sent = s.sent ++ open_during c.handle (signal actuator) ∷ [];
                        }
                      ]);
                      outcome = r;
                    })
                    s
              | c ∷ cs' ↦
                  cross (open_during c.handle (signal actuator))
                    (record {
                      meanwhile = λ _. m 0 (elim cs as (λ _. Service) [
                        | [] ↦ record s {
                          inviting = suc s.inviting;
                          sent = s.sent ++ open_on_demand (signal actuator) ∷ [];
                        }
                        | c ∷ cs' ↦ record s {
                          sent = s.sent ++ open_during c.handle (signal actuator) ∷ [];
                        }
                      ]);
                      outcome = r;
                    })
                    s
            ])
            ≡ open_told now actuator (elim cs as (λ _. Ran (Unit {0})) [
              | [] ↦
                  inviting_while (open_on_demand (signal actuator))
                    (record { meanwhile = m 0; outcome = r }) s
              | c ∷ cs' ↦
                  cross (open_during c.handle (signal actuator))
                    (record { meanwhile = m 0; outcome = r }) s
            ])) [ [] ↦ refl | c ∷ cs ↦ refl ]
