-- ===== src/Http/Rest/Opening.antt =====
-- http/rest.py and http/errors.py: the status of an open against what the event stream tells of it.
use urmet_ha.Prelude.{ℕ, ◌+◌, ◌≡◌, refl, ◌∙◌, sym, ap, arith, Bool, true, false, ◌==◌}
use urmet_ha.Domain.{ActuatorName, CallTests}
use urmet_ha.Domain.Errors.{ErrorType, Outcome, ok, raised}
use urmet_ha.Service.World.{Service, Await}
use urmet_ha.Service.Commands.{Ran, open_actuator}
use urmet_ha.Service.Opening.{opens_told, is_ok, is_silence, number, asked, open_actuator-told}
use urmet_ha.Http.Errors.{SdkClasses, Handled, answers, error_middleware}
use urmet_ha.Http.Errors.Statuses.{meaning, error_middleware-meaning}
use urmet_ha.Http.Rest.{no_content, handled, status_of, post_open}

-- The status of a command of the panel, by how its port ended.
abbrev pub reply : Outcome (Unit {0}) → ℕ
reply (ok _) = 204
reply (raised e) = meaning e

abbrev pub says_204 : Handled → Bool
says_204 (answers status) = status == 204
says_204 _ = false

no_content-reply :
    (sdk : SdkClasses) (r : Ran (Unit {0}))
    → (status_of sdk (no_content r) ≡ answers (reply r.0)) × ((no_content r).1 ≡ r.1)
unfolding status_of handled no_content error_middleware
no_content-reply sdk (ok tt, s) = (refl, refl)
no_content-reply sdk (raised e, s) = (error_middleware-meaning sdk e, refl)

meaning_differs : (e : ErrorType) → (meaning e == 204) ≡ false
meaning_differs e = ground arith

reply-is_ok : (r : Outcome (Unit {0})) → says_204 (answers (reply r)) ≡ is_ok r
reply-is_ok (ok tt) = refl
reply-is_ok (raised e) = meaning_differs e

-- A request to open is answered 204 if the panel did what it was told, else with the status that the
-- class of the error means, in any hierarchy of the SDK's classes that keeps the laws. Whoever
-- listens to the events is told the same: one acknowledged open exactly if the status is 204, one
-- unacknowledged open exactly if the panel did not acknowledge, and nothing else of opens, beside
-- what happened while the panel was asked. One command goes out.
pub post_open-tells :
    (sdk : SdkClasses) (tests : CallTests) (now : ℕ) (actuator : ActuatorName)
    → (a : Await (Unit {0})) (s : Service)
    → let ran = post_open tests now actuator a s in
      let waited = a.meanwhile (asked tests actuator s) in
      (status_of sdk ran ≡ answers (reply a.outcome))
      × (opens_told true ran.1.published
          ≡ opens_told true waited.published + number (says_204 (status_of sdk ran)))
      × (opens_told false ran.1.published
          ≡ opens_told false waited.published + number (is_silence a.outcome))
      × (ran.1.sent ≡ waited.sent)
unfolding post_open
post_open-tells sdk tests now actuator a s =
    let told = open_actuator-told tests now actuator a s in
    let r = open_actuator tests now actuator a s in
    let shown = no_content-reply sdk r in
    let status = shown.0 ∙ ap (λ o. answers (reply o)) told.0 in
    let waited = a.meanwhile (asked tests actuator s) in
    (
      status,
      ap (λ s'. opens_told true s'.published) shown.1
          ∙ told.2
          ∙ ap (λ b. opens_told true waited.published + number b)
              (sym (reply-is_ok a.outcome) ∙ sym (ap says_204 status)),
      ap (λ s'. opens_told false s'.published) shown.1 ∙ told.3,
      ap (λ s'. s'.sent) shown.1 ∙ told.1,
    )
