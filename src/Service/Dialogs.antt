-- ===== src/Service/Dialogs.antt =====
-- usecases/service.py: what the commands do to the book of dialogs.
use urmet_ha.Prelude.{
  ℕ, suc, ◌-◌, ◌≡◌, refl, ◌∙◌, Bool, true, false, Option, none, some, List, [], ◌∷◌, ◌++◌, arith,
  if◌then◌else◌, contains, lookup, insert,
}
use urmet_ha.Domain.{incoming, outgoing, streaming, CallTests, CallHandle, Event, state_event}
use urmet_ha.Domain.Errors.{ok}
use urmet_ha.Calls.{side_of, find}
use urmet_ha.Calls.Laws.{record_call-find}
use urmet_ha.Service.World.{Service, Leg, hangup, view_door, Await, snapshot, publish_state, send}
use urmet_ha.Service.Legs.{session_closed, shut, for_call, call_over}
use urmet_ha.Service.Commands.{◌and_then◌, cross, recorded, inviting_while, placed}

-- The last event is the state that the service is in.
abbrev pub IsCurrent : Service → Type 0
IsCurrent s =
    (before : List Event) × (now : ℕ) × (s.published ≡ before ++ state_event now (snapshot s) ∷ [])

module _ (tests : CallTests) where
  -- The session on a dialog that is up and not closing, if there is one.
  abbrev pub live_leg : Service → ℕ → Option (ℕ × Leg)
  live_leg s call_id = elim (for_call s call_id) [
    | none ↦ none
    | some id ↦ elim (lookup id s.legs) [
      | none ↦ none
      | some leg ↦ if leg.closed then none else some (id, leg)
    ]
  ]

  -- How many awaits come before the port's, and the service when the port is asked.
  abbrev pub unbridged : (ℕ → Service → Service) → ℕ → Service → Option (ℕ × Leg) → ℕ × Service
  unbridged m now s none = (0, s)
  unbridged m now s (some (id, leg)) = (
    1,
    session_closed tests now id leg.call_id call_over
        (m 0 (record s { legs = insert id (shut call_over leg) s.legs })),
  )

  abbrev pub IsOut : Option (ℕ × Leg) → Service → Type 0
  IsOut none s = Unit {0}
  IsOut (some (id, leg)) s = contains id s.sessions ≡ false

  -- The service when the port has answered the `hangup` of that dialog.
  abbrev pub hung_up : (ℕ → Service → Service) → ℕ → ℕ → CallHandle → Service → Service
  hung_up m now call_id call s =
      let (n, asked) = unbridged m now s (live_leg s call_id) in m n (send (hangup call) asked)

  -- `place_call`, once the older monitors are gone: a dialog that is not in the book when the port
  -- answers, because its end was reported while the INVITE was awaited, is not put back; one that is
  -- in the book is streaming and, unless it rang, outgoing. The count of INVITEs in flight is what
  -- the loop made of it, less this one, and the state last published is the current one.
  pub placed-records :
      (now : ℕ) (want_video : Bool) (a : Await CallHandle) (call : CallHandle) (s : Service)
      → a.outcome ≡ ok call
      → let waited =
          a.meanwhile (send (view_door want_video) (record s { inviting = suc s.inviting })) in
        let (out, s') = placed tests now want_video a s in
        (out ≡ ok call.id)
        × (find s'.calls call.id ≡ elim (find waited.calls call.id) [
          | none ↦ none
          | some c ↦ some (record {
            handle = call;
            state = streaming;
            direction = if contains call.id waited.calls.rang then incoming else outgoing;
          })
        ])
        × (s'.inviting ≡ waited.inviting - 1)
        × IsCurrent s'
  unfolding placed inviting_while cross ◌and_then◌ recorded publish_state side_of snapshot
  placed-records now want_video a call s r =
      rw (r, ◌and_then◌)
        (
          refl,
          record_call-find _ call streaming outgoing true call.id ∙ ground arith,
          refl,
          (_, now, refl),
        )
