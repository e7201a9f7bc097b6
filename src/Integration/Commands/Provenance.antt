-- ===== src/Integration/Commands/Provenance.antt =====
-- commands.py and event.py: when an open counts as acknowledged, and to whom an open is credited.
use mathlib.Core.List.{append_assoc, append-nil}
use urmet_ha.Prelude.{
  ℕ, String, ◌≡◌, refl, sym, ap, ◌∙◌, ◌↔◌, ◌⊎◌, inl, inr, Bool, true, ◌||◌, Option, none, some,
  List, [], ◌∷◌, ◌++◌, ==_iff, if◌then◌else◌, arith, Bool-cases,
}
use text.Mathlib.Text.{◌==◌ as same_text}
use urmet_ha.Integration.Events.{GatewayEvent, open_event}
use urmet_ha.Integration.Client.Requests.{
  Got, got, connection_error, other_failure, GatewayResponse,
}
use urmet_ha.Integration.Doorbell.{Opened, opened_by, hear_open}
use urmet_ha.Integration.Commands.{
  PendingOpen, Entry, done, Waiting, post, request, open_path, open_by, is_204, async_open,
  stash_open_origin, take_open, default_origin, validation_error,
}

abbrev status_of : Got GatewayResponse → ℕ
status_of (got resp) = resp.status
status_of _ = 0

is_204-done :
    (out : Got GatewayResponse)
    → (is_204 out ≡ done true) ↔ ((resp : GatewayResponse) × (out ≡ got resp) × (resp.status ≡ 204))
unfolding is_204
is_204-done (got resp) = (
  λ h. (resp, refl, ground (arith, h)),
  λ (r, same, e). ap (λ b. done b) ((==_iff resp.status 204).1 (ap status_of same ∙ e)),
)
is_204-done connection_error = (λ h. cc, λ (r, same, e). cc)
is_204-done other_failure = (λ h. cc, λ (r, same, e). cc)

open_by-acknowledges :
    (found : Option (List String)) (origin : String) (context : Option ℕ) (w : Waiting)
    (entry : Entry)
    → (((open_by found origin context w entry).0 ≡ done true) ↔ (
        (path : List String) × (found ≡ some path)
        × (resp : GatewayResponse) × (w.outcome ≡ got resp)
        × (resp.status ≡ 204)))
      × (found ≡ none → open_by found origin context w entry ≡ (validation_error, entry))
      × ((path : List String)
          → found ≡ some path
          → (open_by found origin context w entry).1
            ≡ w.meanwhile (record entry {
              pending_open = some (record { origin = origin; context = context });
              sent = entry.sent ++ record { method = post; path = path; json = none } ∷ [];
            }))
unfolding open_by request stash_open_origin
open_by-acknowledges none origin context w entry =
    ((λ h. cc, λ (path, same, resp, answered, e). cc), λ h. refl, λ path h. cc)
open_by-acknowledges (some path) origin context w entry = (
  (
    λ h. let (resp, answered, e) = (is_204-done w.outcome).0 h in (path, refl, resp, answered, e),
    λ (path', same, resp, answered, e). (is_204-done w.outcome).1 (resp, answered, e),
  ),
  λ h. cc,
  λ path' h. cc,
)

-- `urmet.open` says that the panel acknowledged exactly when the gateway answered 204 to the one
-- request for that actuator; it asks nothing and stashes nothing for an actuator that has no path.
pub async_open-acknowledges :
    (actuator origin : String) (context : Option ℕ) (w : Waiting) (entry : Entry)
    → (((async_open actuator origin context w entry).0 ≡ done true) ↔ (
        (path : List String) × (open_path actuator ≡ some path)
        × (resp : GatewayResponse) × (w.outcome ≡ got resp)
        × (resp.status ≡ 204)))
      × (open_path actuator ≡ none
          → async_open actuator origin context w entry ≡ (validation_error, entry))
      × ((path : List String)
          → open_path actuator ≡ some path
          → (async_open actuator origin context w entry).1
            ≡ w.meanwhile (record entry {
              pending_open = some (record { origin = origin; context = context });
              sent = entry.sent ++ record { method = post; path = path; json = none } ∷ [];
            }))
unfolding async_open
async_open-acknowledges actuator origin context w entry =
    open_by-acknowledges (open_path actuator) origin context w entry

-- What is taken of a pending open.
abbrev taken_of : Option PendingOpen → PendingOpen
taken_of none = record { origin = default_origin; context = none }
taken_of (some p) = p

abbrev taken_origin : Option PendingOpen → String
taken_origin p = (taken_of p).origin

abbrev taken_context : Option PendingOpen → Option ℕ
taken_context p = (taken_of p).context

-- The opens that are heard, in order.
abbrev pub hear_opens : List GatewayEvent → Entry × List Opened → Entry × List Opened
hear_opens [] state = state
hear_opens (e ∷ es) state = hear_opens es (hear_open e state)

-- Each is credited to the default and to nobody.
abbrev pub AreNobodys : List Opened → Type 0
AreNobodys [] = Unit {0}
AreNobodys (o ∷ opened) = (o.origin ≡ default_origin) × (o.context ≡ none) × AreNobodys opened

-- The first is credited to a command, and each other to the default and to nobody.
abbrev pub FirstIsFrom : String → Option ℕ → List Opened → Type 0
FirstIsFrom origin context [] = Unit {0}
FirstIsFrom origin context (o ∷ opened) =
    (o.origin ≡ origin) × (o.context ≡ context) × AreNobodys opened

-- An open that is heard: by the actuator, either it is recorded as what was taken, or nothing is done.
hear_open-cases :
    (at : Option ℕ) (actuator : String) (acknowledged : Bool) (id : Option String) (entry : Entry)
    (before : List Opened)
    → (hear_open (open_event at actuator acknowledged id) (entry, before) ≡ (
      (take_open entry).1,
      before ++ opened_by actuator acknowledged id (take_open entry).0 ∷ [],
    ))
      ⊎ (hear_open (open_event at actuator acknowledged id) (entry, before) ≡ (entry, before))
unfolding hear_open
hear_open-cases at actuator acknowledged id entry before =
    elim (Bool-cases (same_text actuator "door" || same_text actuator "gate")) [
      | inl e ↦ inl (
          ap
            (λ b.
              if b
              then (
                (take_open entry).1,
                before ++ opened_by actuator acknowledged id (take_open entry).0 ∷ [],
              )
              else (entry, before))
            e)
      | inr e ↦ inr (
          ap
            (λ b.
              if b
              then (
                (take_open entry).1,
                before ++ opened_by actuator acknowledged id (take_open entry).0 ∷ [],
              )
              else (entry, before))
            e)
    ]

hear_opens-nobodys :
    (es : List GatewayEvent) (entry : Entry) (before : List Opened)
    → entry.pending_open ≡ none
    → (new : List Opened) × ((hear_opens es (entry, before)).1 ≡ before ++ new) × AreNobodys new
unfolding take_open opened_by hear_open
hear_opens-nobodys [] entry before p = ([], sym (append-nil before), tt)
hear_opens-nobodys (open_event at actuator acknowledged id ∷ es) entry before p =
    let o = opened_by actuator acknowledged id (take_open entry).0 in
    elim (hear_open-cases at actuator acknowledged id entry before) [
      | inl e ↦
          let (new, same, nobodys) =
            hear_opens-nobodys es (take_open entry).1 (before ++ o ∷ []) refl in
          (
            o ∷ new,
            ap (λ s. (hear_opens es s).1) e ∙ same ∙ append_assoc before (o ∷ []) new,
            (ap taken_origin p, ap taken_context p, nobodys),
          )
      | inr e ↦
          let (new, same, nobodys) = hear_opens-nobodys es entry before p in
          (new, ap (λ s. (hear_opens es s).1) e ∙ same, nobodys)
    ]
hear_opens-nobodys (e ∷ es) entry before p = hear_opens-nobodys es entry before p

hear_opens-first :
    (es : List GatewayEvent) (entry : Entry) (before : List Opened) (origin : String)
    (context : Option ℕ)
    → entry.pending_open ≡ some (record { origin = origin; context = context })
    → (new : List Opened) × ((hear_opens es (entry, before)).1 ≡ before ++ new)
      × FirstIsFrom origin context new
unfolding take_open opened_by hear_open
hear_opens-first [] entry before origin context p = ([], sym (append-nil before), tt)
hear_opens-first (open_event at actuator acknowledged id ∷ es) entry before origin context p =
    let o = opened_by actuator acknowledged id (take_open entry).0 in
    elim (hear_open-cases at actuator acknowledged id entry before) [
      | inl e ↦
          let (new, same, nobodys) =
            hear_opens-nobodys es (take_open entry).1 (before ++ o ∷ []) refl in
          (
            o ∷ new,
            ap (λ s. (hear_opens es s).1) e ∙ same ∙ append_assoc before (o ∷ []) new,
            (ap taken_origin p, ap taken_context p, nobodys),
          )
      | inr e ↦
          let (new, same, first) = hear_opens-first es entry before origin context p in
          (new, ap (λ s. (hear_opens es s).1) e ∙ same, first)
    ]
hear_opens-first (e ∷ es) entry before origin context p =
    hear_opens-first es entry before origin context p

-- An open is credited to one command at most: of the opens that are heard after a command and before
-- the next, the first is credited to that command and to its user, whatever the command came to and
-- whichever actuator it was for, and each later one to the default and to nobody. The events that
-- arrive while the command waits are counted among those heard after it.
pub async_open-credits :
    (actuator origin : String) (context : Option ℕ) (out : Got GatewayResponse) (entry : Entry)
    (es : List GatewayEvent) (before : List Opened) (path : List String)
    → open_path actuator ≡ some path
    → let waiting : Waiting = record { meanwhile = λ e. e; outcome = out } in
      let asked = (async_open actuator origin context waiting entry).1 in
      (new : List Opened) × ((hear_opens es (asked, before)).1 ≡ before ++ new)
      × FirstIsFrom origin context new
unfolding async_open
async_open-credits actuator origin context out entry es before path known =
    let waiting : Waiting = record { meanwhile = λ e. e; outcome = out } in
    let asked = async_open-acknowledges actuator origin context waiting entry in
    hear_opens-first es (async_open actuator origin context waiting entry).1 before origin context
      (ap (λ e. e.pending_open) (asked.2 path known))
