-- ===== src/Integration/Repairs.antt =====
-- custom_components/urmet/repairs.py: the three issues of a config entry. Home Assistant's registry is
-- kept as the issues of this entry that stand, each with its severity and whether it can be fixed.
pub mod Routing
use urmet_ha.Prelude.{
  ℕ, suc, ◌≡◌, refl, Bool, true, false, ◌||◌, ◌&&◌, Option, none, some, List, [], ◌∷◌, ◌==◌, leb,
  if◌then◌else◌, contains,
}
use urmet_ha.Integration.Json.{ℤ}
use urmet_ha.Integration.Models.{StateView}
use urmet_ha.Integration.Events.{GatewayEvent, state_event, registration_event}

pub data Issue : Type 0 where
  unconfirmed_release auth_failure calls_not_routed : Issue

pub data Severity : Type 0 where
  warning error : Severity

unfoldable pub same_issue : Issue → Issue → Bool
same_issue unconfirmed_release unconfirmed_release = true
same_issue auth_failure auth_failure = true
same_issue calls_not_routed calls_not_routed = true
same_issue _ _ = false

-- `ROUTE_503_THRESHOLD`
abbrev pub route_503_threshold : ℕ
route_503_threshold = 3

-- `AUTH_STATUS_CODES`
unfoldable pub is_auth_status : ℤ → Bool
is_auth_status (ℤ.pos n) = contains n (401 ∷ 403 ∷ [])
is_auth_status (ℤ.negsuc n) = false

-- `_SUCCESS_STATUSES`
abbrev pub is_success : ℕ → Bool
is_success status = contains status (200 ∷ 201 ∷ 204 ∷ [])

pub record Monitor : Type 0 where
  pub registered : Bool
  pub consecutive_503 : ℕ
  pub issues : Issue → Option (Severity × Bool)

abbrev pub new_monitor : Monitor
new_monitor = record { registered = false; consecutive_503 = 0; issues = λ i. none }

-- `_raise`
unfoldable pub raise_issue : Issue → Severity → Bool → Monitor → Monitor
unfolding same_issue
raise_issue base severity fixable m = record m {
  issues = λ i. if same_issue i base then some (severity, fixable) else m.issues i;
}

-- `_clear`
unfoldable pub clear : Issue → Monitor → Monitor
unfolding same_issue
clear base m = record m { issues = λ i. if same_issue i base then none else m.issues i }

is_false : Option Bool → Bool
is_false (some false) = true
is_false _ = false

-- `_on_registration`, on the event's fields
unfoldable pub on_registration : Bool → ℤ → Option Bool → Monitor → Monitor
unfolding raise_issue clear is_auth_status is_false
on_registration registered status_code released m =
    let m1 = record m { registered = registered } in
    let m2 = if is_false released then raise_issue unconfirmed_release warning false m1 else m1 in
    let m3 = if is_auth_status status_code then raise_issue auth_failure error false m2 else m2 in
    if registered then clear auth_failure (clear unconfirmed_release m1) else m3

unfoldable pub handle_event : GatewayEvent → Monitor → Monitor
unfolding on_registration
handle_event (state_event at view) m = record m { registered = view.registered }
handle_event (registration_event at registered status_code reason released) m =
    on_registration registered status_code released m
handle_event event m = m

-- A 503 that counts.
refused : Monitor → Monitor
unfolding raise_issue
refused m =
    let m1 = record m { consecutive_503 = suc m.consecutive_503 } in
    if leb route_503_threshold m1.consecutive_503
    then raise_issue calls_not_routed error true m1
    else m1

unfoldable pub note_offer_status : ℕ → Monitor → Monitor
unfolding refused clear
note_offer_status status m =
    if status == 503
    then (if m.registered then refused m else m)
    else if is_success status
    then clear calls_not_routed (record m { consecutive_503 = 0 })
    else record m { consecutive_503 = 0 }

-- What reaches the monitor of an entry.
pub data Input : Type 0 where
  event : GatewayEvent → Input
  offer_status : ℕ → Input

unfoldable pub take_input : Input → Monitor → Monitor
unfolding handle_event note_offer_status
take_input (event e) m = handle_event e m
take_input (offer_status status) m = note_offer_status status m

unfoldable pub run : List Input → Monitor → Monitor
unfolding take_input
run [] m = m
run (i ∷ inputs) m = run inputs (take_input i m)
