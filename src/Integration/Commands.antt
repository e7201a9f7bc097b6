-- ===== src/Integration/Commands.antt =====
-- custom_components/urmet/commands.py: the one path from Home Assistant to the gateway. A context of
-- Home Assistant is a number.
pub mod Provenance
use urmet_ha.Prelude.{
  ℕ, String, ◌≡◌, Bool, true, false, ◌||◌, Option, none, some, List, [], ◌∷◌, ◌++◌, ◌==◌, ltb,
  if◌then◌else◌, non_empty,
}
use text.Mathlib.Text.{◌==◌ as same_text}
use urmet_ha.Integration.Json.{Json, Fields, end, field, get, get_or, Conversions, str}
use urmet_ha.Integration.Models.{CallState, ringing, CallView, StateView, is_active, empty}
use urmet_ha.Integration.Client.Requests.{
  Got, got, connection_error, other_failure, GatewayResponse,
}

pub record PendingOpen : Type 0 where
  pub origin : String
  pub context : Option ℕ

pub data Method : Type 0 where
  post delete : Method

-- `DEFAULT_ORIGIN`
abbrev pub default_origin : String
default_origin = "service"

-- What is asked of the gateway: the method, the path and the body.
pub record Request : Type 0 where
  pub method : Method
  pub path : List String
  pub json : Option Fields

-- The runtime data of an entry that the commands use, and what was sent.
pub record Entry : Type 0 where
  pub pending_open : Option PendingOpen
  pub calls : Option (List CallView)
  pub sent : List Request

-- What a command comes to: an answer, or an exception of Home Assistant with what its text says.
pub data Command (A : Type 0) : Type 0 where
  done : A → Command A
  validation_error : Command A
  several_match : Command A
  gateway_error : String → String → Command A
  connection_failed : Command A
  failed : Command A

-- `stash_open_origin`
unfoldable pub stash_open_origin : String → Option ℕ → Entry → Entry
stash_open_origin origin context entry = record entry {
  pending_open = some (record { origin = origin; context = context });
}

-- `take_open`
unfoldable pub take_open : Entry → PendingOpen × Entry
take_open entry =
    let pending : PendingOpen = elim entry.pending_open [
      | none ↦ record { origin = default_origin; context = none }
      | some p ↦ p
    ] in
    (pending, record entry { pending_open = none })

-- An await of a request: what runs on the entry in the meantime, and what the request comes to.
pub record Waiting : Type 0 where
  pub meanwhile : Entry → Entry
  pub outcome : Got GatewayResponse

-- `_client(entry).async_request`
unfoldable pub request :
    Method → List String → Option Fields → Waiting → Entry → Got GatewayResponse × Entry
request method path json w entry =
    let asked = record entry {
      sent = entry.sent ++ record { method = method; path = path; json = json } ∷ [];
    } in
    (w.outcome, w.meanwhile asked)

-- `_OPEN_PATHS`
unfoldable pub open_path : String → Option (List String)
open_path actuator =
    if same_text actuator "door"
    then some ("api" ∷ "door" ∷ "open" ∷ [])
    else if same_text actuator "gate"
    then some ("api" ∷ "gate" ∷ "open" ∷ [])
    else none

is_204 : Got GatewayResponse → Command Bool
is_204 (got resp) = done (resp.status == 204)
is_204 connection_error = connection_failed
is_204 other_failure = failed

-- `async_open` on the path of the actuator.
unfoldable pub open_by :
    Option (List String) → String → Option ℕ → Waiting → Entry → Command Bool × Entry
unfolding stash_open_origin request is_204
open_by none origin context w entry = (validation_error, entry)
open_by (some path) origin context w entry =
    let r = request post path none w (stash_open_origin origin context entry) in (is_204 r.0, r.1)

unfoldable pub async_open : String → String → Option ℕ → Waiting → Entry → Command Bool × Entry
unfolding open_path open_by
async_open actuator origin context w entry = open_by (open_path actuator) origin context w entry

-- `_calls`
unfoldable pub calls_of : Entry → List CallView
calls_of entry = elim entry.calls [ none ↦ [] | some calls ↦ calls ]

is_ringing : CallState → Bool
is_ringing ringing = true
is_ringing _ = false

-- The ids that `_sole_call` matches, for the ringing dialogs.
unfoldable pub ringing_ids : List CallView → List String
unfolding is_ringing
ringing_ids [] = []
ringing_ids (c ∷ calls) =
    let rest = ringing_ids calls in if is_ringing c.state then c.id ∷ rest else rest

-- `_sole_call(entry, (CallState.RINGING,), msg)`
unfoldable pub sole_call : List String → Command String
sole_call [] = validation_error
sole_call (id ∷ []) = done id
sole_call (id ∷ j ∷ ids) = several_match

-- `_first_active_call`
unfoldable pub first_active_call : List CallView → Option String
unfolding is_active
first_active_call [] = none
first_active_call (c ∷ calls) =
    let rest = first_active_call calls in if is_active c.state then some c.id else rest

-- `call_id or …`
unfoldable pub named : Option String → Option String
named none = none
named (some id) = if non_empty id then some id else none

module _ (py : Conversions) (returned : ℕ → String) where
  -- `_raise_for_status`, with the text of a status
  unfoldable pub raise_for_status : GatewayResponse → Command (Unit {0})
  unfolding get_or str
  raise_for_status resp =
      if ltb resp.status 400
      then done tt
      else gateway_error (str py (get_or (Json.text "GatewayError") "error" resp.body))
          (str py (get_or (Json.text (returned resp.status)) "detail" resp.body))

  checked : Got GatewayResponse → Command (Unit {0})
  unfolding raise_for_status
  checked (got resp) = raise_for_status resp
  checked connection_error = connection_failed
  checked other_failure = failed

  answer_target : Command String → Waiting → Entry → Command (Unit {0}) × Entry
  unfolding checked request
  answer_target (done id) w entry =
      let r = request post ("api" ∷ "call" ∷ id ∷ "answer" ∷ []) none w entry in (checked r.0, r.1)
  answer_target several_match w entry = (several_match, entry)
  answer_target _ w entry = (validation_error, entry)

  unfoldable pub async_answer : Option String → Waiting → Entry → Command (Unit {0}) × Entry
  unfolding answer_target named sole_call ringing_ids calls_of
  async_answer call_id w entry =
      let target : Command String = elim (named call_id) [
        | none ↦ sole_call (ringing_ids (calls_of entry))
        | some id ↦ done id
      ] in
      answer_target target w entry

  unfoldable pub async_hang_up : Option String → Waiting → Entry → Command (Unit {0}) × Entry
  unfolding checked request named first_active_call calls_of
  async_hang_up call_id w entry =
      let target : Option String = elim (named call_id) [
        | none ↦ first_active_call (calls_of entry)
        | some id ↦ some id
      ] in
      elim target [
        | none ↦ (done tt, entry)
        | some id ↦
            let r = request delete ("api" ∷ "call" ∷ id ∷ []) none w entry in (checked r.0, r.1)
      ]

  looked : Got GatewayResponse → Command String
  unfolding raise_for_status get_or str
  looked (got resp) =
      let id = done (str py (get_or empty "call_id" resp.body)) in
      let raised_ : Command String = elim (raise_for_status resp) [
        | gateway_error name detail ↦ gateway_error name detail
        | _ ↦ id
      ] in
      if resp.status == 201 then id else raised_
  looked connection_error = connection_failed
  looked other_failure = failed

  unfoldable pub async_look : Bool → Waiting → Entry → Command String × Entry
  unfolding looked request
  async_look want_video w entry =
      let r =
        request post ("api" ∷ "call" ∷ []) (some (field "want_video" (Json.boolean want_video) end))
          w entry in
      (looked r.0, r.1)

  unfoldable pub async_set_microphone : Bool → Waiting → Entry → Command (Unit {0}) × Entry
  unfolding checked request
  async_set_microphone muted w entry =
      let r =
        request post ("api" ∷ "mic" ∷ []) (some (field "muted" (Json.boolean muted) end)) w entry in
      (checked r.0, r.1)
