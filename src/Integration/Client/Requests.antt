-- ===== src/Integration/Client/Requests.antt =====
-- client.py: what a request comes to, from what aiohttp makes of it.
use urmet_ha.Prelude.{ℕ, String, ◌≡◌, refl, true, Option, some, leb, if◌then◌else◌, non_empty}
use urmet_ha.Domain.Errors.{Outcome, ok, raised}
use urmet_ha.Integration.Json.{Json, Fields, end, get, Conversions}
use urmet_ha.Integration.Models.{StateView, state_from}

-- A client error or a timeout, or a status and the bytes of a body.
pub data Fetched : Type 0 where
  unreachable : Fetched
  replied : (status : ℕ) (raw : String) → Fetched

-- What `resp.json()` comes to: a ContentTypeError, a ValueError or the value.
pub data Body : Type 0 where
  wrong_type not_json : Body
  value : Json → Body

pub data Reply : Type 0 where
  no_reply : Reply
  reply : (status : ℕ) (body : Body) → Reply

-- A GatewayConnectionError, or an exception that nothing here turns into one.
pub data Got {ℓ} (A : Type ℓ) : Type ℓ where
  got : A → Got A
  connection_error : Got A
  other_failure : Got A

pub record GatewayResponse : Type 0 where
  pub status : ℕ
  pub body : Fields

object_or_empty : Option Json → Fields
object_or_empty (some (Json.object fields)) = fields
object_or_empty _ = end

-- `async_request`, with `json.loads`: a body that is no JSON object counts as an empty one.
unfoldable pub async_request : (String → Option Json) → Fetched → Got GatewayResponse
unfolding object_or_empty
async_request loads unreachable = connection_error
async_request loads (replied status raw) =
    got (record {
      status = status;
      body = if non_empty raw then object_or_empty (loads raw) else end;
    })

decoded : Body → Got Fields
decoded wrong_type = connection_error
decoded not_json = other_failure
decoded (value (Json.object fields)) = got fields
decoded (value other) = connection_error

-- `_get_json`; `raise_for_status` raises from 400 on.
unfoldable pub get_json : Reply → Got Fields
unfolding decoded
get_json no_reply = connection_error
get_json (reply status body) = if leb 400 status then connection_error else decoded body

-- `body.get("ok") is not True`
says_ok : Option Json → Got (Unit {0})
says_ok (some (Json.boolean true)) = got tt
says_ok _ = connection_error

unfoldable pub async_check_health : Reply → Got (Unit {0})
unfolding get_json says_ok get
async_check_health answer = elim (get_json answer) [
  | got body ↦ says_ok (get "ok" body)
  | connection_error ↦ connection_error
  | other_failure ↦ other_failure
]

lifted : Outcome StateView → Got StateView
lifted (ok view) = got view
lifted (raised e) = other_failure

-- `async_get_state`
unfoldable pub async_get_state : Conversions → Reply → Got StateView
unfolding get_json lifted state_from
async_get_state py answer = elim (get_json answer) [
  | got body ↦ lifted (state_from py body)
  | connection_error ↦ connection_error
  | other_failure ↦ other_failure
]

-- The state that the gateway answers with is the one that is read.
pub async_get_state-read :
    (py : Conversions) (fields : Fields) (view : StateView)
    → state_from py fields ≡ ok view
    → async_get_state py (reply 200 (value (Json.object fields))) ≡ got view
unfolding async_get_state get_json decoded lifted
async_get_state-read py fields view read = rw read refl
