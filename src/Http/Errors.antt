-- ===== src/Http/Errors.antt =====
-- addon/urmet-gateway/urmet_gateway/http/errors.py and the body of rest.py's requests: which status
-- carries which failure. Texts are kept where the code reads them.
pub mod Statuses
use urmet_ha.Prelude.{
  ℕ, ◌≡◌, String, Bool, true, false, Option, none, some, List, [], ◌∷◌, ◌||◌, ◌==◌, if◌then◌else◌,
  contains,
}
use urmet_ha.Domain.Errors
use urmet_ha.Domain.Errors.{ErrorType, class_code}

-- `isinstance` of an SDK error with an SDK class is the SDK's: a parameter, with what errors.py says
-- of that hierarchy. A class is its own instance; the two refinements of a call error are call
-- errors; and no class that the table lists is an instance of one that it lists before it; nor is
-- one of the two root classes an instance of a class below it.
pub record SdkClasses : Type 0 where
  pub is_a : ErrorType → ErrorType → Bool
  pub own : (e : ErrorType) → is_a e e ≡ true
  pub not_opened : is_a Errors.open_not_acknowledged Errors.call_error ≡ true
  pub voice_only : is_a Errors.no_video_offered Errors.call_error ≡ true
  pub no_video_apart : is_a Errors.no_video_offered Errors.open_not_acknowledged ≡ false
  pub unregistered_apart :
      (is_a Errors.not_registered Errors.open_not_acknowledged ≡ false)
      × (is_a Errors.not_registered Errors.no_video_offered ≡ false)
  pub registration_apart :
      (is_a Errors.registration_error Errors.open_not_acknowledged ≡ false)
      × (is_a Errors.registration_error Errors.no_video_offered ≡ false)
      × (is_a Errors.registration_error Errors.not_registered ≡ false)
  pub call_apart :
      (is_a Errors.call_error Errors.open_not_acknowledged ≡ false)
      × (is_a Errors.call_error Errors.no_video_offered ≡ false)
      × (is_a Errors.call_error Errors.not_registered ≡ false)
      × (is_a Errors.call_error Errors.registration_error ≡ false)
  pub roots_apart :
      (t : ErrorType)
      → contains (class_code t) (2 ∷ 3 ∷ 4 ∷ 5 ∷ 6 ∷ []) ≡ true
      → (is_a Errors.urmet_error t ≡ false) × (is_a Errors.sip_error t ≡ false)

-- The SDK's classes have the numbers up to 6, the gateway's own 7 to 21.
abbrev pub is_sdk : ErrorType → Bool
is_sdk e = contains (class_code e) (0 ∷ 1 ∷ 2 ∷ 3 ∷ 4 ∷ 5 ∷ 6 ∷ [])

abbrev pub is_gateway : ErrorType → Bool
is_gateway e =
    contains (class_code e)
      (7 ∷ 8 ∷ 9 ∷ 10 ∷ 11 ∷ 12 ∷ 13 ∷ 14 ∷ 15 ∷ 16 ∷ 17 ∷ 18 ∷ 19 ∷ 20 ∷ 21 ∷ [])

-- The two gateway errors that are call errors too.
abbrev pub is_arm_error : ErrorType → Bool
is_arm_error e = contains (class_code e) (16 ∷ 17 ∷ [])

abbrev pub unforeseen_status : ℕ
unforeseen_status = 500

-- `STATUS_TABLE`
abbrev pub status_table : List (ErrorType × ℕ)
status_table =
    (Errors.open_not_acknowledged, 502)
    ∷ (Errors.no_video_offered, 409)
    ∷ (Errors.not_registered, 409)
    ∷ (Errors.registration_error, 502)
    ∷ (Errors.call_error, 502)
    ∷ (Errors.unknown_call, 404)
    ∷ (Errors.no_streaming_call, 409)
    ∷ (Errors.media_unavailable, 503)
    ∷ (Errors.malformed_body, 400)
    ∷ []

module _ (sdk : SdkClasses) where
  -- `isinstance(error, error_type)`, from the bases in domain/errors.py.
  unfoldable pub is_instance : ErrorType → ErrorType → Bool
  is_instance e t =
      if is_sdk e
      then (if is_sdk t then sdk.is_a e t else false)
      else (class_code e == class_code t
          || (if is_gateway e then class_code t == 7 else false)
          || (if is_arm_error e
              then (if is_sdk t then sdk.is_a Errors.call_error t else false)
              else false))

  unfoldable pub first_status : List (ErrorType × ℕ) → ErrorType → ℕ
  unfolding is_instance
  first_status [] e = unforeseen_status
  first_status ((t, status) ∷ table) e =
      let rest = first_status table e in if is_instance e t then status else rest

  -- `status_for`
  unfoldable pub status_for : ErrorType → ℕ
  unfolding first_status
  status_for e = first_status status_table e

-- What a handler comes to: an answer of its own, aiohttp's answer as an exception, or an error.
pub data Handled : Type 0 where
  answers : ℕ → Handled
  http_exception : ℕ → Handled
  raises : ErrorType → Handled

-- `error_middleware`: the status that goes out, or aiohttp's exception, which passes.
unfoldable pub error_middleware : SdkClasses → Handled → Handled
unfolding status_for
error_middleware sdk (answers status) = answers status
error_middleware sdk (http_exception status) = http_exception status
error_middleware sdk (raises e) = answers (status_for sdk e)

-- What `json.loads` makes of a body: an object, another value, or a ValueError; code of Python.
pub data Loaded (J : Type 0) : Type 0 where
  object : J → Loaded J
  other_value : Loaded J
  value_error : Loaded J

-- `_parse`, with Python's blank test and JSON and pydantic's validation as parameters.
unfoldable pub parse :
    {R J M : Type 0}
    → (is_blank : R → Bool) → (loads : R → Loaded J) → (nothing : J) → (validate : J → Option M) → R
    → Errors.Outcome M
parse is_blank loads nothing validate raw =
    let read = if is_blank raw then object nothing else loads raw in
    elim read [
      | value_error ↦ Errors.raised Errors.malformed_body
      | other_value ↦ Errors.raised Errors.malformed_body
      | object payload ↦ elim (validate payload) [
        | none ↦ Errors.raised Errors.malformed_body
        | some model ↦ Errors.ok model
      ]
    ]
