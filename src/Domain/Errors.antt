-- ===== src/Domain/Errors.antt =====
-- addon/urmet-gateway/urmet_gateway/domain/errors.py: every class that the gateway can raise, the
-- SDK's among them, and what a fallible call comes to. Messages are kept where code reads them.
use urmet_ha.Prelude.{ℕ, ◌≡◌, refl, ◌⊎◌, inl, inr}

pub data ErrorType : Type 0 where
  -- The SDK's.
  urmet_error sip_error registration_error not_registered : ErrorType
  call_error no_video_offered open_not_acknowledged : ErrorType
  -- The gateway's.
  gateway_error unknown_call no_streaming_call media_unavailable malformed_body : ErrorType
  worker_stopped no_client event_bus_closed downlink_not_started stale_arm : ErrorType
  downlink_not_draining h264_unavailable pcma_unavailable audio_format_mismatch : ErrorType
  uplink_format : ErrorType
  -- Any other exception.
  os_error other_error : ErrorType

-- A number for each class.
abbrev pub class_code : ErrorType → ℕ
class_code urmet_error = 0
class_code sip_error = 1
class_code registration_error = 2
class_code not_registered = 3
class_code call_error = 4
class_code no_video_offered = 5
class_code open_not_acknowledged = 6
class_code gateway_error = 7
class_code unknown_call = 8
class_code no_streaming_call = 9
class_code media_unavailable = 10
class_code malformed_body = 11
class_code worker_stopped = 12
class_code no_client = 13
class_code event_bus_closed = 14
class_code downlink_not_started = 15
class_code stale_arm = 16
class_code downlink_not_draining = 17
class_code h264_unavailable = 18
class_code pcma_unavailable = 19
class_code audio_format_mismatch = 20
class_code uplink_format = 21
class_code os_error = 22
class_code other_error = 23

pub data Outcome {ℓ} (A : Type ℓ) : Type ℓ where
  ok : A → Outcome A
  raised : ErrorType → Outcome A

infixl 5 ◌>>=◌
abbrev pub ◌>>=◌ {ℓ κ} : {A : Type ℓ} {B : Type κ} → Outcome A → (A → Outcome B) → Outcome B
ok a >>= f = f a
raised e >>= f = raised e

pub Outcome-cases {ℓ} :
    {A : Type ℓ} (r : Outcome A) → ((a : A) × (r ≡ ok a)) ⊎ ((e : ErrorType) × (r ≡ raised e))
Outcome-cases (ok a) = inl (a, refl)
Outcome-cases (raised e) = inr (e, refl)
