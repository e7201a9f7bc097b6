-- ===== src/Http/Errors/Statuses.antt =====
-- http/errors.py: the order of the table shadows no entry.
use urmet_ha.Prelude.{ℕ, ◌≡◌, refl, arith}
use urmet_ha.Domain.Errors
use urmet_ha.Domain.Errors.{ErrorType}
use urmet_ha.Http.Errors.{
  SdkClasses, status_for, is_instance, first_status, answers, raises, error_middleware,
}

-- What each class means on the wire: a refused command of the SDK is 502, a state that forbids it
-- 409, an unknown dialog 404, no media 503, a malformed body 400, and what nobody foresaw 500. A
-- refinement has the status of its own, and an arm that was refused that of a call error.
abbrev pub meaning : ErrorType → ℕ
meaning Errors.urmet_error = 500
meaning Errors.sip_error = 500
meaning Errors.registration_error = 502
meaning Errors.not_registered = 409
meaning Errors.call_error = 502
meaning Errors.no_video_offered = 409
meaning Errors.open_not_acknowledged = 502
meaning Errors.gateway_error = 500
meaning Errors.unknown_call = 404
meaning Errors.no_streaming_call = 409
meaning Errors.media_unavailable = 503
meaning Errors.malformed_body = 400
meaning Errors.worker_stopped = 500
meaning Errors.no_client = 500
meaning Errors.event_bus_closed = 500
meaning Errors.downlink_not_started = 500
meaning Errors.stale_arm = 502
meaning Errors.downlink_not_draining = 502
meaning Errors.h264_unavailable = 500
meaning Errors.pcma_unavailable = 500
meaning Errors.audio_format_mismatch = 500
meaning Errors.uplink_format = 500
meaning Errors.os_error = 500
meaning Errors.other_error = 500

-- Whatever a handler raises is answered with the status that its class means, so that the order of
-- the table shadows no entry; the classes of the SDK may stand in any hierarchy that keeps the laws.
pub error_middleware-meaning :
    (sdk : SdkClasses) (e : ErrorType) → error_middleware sdk (raises e) ≡ answers (meaning e)
unfolding error_middleware status_for first_status is_instance
error_middleware-meaning sdk Errors.urmet_error = ground (
  arith,
  sdk.roots_apart Errors.open_not_acknowledged refl,
  sdk.roots_apart Errors.no_video_offered refl,
  sdk.roots_apart Errors.not_registered refl,
  sdk.roots_apart Errors.registration_error refl,
  sdk.roots_apart Errors.call_error refl,
)
error_middleware-meaning sdk Errors.sip_error = ground (
  arith,
  sdk.roots_apart Errors.open_not_acknowledged refl,
  sdk.roots_apart Errors.no_video_offered refl,
  sdk.roots_apart Errors.not_registered refl,
  sdk.roots_apart Errors.registration_error refl,
  sdk.roots_apart Errors.call_error refl,
)
error_middleware-meaning sdk Errors.registration_error =
    ground (arith, sdk.registration_apart, sdk.own Errors.registration_error)
error_middleware-meaning sdk Errors.not_registered =
    ground (arith, sdk.unregistered_apart, sdk.own Errors.not_registered)
error_middleware-meaning sdk Errors.call_error =
    ground (arith, sdk.call_apart, sdk.own Errors.call_error)
error_middleware-meaning sdk Errors.no_video_offered =
    ground (arith, sdk.no_video_apart, sdk.own Errors.no_video_offered)
error_middleware-meaning sdk Errors.open_not_acknowledged =
    ground (arith, sdk.own Errors.open_not_acknowledged)
error_middleware-meaning sdk Errors.gateway_error = refl
error_middleware-meaning sdk Errors.unknown_call = refl
error_middleware-meaning sdk Errors.no_streaming_call = refl
error_middleware-meaning sdk Errors.media_unavailable = refl
error_middleware-meaning sdk Errors.malformed_body = refl
error_middleware-meaning sdk Errors.worker_stopped = refl
error_middleware-meaning sdk Errors.no_client = refl
error_middleware-meaning sdk Errors.event_bus_closed = refl
error_middleware-meaning sdk Errors.downlink_not_started = refl
error_middleware-meaning sdk Errors.stale_arm =
    ground (arith, sdk.call_apart, sdk.own Errors.call_error)
error_middleware-meaning sdk Errors.downlink_not_draining =
    ground (arith, sdk.call_apart, sdk.own Errors.call_error)
error_middleware-meaning sdk Errors.h264_unavailable = refl
error_middleware-meaning sdk Errors.pcma_unavailable = refl
error_middleware-meaning sdk Errors.audio_format_mismatch = refl
error_middleware-meaning sdk Errors.uplink_format = refl
error_middleware-meaning sdk Errors.os_error = refl
error_middleware-meaning sdk Errors.other_error = refl
