-- ===== src/Media/Session.antt =====
-- addon/urmet-gateway/urmet_gateway/media/session.py: one browser's view of one call. What each
-- await of `aclose` comes to, and what the loop does with the session meanwhile, are arguments. The
-- picture is read through what SessionVideo answers of it.
pub mod View
pub mod Video
pub mod Answering
pub mod Acts
pub mod Ending
mod Examples
use urmet_ha.Prelude.{
  ℕ, String, Bool, true, false, Option, none, some, List, [], ◌∷◌, ◌++◌, ◌*◌, ◌/◌, if◌then◌else◌,
  or_else, non_empty,
}
use urmet_ha.Domain.{
  SessionState, opened, waiting, degraded, closed, VideoFlow, AudioFlow, SessionView,
}
use urmet_ha.Domain.Errors.{Outcome, ok, raised}
use urmet_ha.Media.Audio.Bridge.{AudioBridge, Timings, p99}
use urmet_ha.Media.Audio.Bridge as Bridge

-- What SessionVideo answers: whether a first picture is still asked for, the size that is encoded,
-- why there is none, and the counts of the track.
pub record Picture : Type 0 where
  pub waiting : Bool
  pub geometry : Option (ℕ × ℕ)
  pub reason : String
  pub sent : ℕ
  pub dropped : ℕ

-- What `aclose` does, in the order in which it did it.
pub data Step : Type 0 where
  stops_uplink closes_picture detaches_audio closes_bridge closes_peer : Step
  tells : String → Step

pub record Session : Type 0 where
  pub id : ℕ
  pub call_id : ℕ
  pub bridge : Option AudioBridge
  pub uplink : Bool
  pub closed : Bool
  pub reason : String
  pub connection : String
  pub picture : Picture
  pub steps : List Step

-- One measurement: the times in thousandths of the unit of the timings.
pub record AudioMeasurement : Type 0 where
  pub received : ℕ
  pub supplied : ℕ
  pub underruns : ℕ
  pub dropped_downlink : ℕ
  pub dropped_uplink : ℕ
  pub unreachable_loop : ℕ
  pub packets_delivered : ℕ
  pub partial_frames : ℕ
  pub stop_reason : String
  pub max_callback : ℕ
  pub p99_callback : ℕ
  pub budget : ℕ

abbrev pub frame_time_ms : ℕ
frame_time_ms = 20

-- `measure_audio_bridge`, the budget a tenth of the frame's time.
unfoldable pub measure_audio_bridge : AudioBridge → AudioMeasurement
measure_audio_bridge b = record {
  received = b.received;
  supplied = b.supplied;
  underruns = b.underruns;
  dropped_downlink = b.dropped_downlink;
  dropped_uplink = b.dropped_uplink;
  unreachable_loop = b.unreachable_loop;
  packets_delivered = b.packets_delivered;
  partial_frames = b.partial_frames;
  stop_reason = b.stop_reason;
  max_callback = b.timings.max * 1000;
  p99_callback = p99 b.timings * 1000;
  budget = frame_time_ms / 10;
}

-- `_state`
unfoldable pub state_of : Option AudioMeasurement → Session → SessionState
state_of audio s =
    let voice_gone : Bool = elim audio [ none ↦ false | some a ↦ non_empty a.stop_reason ] in
    if s.closed
    then closed
    else (if voice_gone
        then degraded
        else (if s.picture.waiting
            then waiting
            else elim s.picture.geometry [ none ↦ degraded | some _ ↦ opened ]))

-- `_voice_lost`
unfoldable pub voice_lost : Option AudioMeasurement → String
voice_lost none = String.[]
voice_lost (some a) = a.stop_reason

-- `_video_flow`
unfoldable pub video_flow : Picture → Option VideoFlow
video_flow p = elim p.geometry [
  | none ↦ none
  | some (w, h) ↦
      some (record { width = w; height = h; packets_sent = p.sent; packets_dropped = p.dropped })
]

-- `_audio_flow`
unfoldable pub audio_flow : AudioMeasurement → AudioFlow
audio_flow a = record {
  from_doorphone = a.received;
  to_browser = a.packets_delivered;
  to_doorphone = a.supplied;
  silence_sent = a.underruns;
  partial_from_doorphone = a.partial_frames;
  dropped_from_doorphone = a.dropped_downlink;
  dropped_to_doorphone = a.dropped_uplink;
  max_callback = a.max_callback;
  budget = a.budget;
}

unfoldable pub measured : Option AudioBridge → Option AudioMeasurement
unfolding measure_audio_bridge
measured none = none
measured (some b) = some (measure_audio_bridge b)

unfoldable pub flow_of : Option AudioMeasurement → Option AudioFlow
unfolding audio_flow
flow_of none = none
flow_of (some a) = some (audio_flow a)

-- `view`
unfoldable pub view : Session → SessionView
unfolding state_of voice_lost video_flow measured flow_of
view s =
    let audio = measured s.bridge in
    record {
      session_id = s.id;
      call_id = s.call_id;
      state = state_of audio s;
      connection = s.connection;
      reason = or_else s.reason (or_else s.picture.reason (voice_lost audio));
      video = video_flow s.picture;
      audio = flow_of audio;
    }

abbrev pub Ran : Type 0
Ran = Outcome (Unit {0}) × Session

-- How one await of `aclose` ends, and what the loop did during it.
pub record Waited : Type 0 where
  pub meanwhile : Session → Session
  pub outcome : Outcome (Unit {0})

unfoldable pub note : Step → Session → Session
note step s = record s { steps = s.steps ++ step ∷ [] }

-- One step and what follows it, if it did not raise.
unfoldable pub awaited : Step → Waited → (Session → Ran) → Session → Ran
unfolding note
awaited step w next s =
    let after = w.meanwhile (note step s) in
    elim w.outcome [ raised e ↦ (raised e, after) | ok _ ↦ next after ]

unfoldable pub close_bridge : Session → Session
unfolding note
close_bridge s = elim s.bridge [
  | none ↦ s
  | some b ↦ note closes_bridge (record s { bridge = some (Bridge.close b) })
]

-- `aclose`: the uplink, the picture, the voice, the peer connection, and then the layer above.
unfoldable pub aclose : String → (uplink picture audio peer : Waited) → Session → Ran
unfolding awaited close_bridge note
aclose reason uplink picture audio peer s =
    let begun : Session = record s { closed = true; reason = reason; uplink = false } in
    let told : Session → Ran = λ t. (ok tt, note (tells reason) t) in
    let unplugged : Session → Ran =
      awaited closes_picture picture
        (awaited detaches_audio audio (λ t. awaited closes_peer peer told (close_bridge t))) in
    if s.closed
    then (ok tt, s)
    else (if s.uplink then awaited stops_uplink uplink unplugged begun else unplugged begun)
