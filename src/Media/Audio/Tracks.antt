-- ===== src/Media/Audio/Tracks.antt =====
-- addon/urmet-gateway/urmet_gateway/media/audio/tracks.py: the two ends that aiortc drives. A byte
-- is a number below 256. What the loop did with the bridge during an await comes with the answer.
pub mod Timeline
pub mod Cutting
mod Examples
use urmet_ha.Prelude.{
  ℕ, suc, zero, ◌+◌, ◌*◌, String, Bool, true, false, not, Option, none, some, List, [], ◌∷◌, ◌++◌,
  ◌==◌, ◌&&◌, leb, non_empty, if◌then◌else◌, length, take, drop, or_else,
}
use text.Mathlib.Text
use Prim.Native.String
use urmet_ha.Domain.Errors.{Outcome, ok, raised, uplink_format}
use urmet_ha.Media.Audio.Bridge.{AudioBridge, delivered, partial_frame, stopped, push_uplink}
use urmet_ha.Media.Audio.G711.{to_alaw}

abbrev pub bytes_per_sample : ℕ
bytes_per_sample = 2

-- A packet for aiortc, its time in samples.
pub record Packet : Type 0 where
  pub pts : ℕ
  pub payload : List ℕ

pub record AudioTrack : Type 0 where
  pub live : Bool
  pub timestamp : ℕ
  pub bridge : AudioBridge

-- One await of `next_downlink`: what became of the bridge, and what it answered; or it raised.
pub data Awaited : Type 0 where
  answers : (AudioBridge → AudioBridge) → Option (List ℕ) → Awaited
  fails : (AudioBridge → AudioBridge) → String → Awaited

-- How `recv` ends; it waits while `next_downlink` has not answered.
pub data Recv : Type 0 where
  hands : Packet → Recv
  ends : String → Recv
  failed : String → Recv
  waits : Recv

abbrev pub track_ended : String
track_ended = "the doorphone audio track has ended"

abbrev pub bridge_closed : String
bridge_closed = "the doorphone audio bridge was closed"

abbrev pub failure_prefix : String
failure_prefix = "the doorphone audio track failed: "

-- A frame that is not whole samples is counted.
unfoldable pub count_partial : List ℕ → AudioBridge → AudioBridge
count_partial pcm b =
    if length (to_alaw pcm) * bytes_per_sample == length pcm then b else partial_frame b

-- The loop of `_next_packet`, over the answers of the bridge: a frame without a whole sample is
-- passed over.
unfoldable pub next_packet : List Awaited → AudioTrack → AudioTrack × Recv
unfolding count_partial
next_packet [] t = (t, waits)
next_packet (fails meanwhile reason ∷ later) t =
    (record t { bridge = meanwhile t.bridge }, failed reason)
next_packet (answers meanwhile none ∷ later) t =
    (record t { bridge = meanwhile t.bridge }, ends bridge_closed)
next_packet (answers meanwhile (some pcm) ∷ later) t =
    let counted : AudioTrack = record t { bridge = count_partial pcm (meanwhile t.bridge) } in
    let rest = next_packet later counted in
    elim (to_alaw pcm) [
      | [] ↦ rest
      | sample ∷ samples ↦ (
        record counted { timestamp = t.timestamp + length (sample ∷ samples) },
        hands (record { pts = t.timestamp; payload = sample ∷ samples }),
      )
    ]

-- What `recv` writes on the bridge for each ending.
unfoldable pub reported : AudioTrack × Recv → AudioTrack × Recv
reported (t, hands p) = (record t { bridge = delivered t.bridge }, hands p)
reported (t, ends reason) = (record t { bridge = stopped reason t.bridge }, ends reason)
reported (t, failed reason) =
    (record t { bridge = stopped (String.◌++◌ failure_prefix reason) t.bridge }, failed reason)
reported (t, waits) = (t, waits)

-- `DoorphoneAudioTrack.recv`
unfoldable pub recv : List Awaited → AudioTrack → AudioTrack × Recv
unfolding next_packet reported
recv awaited t = reported (if t.live then next_packet awaited t else (t, ends track_ended))

-- What aiortc decoded: an audio frame, or anything else.
pub data Decoded : Type 0 where
  audio : (format layout : String) (sample_rate samples : ℕ) (plane : List ℕ) → Decoded
  other : Decoded

pub record Pump : Type 0 where
  pub clock_rate : ℕ
  pub frame_bytes : ℕ
  pub pending : List ℕ
  pub frames : ℕ
  pub bridge : AudioBridge

-- The loop that cuts whole frames off, on fuel: as many turns as there are bytes are enough.
unfoldable pub cut : ℕ → ℕ → List ℕ → List (List ℕ) × List ℕ
cut zero size pending = ([], pending)
cut (suc fuel) size pending =
    let rest = cut fuel size (drop size pending) in
    if leb size (length pending) then (take size pending ∷ rest.0, rest.1) else ([], pending)

unfoldable pub push_each : List (List ℕ) → AudioBridge → AudioBridge
push_each [] b = b
push_each (f ∷ fs) b = push_each fs (push_uplink f b)

-- `BrowserAudioPump._take`
unfoldable pub take_frame : Decoded → Pump → Outcome Pump
unfolding cut push_each
take_frame other p = raised uplink_format
take_frame (audio format layout sample_rate samples plane) p =
    if Text.◌==◌ format "s16" && Text.◌==◌ layout "mono" && sample_rate == p.clock_rate
    then (let pending = p.pending ++ take (samples * bytes_per_sample) plane in
        let (whole, rest) = cut (length pending) p.frame_bytes pending in
        ok (record p {
          pending = rest;
          frames = p.frames + length whole;
          bridge = push_each whole p.bridge;
        }))
    else raised uplink_format
