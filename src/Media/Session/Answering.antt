-- ===== src/Media/Session/Answering.antt =====
-- addon/urmet-gateway/urmet_gateway/media/session.py: how a session is armed and answers an offer, and
-- what the browser and the picture report back to it; the codecs that media/track.py and
-- media/audio/g711.py pin. Each await has what it comes to, and what the loop does with the session
-- meanwhile; aiortc is what its calls come to.
pub mod Order
use urmet_ha.Prelude.{
  ℕ, String, Bool, true, false, ◌&&◌, ◌||◌, Option, none, some, List, [], ◌∷◌, ◌++◌, ◌==◌,
  if◌then◌else◌,
}
use text.Mathlib.Text.{◌==◌ as same_text}
use urmet_ha.Domain.Errors.{
  Outcome, ok, raised, audio_format_mismatch, h264_unavailable, pcma_unavailable,
}
use urmet_ha.Media.Audio.Bridge.{AudioBridge, audio_bridge}
use urmet_ha.Media.Session.{Session, Ran, Waited, aclose}

-- The SDK's description of PCM.
pub record AudioFormat : Type 0 where
  pub clock_rate : ℕ
  pub channels : ℕ
  pub frame_time_ms : ℕ
  pub bits_per_sample : ℕ

abbrev pub bridge_audio_format : AudioFormat
bridge_audio_format = record {
  clock_rate = 8000;
  channels = 1;
  frame_time_ms = 20;
  bits_per_sample = 16;
}

unfoldable pub same_format : AudioFormat → AudioFormat → Bool
same_format f g =
    f.clock_rate == g.clock_rate
    && f.channels == g.channels
    && f.frame_time_ms == g.frame_time_ms
    && f.bits_per_sample == g.bits_per_sample

-- What is asked of the tap, the picture and the peer connection, in order.
pub data Asked : Type 0 where
  attaches detaches arms_picture adds_picture adds_voice pins_h264 pins_pcma : Asked
  sets_remote : String → Asked
  creates_answer sets_local : Asked

-- A session while it answers.
pub record Leg : Type 0 where
  pub session : Session
  pub asked : List Asked

abbrev pub Came : Type 0 → Type 0
Came A = Outcome A × Leg

-- A call that was awaited: what the loop did with the session meanwhile, and what it came to.
pub record Got (A : Type 0) : Type 0 where
  pub meanwhile : Session → Session
  pub outcome : Outcome A

unfoldable pub put : Asked → Leg → Leg
put what l = record l { asked = l.asked ++ what ∷ [] }

unfoldable pub waits : {A B : Type 0} → Asked → Got A → (A → Leg → Came B) → Leg → Came B
unfolding put
waits what g next l =
    let back : Leg = record (put what l) { session = g.meanwhile l.session } in
    elim g.outcome [ raised e ↦ (raised e, back) | ok a ↦ next a back ]

-- A call of aiortc that is not awaited.
unfoldable pub calls : {B : Type 0} → Asked → Outcome (Unit {0}) → (Leg → Came B) → Leg → Came B
unfolding put
calls what out next l = elim out [ raised e ↦ (raised e, put what l) | ok _ ↦ next (put what l) ]

-- `_arm_audio`, with what the clock thread and the loop put into the bridge during the attachment.
unfoldable pub arm_audio :
    {B : Type 0}
    → (backlog : ℕ) → (filled : AudioBridge → AudioBridge) → Got AudioFormat
    → (detaching : Got (Unit {0})) → (Leg → Came B)
    → Leg
    → Came B
unfolding waits same_format
arm_audio backlog filled attaching detaching next = waits attaches attaching (λ reported l.
    if same_format reported bridge_audio_format
    then next
        (record l { session = record l.session { bridge = some (filled (audio_bridge backlog)) } })
    else waits detaches detaching (λ _ l'. (raised audio_format_mismatch, l')) l)

-- What `pin_h264` and `pin_pcma` raise, by the types that this aiortc publishes.
unfoldable pub publishes : String → List String → Bool
publishes mime [] = false
publishes mime (m ∷ ms) = same_text m mime || publishes mime ms

unfoldable pub pin_h264 : List String → Outcome (Unit {0})
unfolding publishes
pin_h264 codecs = if publishes "video/H264" codecs then ok tt else raised h264_unavailable

unfoldable pub pin_pcma : List String → Outcome (Unit {0})
unfolding publishes
pin_pcma codecs = if publishes "audio/PCMA" codecs then ok tt else raised pcma_unavailable

-- `_require_bridge`
unfoldable pub require_bridge : {B : Type 0} → (Leg → Came B) → Leg → Came B
require_bridge next l = elim l.session.bridge [
  | none ↦ (raised audio_format_mismatch, l)
  | some _ ↦ next l
]

module _ (backlog : ℕ) (filled : AudioBridge → AudioBridge)
    (video_codecs audio_codecs : List String) where
  -- `answer`, with what each of its calls comes to.
  unfoldable pub answer :
      (attaching : Got AudioFormat)
      → (detaching arming : Got (Unit {0})) → (adding_picture adding_voice : Outcome (Unit {0}))
      → (setting_remote creating : Got (Unit {0})) → (setting_local : Got String) → (sdp : String)
      → Leg
      → Came String
  unfolding arm_audio waits calls require_bridge pin_h264 pin_pcma
  answer attaching detaching arming adding_picture adding_voice setting_remote creating
        setting_local sdp =
      arm_audio backlog filled attaching detaching (
        waits arms_picture arming (λ _. calls adds_picture adding_picture (
          require_bridge (
            calls adds_voice adding_voice (
              calls pins_h264 (pin_h264 video_codecs) (
                calls pins_pcma (pin_pcma audio_codecs) (
                  waits (sets_remote sdp) setting_remote (λ _.
                    waits creates_answer creating
                      (λ _. waits sets_local setting_local (λ answered l. (ok answered, l)))))))))))

-- `_browser_track`, with the kind of the track
unfoldable pub browser_track : String → Session → Session
browser_track kind s = elim s.bridge [
  | none ↦ s
  | some _ ↦ record s { uplink = if same_text kind "audio" then true else s.uplink }
]

-- `DEAD_CONNECTIONS`
abbrev pub is_dead : String → Bool
is_dead state = same_text state "failed" || same_text state "closed"

-- `_connection_changed`, to a state that is said in the reason
unfoldable pub connection_changed :
    String → (reason_of : String → String) → (uplink picture audio peer : Waited) → Session → Ran
connection_changed state reason_of uplink picture audio peer s =
    let moved : Session = record s { connection = state } in
    if is_dead state
    then aclose (reason_of state) uplink picture audio peer moved
    else (ok tt, moved)

-- `_picture_lost` and `_picture_ready`: what the layer above is told, if anything.
unfoldable pub picture_lost : String → Session → Option String
picture_lost reason s = if s.closed then none else some reason

unfoldable pub picture_ready : Session → Option String
picture_ready s = if s.closed then none else some String.[]
