-- ===== src/Media/Session/Answering/Order.antt =====
-- session.py: an answer that is given has everything in place, in the order that aiortc needs.
use urmet_ha.Prelude.{
  ℕ, ◌≡◌, refl, ap, String, Bool, true, false, none, some, List, [], ◌∷◌, ◌++◌, if◌then◌else◌,
  arith,
}
use urmet_ha.Domain.Errors.{Outcome, ok, raised, audio_format_mismatch}
use urmet_ha.Media.Audio.Bridge.{AudioBridge, audio_bridge}
use urmet_ha.Media.Session.Answering.{
  AudioFormat, bridge_audio_format, same_format, Leg, Got, Came, Asked, waits, calls, put,
  arm_audio, require_bridge, publishes, pin_h264, pin_pcma, answer, attaches, detaches,
  arms_picture, adds_picture, adds_voice, pins_h264, pins_pcma, sets_remote, creates_answer,
  sets_local,
}

-- What of an answer holds if it was given.
abbrev pub IsGiven : Came String → (Leg → Type 0) → Type 0
IsGiven (ok _, l) P = P l
IsGiven (raised _, l) P = Unit {0}

-- Of what was asked so far, to an answer of which `Q` holds.
Leads : (Leg → Came String) → List Asked → (Leg → Type 0) → Type 0
Leads f before Q = (l : Leg) → l.asked ≡ before → IsGiven (f l) Q

waits-Leads :
    {A : Type 0} (what : Asked) (g : Got A) (next : A → Leg → Came String) (before : List Asked)
    → (Q : Leg → Type 0) → ((a : A) → g.outcome ≡ ok a → Leads (next a) (before ++ what ∷ []) Q)
    → Leads (waits what g next) before Q
unfolding waits put Leads
waits-Leads {A} what g next before Q leads l h = go g.outcome refl
  where
    back : Leg
    back = record { session = g.meanwhile l.session; asked = l.asked ++ what ∷ [] }

    go :
        (o : Outcome A)
        → g.outcome ≡ o
        → IsGiven (elim o [ raised e ↦ (raised e, back) | ok a ↦ next a back ]) Q
    go (raised e) q = tt
    go (ok a) q = leads a q back (ap (λ as_. as_ ++ what ∷ []) h)

calls-Leads :
    (what : Asked) (out : Outcome (Unit {0})) (next : Leg → Came String) (before : List Asked)
    → (Q : Leg → Type 0) → (out ≡ ok tt → Leads next (before ++ what ∷ []) Q)
    → Leads (calls what out next) before Q
unfolding calls put Leads
calls-Leads what (raised e) next before Q leads l h = tt
calls-Leads what (ok tt) next before Q leads l h =
    leads refl (put what l) (ap (λ as_. as_ ++ what ∷ []) h)

require_bridge-Leads :
    (next : Leg → Came String) (before : List Asked) (Q : Leg → Type 0)
    → Leads next before Q
    → Leads (require_bridge next) before Q
unfolding require_bridge Leads
require_bridge-Leads next before Q leads l h =
    elim l.session.bridge
      as (λ b. IsGiven (elim b [ none ↦ (raised audio_format_mismatch, l) | some _ ↦ next l ]) Q) [
        | none ↦ tt
        | some b ↦ leads l h
      ]

arm_audio-Leads :
    (backlog : ℕ) (filled : AudioBridge → AudioBridge) (g : Got AudioFormat) (d : Got (Unit {0}))
    → (next : Leg → Came String) (Q : Leg → Type 0)
    → ((f : AudioFormat)
        → g.outcome ≡ ok f
        → same_format f bridge_audio_format ≡ true
        → Leads next (attaches ∷ []) Q)
    → Leads (arm_audio backlog filled g d next) [] Q
unfolding arm_audio Leads
arm_audio-Leads backlog filled g d next Q leads =
    waits-Leads attaches g
      (λ reported l.
        if same_format reported bridge_audio_format
        then next (record l {
          session = record l.session { bridge = some (filled (audio_bridge backlog)) };
        })
        else waits detaches d (λ _ l'. (raised audio_format_mismatch, l')) l)
      [] Q (λ f q l h. go f (leads f q) l h (same_format f bridge_audio_format) refl)
  where
    go :
        (f : AudioFormat)
        → (same_format f bridge_audio_format ≡ true → Leads next (attaches ∷ []) Q)
        → (l : Leg) → l.asked ≡ attaches ∷ []
        → (b : Bool) → same_format f bridge_audio_format ≡ b
        → IsGiven
            (if b
              then next (record l {
                session = record l.session { bridge = some (filled (audio_bridge backlog)) };
              })
              else waits detaches d (λ _ l'. (raised audio_format_mismatch, l')) l)
            Q
    go f then_ l h true q =
        then_ q
          (record l {
            session = record l.session { bridge = some (filled (audio_bridge backlog)) };
          })
          h
    go f then_ l h false q =
        waits-Leads detaches d (λ _ l'. (raised audio_format_mismatch, l')) (attaches ∷ []) Q
          (λ a r l' h'. tt) l h

pin_h264-publishes : (ms : List String) → pin_h264 ms ≡ ok tt → publishes "video/H264" ms ≡ true
unfolding pin_h264
pin_h264-publishes ms h = ground (arith, h)

pin_pcma-publishes : (ms : List String) → pin_pcma ms ≡ ok tt → publishes "audio/PCMA" ms ≡ true
unfolding pin_pcma
pin_pcma-publishes ms h = ground (arith, h)

-- Everything in place, in order.
abbrev pub IsOrdered :
    (video_codecs audio_codecs : List String) → Got AudioFormat → String → Leg → Type 0
IsOrdered video_codecs audio_codecs attaching sdp l =
    (l.asked
      ≡ attaches
        ∷ arms_picture
        ∷ adds_picture
        ∷ adds_voice
        ∷ pins_h264
        ∷ pins_pcma
        ∷ sets_remote sdp
        ∷ creates_answer
        ∷ sets_local
        ∷ [])
    × ((f : AudioFormat) × (attaching.outcome ≡ ok f) × (same_format f bridge_audio_format ≡ true))
    × (publishes "video/H264" video_codecs ≡ true)
    × (publishes "audio/PCMA" audio_codecs ≡ true)

answered-Leads :
    (text : String) (before : List Asked) (Q : Leg → Type 0)
    → ((l : Leg) → l.asked ≡ before → Q l)
    → Leads (λ l. (ok text, l)) before Q
unfolding Leads
answered-Leads text before Q leads l h = leads l h

answer-Leads :
    (backlog : ℕ) (filled : AudioBridge → AudioBridge) (video_codecs audio_codecs : List String)
    → (attaching : Got AudioFormat) (detaching arming : Got (Unit {0}))
    → (adding_picture adding_voice : Outcome (Unit {0})) (setting_remote creating : Got (Unit {0}))
    → (setting_local : Got String) (sdp : String)
    → Leads
        (answer backlog filled video_codecs audio_codecs attaching detaching arming adding_picture
          adding_voice setting_remote creating setting_local sdp)
        []
        (IsOrdered video_codecs audio_codecs attaching sdp)
unfolding answer
answer-Leads backlog filled video_codecs audio_codecs attaching detaching arming adding_picture
      adding_voice setting_remote creating setting_local sdp =
    arm_audio-Leads backlog filled attaching detaching _ _ (λ f is_f fits.
      waits-Leads arms_picture arming _ _ _ (λ _ _.
        calls-Leads adds_picture adding_picture _ _ _ (λ _. require_bridge-Leads _ _ _ (
          calls-Leads adds_voice adding_voice _ _ _ (λ _.
            calls-Leads pins_h264 (pin_h264 video_codecs) _ _ _ (λ p.
              calls-Leads pins_pcma (pin_pcma audio_codecs) _ _ _ (λ q.
                waits-Leads (sets_remote sdp) setting_remote _ _ _ (λ _ _.
                  waits-Leads creates_answer creating _ _ _ (λ _ _.
                    waits-Leads sets_local setting_local _ _ _ (λ text _.
                      answered-Leads text _ _ (λ l' r. (
                        r,
                        (f, is_f, fits),
                        pin_h264-publishes video_codecs p,
                        pin_pcma-publishes audio_codecs q,
                      ))))))))))))

-- An offer that is answered was answered over PCM of the one format that the bridge carries, with
-- codecs that this aiortc publishes, and in this order: the sink on the call, the pipeline, both
-- tracks on the connection, both preferences, and only then the offer, whatever the loop does with
-- the session at each await and whichever of the calls may raise.
pub answer-order :
    (backlog : ℕ) (filled : AudioBridge → AudioBridge) (video_codecs audio_codecs : List String)
    → (attaching : Got AudioFormat) (detaching arming : Got (Unit {0}))
    → (adding_picture adding_voice : Outcome (Unit {0})) (setting_remote creating : Got (Unit {0}))
    → (setting_local : Got String) (sdp : String) (l : Leg) → l.asked ≡ []
    → IsGiven
        (answer backlog filled video_codecs audio_codecs attaching detaching arming adding_picture
          adding_voice setting_remote creating setting_local sdp l)
        (IsOrdered video_codecs audio_codecs attaching sdp)
unfolding Leads
answer-order backlog filled video_codecs audio_codecs attaching detaching arming adding_picture
      adding_voice setting_remote creating setting_local sdp l h =
    answer-Leads backlog filled video_codecs audio_codecs attaching detaching arming adding_picture
      adding_voice setting_remote creating setting_local sdp l h
