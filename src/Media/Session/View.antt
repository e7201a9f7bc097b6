-- ===== src/Media/Session/View.antt =====
-- media/session.py: what a session reads as.
use urmet_ha.Prelude.{
  ◌≡◌, refl, ◌↔◌, Bool, true, false, Option, none, some, arith, is_some, non_empty,
}
use urmet_ha.Domain.{opened}
use urmet_ha.Media.Session.{
  AudioMeasurement, Session, view, state_of, measured, voice_lost, video_flow,
}

voice_gone_lem :
    (audio : Option AudioMeasurement)
    → (elim audio as (λ x. Bool) [ none ↦ false | some a ↦ non_empty a.stop_reason ])
      ≡ non_empty (voice_lost audio)
unfolding voice_lost
voice_gone_lem none = refl
voice_gone_lem (some a) = refl

-- A session reads as open exactly where it is not closed, a picture is encoded and none is being
-- waited for, and the voice that is bridged, if one is, has not stopped; only then may a page show a
-- live picture and a live voice.
pub view-opened :
    (s : Session)
    → ((view s).state ≡ opened) ↔ (
        (s.closed ≡ false)
        × (s.picture.waiting ≡ false)
        × (is_some (view s).video ≡ true)
        × (non_empty (voice_lost (measured s.bridge)) ≡ false))
unfolding view state_of video_flow
view-opened s = ground (arith, voice_gone_lem (measured s.bridge))
