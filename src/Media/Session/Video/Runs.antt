-- ===== src/Media/Session/Video/Runs.antt =====
-- session_video.py: what a session may say of its picture, under every interleaving.
use urmet_ha.Prelude.{
  ℕ, ◌≤◌, ◌≡◌, refl, String, Bool, true, false, Option, none, some, is_some, List, [], arith,
}
use urmet_ha.Domain.{degraded}
use urmet_ha.Domain.Errors.{Outcome, ok}
use urmet_ha.Media.Video.PictureWait
use urmet_ha.Media.Video.PictureWait.{picture_wait}
use urmet_ha.Media.Video.Pipeline
use urmet_ha.Media.Video.Pipeline.{Downlink}
use urmet_ha.Media.Video.Track.{Track}
use urmet_ha.Media.Session.{Session, AudioMeasurement, state_of}
use urmet_ha.Threads.{ends, plays, Step, run, run-IsKept}
use urmet_ha.Media.Session.Video.{
  SessionVideo, VideoFormat, Running, session_video, picture_of, arm, stalled, aclose, ask,
}
use urmet_ha.Media.Session.Video.Standing.{
  readies, losses, IsSound, IsOnward, IsOnward-trans, IsSafeVideo-from, ends-IsSafeVideo, Stops,
}
use urmet_ha.Media.Session.Video.Turns.{stalled-Stops, aclose-Stops, ask-Stops}

-- What happens to a session's picture, as coroutines of one loop: it is asked for, it stalls, and the
-- session ends; the track counts its packets, and the pipeline goes on, meanwhile.
pub data VideoRequest : Type 0 where
  flows : Track → VideoRequest
  pipes : (Downlink → Downlink) → VideoRequest
  asks :
      (draining : Bool) (wo : Downlink → Downlink) (opened : Outcome VideoFormat)
      → (wc : Downlink → Downlink) (closing : Outcome (Unit {0})) (text : String)
      → (wu ws : Downlink → Downlink) (ending : Outcome (Unit {0})) → VideoRequest
  stalls :
      String
      → (stopping closing again : Outcome (Unit {0})) (wu ws : Downlink → Downlink)
      → (ending : Outcome (Unit {0})) → VideoRequest
  closes :
      (stopping closing : Outcome (Unit {0})) (wu ws : Downlink → Downlink)
      → (ending : Outcome (Unit {0})) → VideoRequest

unfoldable pub video_course : VideoRequest → SessionVideo → Running
video_course (flows t) v = ends (ok tt) (record v { track = some t })
video_course (pipes f) v = ends (ok tt) (record v { downlink = f v.downlink })
video_course (asks draining wo opened wc closing text wu ws ending) v =
    ask draining wo opened wc closing text wu ws ending v
video_course (stalls reason stopping closing again wu ws ending) v =
    stalled reason stopping closing again wu ws ending v
video_course (closes stopping closing wu ws ending) v = aclose stopping closing wu ws ending v

-- A picture that was armed, before anything else happens to it.
unfoldable pub armed : ℕ → Track → SessionVideo
unfolding plays arm
armed settle track = (plays (λ _ v. v) 0 (arm true (λ d. d) track (session_video settle))).1

-- A run of the loop on an armed picture.
unfoldable pub video_run : List (Step VideoRequest) → SessionVideo → SessionVideo
unfolding video_course run
video_run steps v = (run video_course steps (record { state = v; waiting = [] })).state

video_course-Stops : (r : VideoRequest) → Stops (video_course r)
unfolding video_course
video_course-Stops (flows t) v h =
    let w : SessionVideo = record v { track = some t } in
    IsSafeVideo-from v w _ (λ q. q, λ q d. d)
      (ends-IsSafeVideo (ok tt) w (record {
        fresh = h.fresh;
        unseen = h.unseen;
        once = h.once;
        gone = h.gone;
        shown = h.shown;
      }))
video_course-Stops (pipes f) v h =
    let w : SessionVideo = record v { downlink = f v.downlink } in
    IsSafeVideo-from v w _ (λ q. q, λ q d. d)
      (ends-IsSafeVideo (ok tt) w (record {
        fresh = h.fresh;
        unseen = h.unseen;
        once = h.once;
        gone = h.gone;
        shown = h.shown;
      }))
video_course-Stops (asks draining wo opened wc closing text wu ws ending) v h =
    ask-Stops wu ws draining wo opened wc closing text ending v h
video_course-Stops (stalls reason stopping closing again wu ws ending) v h =
    stalled-Stops wu ws reason stopping closing again ending v h
video_course-Stops (closes stopping closing wu ws ending) v h =
    aclose-Stops wu ws stopping closing ending v h

armed-IsSound : (settle : ℕ) (track : Track) → IsSound (armed settle track)
unfolding armed arm plays session_video PictureWait.start picture_wait Pipeline.start
    Pipeline.start_run readies losses
armed-IsSound settle track = record {
  fresh = λ _. (refl, refl);
  unseen = λ _. (refl, refl);
  once = omega arith;
  gone = λ p. refl;
  shown = λ b. ground (arith, b);
}

-- Whatever happens to a picture once it was armed, questions, stalls and ends, resumed by the loop in
-- any order, with awaits that raise: the layer above is told at most once that there is a picture,
-- and told before there is a size to read; while a first picture is still asked for there is none,
-- and none was reported lost; and whenever it has been told that the picture is lost, a session that
-- is not closed reads as degraded, whatever its voice does.
pub video_run-readies :
    (settle : ℕ) (track : Track) (steps : List (Step VideoRequest)) (s : Session)
    → (audio : Option AudioMeasurement)
    → let v = video_run steps (armed settle track) in
      (readies v.told ≤ 1)
      × (is_some v.geometry ≡ true → readies v.told ≡ 1)
      × (v.wait.waiting ≡ true → (v.geometry ≡ none) × (losses v.told ≡ 0))
      × (1 ≤ losses v.told
          → state_of audio (record s { closed = false; picture = picture_of v }) ≡ degraded)
unfolding video_run state_of picture_of
video_run-readies settle track steps s audio =
    let h =
      (run-IsKept IsSound IsOnward (λ v. (λ q. q, λ q d. d)) IsOnward-trans video_course
        video_course-Stops steps (record { state = armed settle track; waiting = [] })
        (armed-IsSound settle track, tt)).0 in
    (h.once, h.shown, h.unseen, λ l. ground (arith, l, h.gone l, h.unseen))
