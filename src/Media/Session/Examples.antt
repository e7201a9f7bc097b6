-- ===== src/Media/Session/Examples.antt =====
-- media/session.py on one session.
use urmet_ha.Prelude.{◌≡◌, ◌≤◌, refl, String, true, false, List, none, some, is_some, [], ◌∷◌}
use urmet_ha.Domain.{degraded}
use urmet_ha.Media.Video.Track.{new_track}
use urmet_ha.Media.Video.Pipeline
use urmet_ha.Media.Video.PictureWait
use urmet_ha.Media.Session.Answering.{Got, Leg, answer, browser_track, bridge_audio_format}
use urmet_ha.Media.Session.Answering.Order.{IsGiven, IsOrdered, answer-order}
use urmet_ha.Media.Session.Video
use urmet_ha.Media.Session.Video.{
  lost, ready, picture_of, arm, session_video, ask, answered, stalled, lose, round_of, arrived,
}
use urmet_ha.Media.Session.Video.Standing.{readies, losses}
use urmet_ha.Media.Session.Video.Runs
use urmet_ha.Threads.{Step, begins, resumes}
use urmet_ha.Media.Session.Video.Runs.{
  VideoRequest, asks, stalls, armed, video_run, video_run-readies,
}
use urmet_ha.Domain.Errors.{ok, raised, call_error}
use urmet_ha.Media.Audio.Bridge.{audio_bridge}
use urmet_ha.Media.Session.{
  Session, aclose, note, state_of, stops_uplink, closes_picture, detaches_audio, closes_bridge,
  closes_peer, tells,
}
use urmet_ha.Media.Session.Acts.{
  SessionActs, idle, then_, ends, attaches, session_act, session_acts, during,
}
use urmet_ha.Media.Session.Ending.{detached, aclose-order, aclose_raised}

abbrev shown : Session
shown = record {
  id = 1;
  call_id = 7;
  bridge = some (audio_bridge 20);
  uplink = true;
  closed = false;
  reason = String.[];
  connection = "connected";
  picture = record {
    waiting = false;
    geometry = some (352, 288);
    reason = String.[];
    sent = 40;
    dropped = 0;
  };
  steps = [];
}

-- Another end, while the picture is being closed.
abbrev again : SessionActs
again = then_ (ends "the call ended" idle idle idle idle (ok tt) (ok tt) (ok tt) (ok tt)) idle

-- An answer that gets its bridge while the picture is being closed.
abbrev barely : Session
barely = record shown { bridge = none; uplink = false }

abbrev arrives_late : SessionActs
arrives_late = then_ (attaches (audio_bridge 20)) again

aclose-order_example :
    let (out, t) =
      aclose "bye"
        (during idle (ok tt))
        (during arrives_late (ok tt))
        (during idle (ok tt))
        (during idle (ok tt))
        barely in
    (out ≡ ok tt)
    × (t.closed ≡ true)
    × (t.reason ≡ "bye")
    × (t.steps ≡ closes_picture ∷ detaches_audio ∷ closes_bridge ∷ closes_peer ∷ tells "bye" ∷ [])
    × (false ≡ true → true ≡ true)
unfolding detached session_acts session_act note aclose
aclose-order_example = aclose-order "bye" idle arrives_late idle idle barely refl

aclose_raised_example :
    let (out, t) =
      aclose "bye"
        (during idle (ok tt))
        (during idle (raised call_error))
        (during idle (ok tt))
        (during idle (ok tt))
        shown in
    (out ≡ raised call_error)
    × (t.closed ≡ true)
    × ((session_acts again t).steps ≡ stops_uplink ∷ closes_picture ∷ [])
aclose_raised_example =
    aclose_raised "bye" call_error idle idle idle idle again (ok tt) (ok tt) shown refl

-- A question too early, a picture, and a stall that overlaps the end of the session: each is begun
-- before the other is over.
abbrev evening : List (Step VideoRequest)
evening =
    begins
      (asks true (λ d. d) (raised call_error) (λ d. d) (ok tt) "not yet" (λ d. d) (λ d. d) (ok tt))
    ∷ resumes 0
    ∷ begins (asks true (λ d. d) (ok (352, 288)) (λ d. d) (ok tt) "" (λ d. d) (λ d. d) (ok tt))
    ∷ resumes 0
    ∷ begins (stalls "silence" (ok tt) (ok tt) (ok tt) (λ d. d) (λ d. d) (ok tt))
    ∷ begins (Runs.closes (ok tt) (ok tt) (λ d. d) (λ d. d) (ok tt))
    ∷ resumes 0
    ∷ resumes 0
    ∷ resumes 0
    ∷ resumes 0
    ∷ []

a_long_evening : (video_run evening (armed 500 (new_track 8))).told ≡ ready ∷ lost "silence" ∷ []
unfolding video_run armed arm Video.aclose stalled ask Pipeline.start PictureWait.start Pipeline.arm
    session_video Pipeline.new_downlink PictureWait.keep_asking
a_long_evening = refl

video_run-readies_example :
    let v = video_run evening (armed 500 (new_track 8)) in
    (readies v.told ≤ 1)
    × (is_some v.geometry ≡ true → readies v.told ≡ 1)
    × (v.wait.waiting ≡ true → (v.geometry ≡ none) × (losses v.told ≡ 0))
    × (1 ≤ losses v.told
        → state_of none (record shown { closed = false; picture = picture_of v }) ≡ degraded)
video_run-readies_example = video_run-readies 500 (new_track 8) evening shown none

-- An offer, during which the browser's track arrives.
abbrev at_once : {A : Type 0} → A → Got A
at_once a = record { meanwhile = λ s. s; outcome = ok a }

abbrev coming : Got (Unit {0})
coming = record { meanwhile = browser_track "audio"; outcome = ok tt }

abbrev fresh : Leg
fresh = record { session = record shown { bridge = none; uplink = false }; asked = [] }

answer-order_example :
    IsGiven
      (answer 20
        (λ b. b)
        ("video/VP8" ∷ "video/H264" ∷ [])
        ("audio/PCMA" ∷ [])
        (at_once bridge_audio_format)
        (at_once tt)
        (at_once tt)
        (ok tt)
        (ok tt)
        coming
        (at_once tt)
        (at_once "answer")
        "offer"
        fresh)
      (IsOrdered
        ("video/VP8" ∷ "video/H264" ∷ [])
        ("audio/PCMA" ∷ [])
        (at_once bridge_audio_format)
        "offer")
answer-order_example =
    answer-order 20 (λ b. b) ("video/VP8" ∷ "video/H264" ∷ []) ("audio/PCMA" ∷ [])
      (at_once bridge_audio_format) (at_once tt) (at_once tt) (ok tt) (ok tt) coming (at_once tt)
      (at_once "answer") "offer" fresh refl
