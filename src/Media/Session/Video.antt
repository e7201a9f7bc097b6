-- ===== src/Media/Session/Video.antt =====
-- addon/urmet-gateway/urmet_gateway/media/session_video.py: one session's picture, over the pipeline
-- and the wait for it. Each coroutine is a course of Threads, so that the loop may do anything else with
-- the picture at an await, and the await may raise, a cancellation included. What the loop does with
-- the pipeline alone during an await of the pipeline are the functions `while_…`.
pub mod Standing
pub mod Turns
pub mod Runs
use urmet_ha.Prelude.{
  ℕ, String, Bool, true, false, not, ◌&&◌, Option, none, some, List, [], ◌∷◌, ◌++◌, if◌then◌else◌,
  contains, or_else,
}
use urmet_ha.Domain.Errors.{Outcome, ok, raised, ErrorType, no_video_offered, class_code}
use urmet_ha.Threads.{Course, ends, waits}
use urmet_ha.Media.Video.PictureWait
use urmet_ha.Media.Video.PictureWait.{
  PictureWait, picture_wait, retry_interval, keep_asking, Round, gives, no_video, call_error,
  other_error,
}
use urmet_ha.Media.Video.Pipeline
use urmet_ha.Media.Video.Pipeline.{Downlink, new_downlink, closes}
use urmet_ha.Media.Video.Track.{Track}
use urmet_ha.Media.Session.{Picture}

abbrev pub VideoFormat : Type 0
VideoFormat = ℕ × ℕ

abbrev pub first_look : String
first_look = "the panel has not settled on a picture size yet"

-- What the layer above was told, `on_lost` and `on_ready`.
pub data Told : Type 0 where
  lost : String → Told
  ready : Told

pub record SessionVideo : Type 0 where
  pub downlink : Downlink
  pub wait : PictureWait VideoFormat
  pub track : Option Track
  pub geometry : Option VideoFormat
  pub reason : String
  pub told : List Told

abbrev pub Running : Type 0
Running = Course SessionVideo (Unit {0})

-- What follows an await, if that did not raise.
unfoldable pub after : Outcome (Unit {0}) → (SessionVideo → Running) → SessionVideo → Running
after came next v = waits v (λ w. elim came [ raised e ↦ ends (raised e) w | ok _ ↦ next w ])

-- `__init__`
unfoldable pub session_video : ℕ → SessionVideo
session_video settle = record {
  downlink = new_downlink;
  wait = picture_wait settle;
  track = none;
  geometry = none;
  reason = String.[];
  told = [];
}

-- The properties that the session reads.
unfoldable pub picture_of : SessionVideo → Picture
picture_of v = record {
  waiting = v.wait.waiting;
  geometry = v.geometry;
  reason = or_else v.reason v.wait.reason;
  sent = elim v.track [ none ↦ 0 | some t ↦ t.sent ];
  dropped = elim v.track [ none ↦ 0 | some t ↦ t.dropped ];
}

-- `arm`, with whether the encoder comes up, and the track of the pipeline.
unfoldable pub arm : Bool → (Downlink → Downlink) → Track → SessionVideo → Running
arm comes_up while_stopping track v =
    let (out, d) = Pipeline.start comes_up while_stopping v.downlink in
    elim out [
      | raised e ↦ waits v (λ w. ends (raised e) (record w { downlink = d }))
      | ok _ ↦ ends (ok tt) (record v {
        downlink = d;
        track = some track;
        wait = PictureWait.start first_look d.generation v.wait;
      })
    ]

-- `await self._wait.stop()`: the task is awaited where there is one and it is not the caller.
unfoldable pub stop_wait :
    (is_inside : Bool) → Outcome (Unit {0}) → (SessionVideo → Running) → SessionVideo → Running
unfolding after
stop_wait is_inside came next v =
    let stopped : SessionVideo = record v { wait = PictureWait.stop v.wait } in
    if v.wait.asking && not is_inside then after came next stopped else next stopped

-- `await self._tap.close_video()`
unfoldable pub close_video : Outcome (Unit {0}) → (SessionVideo → Running) → SessionVideo → Running
unfolding after
close_video came next v =
    after came next
      (record v { downlink = record v.downlink { tap = v.downlink.tap ++ closes ∷ [] } })

-- `await self._downlink.aclose()`
unfoldable pub end_downlink :
    (while_unwatching while_stopping : Downlink → Downlink)
    → Outcome (Unit {0})
    → (SessionVideo → Running)
    → SessionVideo
    → Running
unfolding after
end_downlink while_unwatching while_stopping came next v =
    let d = Pipeline.aclose while_unwatching while_stopping v.downlink in
    after came (λ w. next (record w { downlink = d })) v

-- `_lose`
unfoldable pub lose :
    (is_inside : Bool)
    → String
    → (stopping : Outcome (Unit {0})) → (while_unwatching while_stopping : Downlink → Downlink)
    → (ending : Outcome (Unit {0})) → SessionVideo
    → Running
unfolding stop_wait end_downlink
lose is_inside reason stopping while_unwatching while_stopping ending =
    stop_wait is_inside stopping (λ v.
      end_downlink while_unwatching while_stopping ending
        (λ w. ends (ok tt) (record w { told = w.told ++ lost reason ∷ [] }))
        (record v { geometry = none; reason = reason }))

-- `_stalled`
unfoldable pub stalled :
    String
    → (stopping closing stopping_again : Outcome (Unit {0}))
    → (while_unwatching while_stopping : Downlink → Downlink) → (ending : Outcome (Unit {0}))
    → SessionVideo
    → Running
unfolding stop_wait close_video lose
stalled reason stopping closing stopping_again while_unwatching while_stopping ending =
    stop_wait false stopping (
      close_video closing (lose false reason stopping_again while_unwatching while_stopping ending))

-- `aclose`
unfoldable pub aclose :
    (stopping closing : Outcome (Unit {0}))
    → (while_unwatching while_stopping : Downlink → Downlink) → (ending : Outcome (Unit {0}))
    → SessionVideo
    → Running
unfolding stop_wait close_video end_downlink
aclose stopping closing while_unwatching while_stopping ending =
    stop_wait false stopping
      (close_video closing (end_downlink while_unwatching while_stopping ending (ends (ok tt))))

-- `_arrived`
unfoldable pub arrived : VideoFormat → SessionVideo → SessionVideo
arrived format v = record v {
  geometry = some format;
  reason = String.[];
  told = v.told ++ ready ∷ [];
}

-- How the wait reads the end of `_ask`, with the text of an error.
unfoldable pub round_of : String → Outcome VideoFormat → Round VideoFormat
round_of text (ok format) = gives format
round_of text (raised no_video_offered) = no_video text
round_of text (raised e) =
    if contains (class_code e) (4 ∷ 5 ∷ 6 ∷ 16 ∷ 17 ∷ []) then call_error text else other_error text

-- The callbacks of the wait, once it has put its question.
unfoldable pub answered :
    Round VideoFormat
    → (while_unwatching while_stopping : Downlink → Downlink) → (ending : Outcome (Unit {0}))
    → SessionVideo
    → Running
unfolding lose arrived
answered (gives format) while_unwatching while_stopping ending v = ends (ok tt) (arrived format v)
answered (no_video text) while_unwatching while_stopping ending v =
    lose true text ending while_unwatching while_stopping ending v
answered _ while_unwatching while_stopping ending v = ends (ok tt) v

-- The wait goes on with an answer.
unfoldable pub asked_again :
    Round VideoFormat
    → (while_unwatching while_stopping : Downlink → Downlink) → (ending : Outcome (Unit {0}))
    → SessionVideo
    → Running
unfolding answered
asked_again r while_unwatching while_stopping ending v =
    let delay : ℕ = elim v.wait.slept [ [] ↦ v.wait.first_delay | _ ∷ _ ↦ retry_interval ] in
    answered r while_unwatching while_stopping ending
      (record v { wait = keep_asking delay (r ∷ []) v.wait })

-- One round of the wait, `_ask` and what it comes to; a wait that was stopped meanwhile is cancelled.
unfoldable pub ask :
    (draining : Bool)
    → (while_opening : Downlink → Downlink) → Outcome VideoFormat
    → (while_closing : Downlink → Downlink) → (closing : Outcome (Unit {0})) → (text : String)
    → (while_unwatching while_stopping : Downlink → Downlink) → (ending : Outcome (Unit {0}))
    → SessionVideo
    → Running
unfolding round_of asked_again
ask draining while_opening opened while_closing closing text while_unwatching while_stopping ending
      v =
    let (out, d) =
      Pipeline.arm v.wait.generation draining while_opening opened while_closing closing
        v.downlink in
    if v.wait.asking
    then waits v (λ w.
      let waited : SessionVideo = record w { downlink = d } in
      if waited.wait.asking
      then asked_again (round_of text out) while_unwatching while_stopping ending waited
      else ends (ok tt) waited)
    else ends (ok tt) v
