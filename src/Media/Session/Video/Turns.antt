-- ===== src/Media/Session/Video/Turns.antt =====
-- session_video.py: stalls, ends and answers keep what a session may say of its picture.
use urmet_ha.Prelude.{refl, ℕ, ◌≡◌, String, Bool, true, false, [], ◌∷◌, ◌++◌, if◌then◌else◌, arith}
use urmet_ha.Domain.Errors.{Outcome, ok}
use urmet_ha.Media.Video.PictureWait
use urmet_ha.Media.Video.PictureWait.{
  PictureWait, Round, retry_interval, keep_asking, picture_wait, gives, no_video, call_error,
  other_error, stopped_asleep, stopped_asking,
}
use urmet_ha.Media.Video.Pipeline
use urmet_ha.Media.Video.Pipeline.{Downlink}
use urmet_ha.Threads.{ends, waits, IsSafe}
use urmet_ha.Media.Session.Video.{
  SessionVideo, VideoFormat, ready, Running, lose, stalled, aclose, answered, asked_again, arrived,
  ask, round_of,
}
use urmet_ha.Media.Session.Video.Standing.{
  losses, told-append, told_ready, IsSound, IsOnward, IsSafeVideo, IsSafeVideo-from,
  ends-IsSafeVideo, Stops, stop_wait-Stops, end_downlink-Settles, lose-Stops, close_video-Settles,
}

-- A wait that still asks has nothing to keep to.
asking-IsOnward : (v w : SessionVideo) → v.wait.asking ≡ true → IsOnward v w
asking-IsOnward v w a = (λ q. ground (arith, q.0, a), λ q. ground (arith, q.0, a))

by_test :
    (v : SessionVideo) (x y : Running) (b : Bool)
    → (b ≡ true → IsSafeVideo v x)
    → (b ≡ false → IsSafeVideo v y)
    → IsSafeVideo v (if b then x else y)
by_test v x y true f g = f refl
by_test v x y false f g = g refl

module _ (wu ws : Downlink → Downlink) where
  pub stalled-Stops :
      (reason : String) (stopping closing again ending : Outcome (Unit {0}))
      → Stops (stalled reason stopping closing again wu ws ending)
  unfolding stalled
  stalled-Stops reason stopping closing again ending =
      stop_wait-Stops false stopping _
        (close_video-Settles closing _ (λ v h q. lose-Stops wu ws false reason again ending v h))

  pub aclose-Stops :
      (stopping closing ending : Outcome (Unit {0})) → Stops (aclose stopping closing wu ws ending)
  unfolding aclose
  aclose-Stops stopping closing ending =
      stop_wait-Stops false stopping _
        (close_video-Settles closing _ (end_downlink-Settles wu ws ending (ok tt)))

  -- A question that was put and not cancelled, by its answer.
  answered-IsSafeVideo :
      (r : Round VideoFormat) (delay : ℕ) (ending : Outcome (Unit {0})) (v : SessionVideo)
      → IsSound v
      → v.wait.asking ≡ true
      → IsSafeVideo v
          (answered r wu ws ending (record v { wait = keep_asking delay (r ∷ []) v.wait }))
  unfolding answered keep_asking PictureWait.stop arrived IsSafe
  answered-IsSafeVideo (gives format) delay ending v h a =
      let counts = told-append v.told (ready ∷ []) in
      let first = h.fresh a in
      let unlost = (h.unseen first.0).1 in
      let none_lost : losses (v.told ++ ready ∷ []) ≡ 0 =
        omega (arith, counts.1, unlost, told_ready.1) in
      let w : SessionVideo = record v { wait = keep_asking delay (gives format ∷ []) v.wait } in
      let s : IsSound (arrived format w) = record {
        fresh = λ b. ground (arith, b);
        unseen = λ b. ground (arith, b);
        once = omega (arith, counts.0, first.1, told_ready.0);
        gone = λ b. ground (arith, b, none_lost);
        shown = λ b. omega (arith, counts.0, first.1, told_ready.0);
      } in
      let onward = asking-IsOnward v (arrived format w) a in (s, onward)
  answered-IsSafeVideo (no_video text) delay ending v h a =
      let w : SessionVideo = record v { wait = keep_asking delay (no_video text ∷ []) v.wait } in
      IsSafeVideo-from v w (lose true text ending wu ws ending w) (asking-IsOnward v w a) (
        lose-Stops wu ws true text ending ending w
          (ground (arith, h.fresh, h.unseen, h.once, h.gone, h.shown)))
  answered-IsSafeVideo (call_error text) delay ending v h a =
      let w : SessionVideo = record v { wait = keep_asking delay (call_error text ∷ []) v.wait } in
      IsSafeVideo-from v w (ends (ok tt) w) (asking-IsOnward v w a)
        (ends-IsSafeVideo (ok tt) w (ground (arith, h.fresh, h.unseen, h.once, h.gone, h.shown)))
  answered-IsSafeVideo (other_error text) delay ending v h a =
      let w : SessionVideo = record v { wait = keep_asking delay (other_error text ∷ []) v.wait } in
      IsSafeVideo-from v w (ends (ok tt) w) (asking-IsOnward v w a)
        (ends-IsSafeVideo (ok tt) w (ground (arith, h.fresh, h.unseen, h.once, h.gone, h.shown)))
  answered-IsSafeVideo stopped_asleep delay ending v h a =
      let w : SessionVideo = record v { wait = keep_asking delay (stopped_asleep ∷ []) v.wait } in
      IsSafeVideo-from v w (ends (ok tt) w) (asking-IsOnward v w a)
        (ends-IsSafeVideo (ok tt) w (ground (arith, h.fresh, h.unseen, h.once, h.gone, h.shown)))
  answered-IsSafeVideo stopped_asking delay ending v h a =
      let w : SessionVideo = record v { wait = keep_asking delay (stopped_asking ∷ []) v.wait } in
      IsSafeVideo-from v w (ends (ok tt) w) (asking-IsOnward v w a)
        (ends-IsSafeVideo (ok tt) w (ground (arith, h.fresh, h.unseen, h.once, h.gone, h.shown)))

  asked_again-Stops :
      (r : Round VideoFormat) (ending : Outcome (Unit {0})) (v : SessionVideo)
      → IsSound v
      → v.wait.asking ≡ true
      → IsSafeVideo v (asked_again r wu ws ending v)
  unfolding asked_again
  asked_again-Stops r ending v h a =
      answered-IsSafeVideo r
        (elim v.wait.slept [ [] ↦ v.wait.first_delay | _ ∷ _ ↦ retry_interval ]) ending v h a

  pub ask-Stops :
      (draining : Bool) (wo : Downlink → Downlink) (opened : Outcome VideoFormat)
      → (wc : Downlink → Downlink) (closing : Outcome (Unit {0})) (text : String)
      → (ending : Outcome (Unit {0})) → Stops (ask draining wo opened wc closing text wu ws ending)
  unfolding ask IsSafe
  ask-Stops draining wo opened wc closing text ending v h =
      let (out, d) = Pipeline.arm v.wait.generation draining wo opened wc closing v.downlink in
      by_test v
        (waits v (λ w.
          let waited : SessionVideo = record w { downlink = d } in
          if waited.wait.asking
          then asked_again (round_of text out) wu ws ending waited
          else ends (ok tt) waited))
        (ends (ok tt) v) v.wait.asking
        (λ _. (
          h,
          (λ q. q, λ q x. x),
          λ w g s.
              let waited : SessionVideo = record w { downlink = d } in
              let sw : IsSound waited = record {
                fresh = s.fresh;
                unseen = s.unseen;
                once = s.once;
                gone = s.gone;
                shown = s.shown;
              } in
              IsSafeVideo-from w waited _ (λ q. q, λ q x. x)
                (by_test waited (asked_again (round_of text out) wu ws ending waited)
                  (ends (ok tt) waited) waited.wait.asking
                  (asked_again-Stops (round_of text out) ending waited sw)
                  (λ _. ends-IsSafeVideo (ok tt) waited sw)),
        ))
        (λ _. ends-IsSafeVideo (ok tt) v h)
