-- ===== src/Media/Session/Video/Standing.antt =====
-- session_video.py: what a session may say of its picture, under every interleaving.
use urmet_ha.Prelude.{
  ℕ, suc, ◌+◌, ◌≤◌, ◌≡◌, refl, String, Bool, true, false, not, ◌&&◌, none, is_some, List, [], ◌∷◌,
  ◌++◌, if◌then◌else◌, arith,
}
use urmet_ha.Media.Video.PictureWait
use urmet_ha.Media.Video.PictureWait.{
  PictureWait, Round, retry_interval, keep_asking, picture_wait, gives, no_video, call_error,
  other_error, stopped_asleep, stopped_asking,
}
use urmet_ha.Media.Video.Pipeline
use urmet_ha.Media.Video.Pipeline.{Downlink}
use urmet_ha.Threads.{ends, waits, IsSafe}
use urmet_ha.Domain.Errors.{Outcome, ok, raised}
use urmet_ha.Media.Session.Video.{
  SessionVideo, Told, lost, ready, Running, after, stop_wait, close_video, end_downlink, lose,
}

-- How often the layer above was told that there is a picture, and that there is none.
unfoldable pub readies : List Told → ℕ
readies [] = 0
readies (ready ∷ ts) = suc (readies ts)
readies (lost _ ∷ ts) = readies ts

unfoldable pub losses : List Told → ℕ
losses [] = 0
losses (ready ∷ ts) = losses ts
losses (lost _ ∷ ts) = suc (losses ts)

pub told-append :
    (ts us : List Told)
    → (readies (ts ++ us) ≡ readies ts + readies us) × (losses (ts ++ us) ≡ losses ts + losses us)
unfolding readies losses
told-append [] us = (omega arith, omega arith)
told-append (ready ∷ ts) us = let q = told-append ts us in (omega (arith, q.0), q.1)
told-append (lost r ∷ ts) us = let q = told-append ts us in (q.0, omega (arith, q.1))

loss_alone : (reason : String) → readies (lost reason ∷ []) ≡ 0
unfolding readies
loss_alone reason = refl

pub told_ready : (readies (ready ∷ []) ≡ 1) × (losses (ready ∷ []) ≡ 0)
unfolding readies losses
told_ready = (refl, refl)

-- What holds between any two turns of the loop.
pub record IsSound (v : SessionVideo) : Type 0 where
  pub fresh : v.wait.asking ≡ true → (v.wait.waiting ≡ true) × (readies v.told ≡ 0)
  pub unseen : v.wait.waiting ≡ true → (v.geometry ≡ none) × (losses v.told ≡ 0)
  pub once : readies v.told ≤ 1
  pub gone : 1 ≤ losses v.told → v.geometry ≡ none
  pub shown : is_some v.geometry ≡ true → readies v.told ≡ 1

abbrev pub IsQuiet : SessionVideo → Type 0
IsQuiet v = (v.wait.asking ≡ false) × (v.wait.waiting ≡ false)

-- What every step keeps to: a picture that is asked for no longer is not asked for again, and if it
-- is gone it stays gone.
abbrev pub IsOnward : SessionVideo → SessionVideo → Type 0
IsOnward v w = (IsQuiet v → IsQuiet w) × (IsQuiet v → v.geometry ≡ none → w.geometry ≡ none)

pub IsOnward-trans : (u v w : SessionVideo) → IsOnward u v → IsOnward v w → IsOnward u w
IsOnward-trans u v w f g = (λ q. g.0 (f.0 q), λ q d. g.1 (f.0 q) (f.1 q d))

abbrev pub IsSafeVideo : SessionVideo → Running → Type 0
IsSafeVideo v c = IsSafe IsSound IsOnward v c

-- A step and what follows it.
pub IsSafeVideo-from :
    (u v : SessionVideo) (c : Running) → IsOnward u v → IsSafeVideo v c → IsSafeVideo u c
unfolding IsSafe
IsSafeVideo-from u v (ends o w) g h = (h.0, IsOnward-trans u v w g h.1)
IsSafeVideo-from u v (waits w k) g h = (h.0, IsOnward-trans u v w g h.1, h.2)

pub ends-IsSafeVideo :
    (o : Outcome (Unit {0})) (v : SessionVideo) → IsSound v → IsSafeVideo v (ends o v)
unfolding IsSafe
ends-IsSafeVideo o v h = (h, (λ q. q, λ q d. d))

-- What goes on once the wait was stopped, and what stops it.
abbrev pub Settles : (SessionVideo → Running) → Type 0
Settles f = (v : SessionVideo) → IsSound v → IsQuiet v → IsSafeVideo v (f v)

abbrev pub Stops : (SessionVideo → Running) → Type 0
Stops f = (v : SessionVideo) → IsSound v → IsSafeVideo v (f v)

-- An await, and what may follow it.
pub after-IsSafeVideo :
    (came : Outcome (Unit {0})) (next : SessionVideo → Running) (v : SessionVideo)
    → IsSound v
    → ((w : SessionVideo) → IsOnward v w → IsSound w → IsSafeVideo w (next w))
    → IsSafeVideo v (after came next v)
unfolding after IsSafe
after-IsSafeVideo (raised e) next v h k =
    (h, (λ q. q, λ q d. d), λ w g s. ends-IsSafeVideo (raised e) w s)
after-IsSafeVideo (ok tt) next v h k = (h, (λ q. q, λ q d. d), k)

pub after-Settles :
    (came : Outcome (Unit {0})) (next : SessionVideo → Running)
    → Settles next
    → Settles (after came next)
after-Settles came next settles v h q =
    after-IsSafeVideo came next v h (λ w g s. settles w s (g.0 q))

pub stop_wait-Stops :
    (is_inside : Bool) (came : Outcome (Unit {0})) (next : SessionVideo → Running)
    → Settles next
    → Stops (stop_wait is_inside came next)
unfolding stop_wait PictureWait.stop
stop_wait-Stops is_inside came next settles v h =
    let stopped : SessionVideo = record v { wait = PictureWait.stop v.wait } in
    let s : IsSound stopped = ground (arith, h.fresh, h.unseen, h.once, h.gone, h.shown) in
    IsSafeVideo-from v stopped _ (λ q. (refl, refl), λ q d. d)
      (elim (v.wait.asking && not is_inside)
        as (λ b. IsSafeVideo stopped (if b then after came next stopped else next stopped)) [
          | true ↦ after-Settles came next settles stopped s (refl, refl)
          | false ↦ settles stopped s (refl, refl)
        ])

pub close_video-Settles :
    (came : Outcome (Unit {0})) (next : SessionVideo → Running)
    → Settles next
    → Settles (close_video came next)
unfolding close_video
close_video-Settles came next settles v h q =
    let v' : SessionVideo = record v {
      downlink = record v.downlink { tap = v.downlink.tap ++ Pipeline.closes ∷ [] };
    } in
    IsSafeVideo-from v v' _ (λ q. q, λ q d. d)
      (after-Settles came next settles v'
        (record {
          fresh = h.fresh;
          unseen = h.unseen;
          once = h.once;
          gone = h.gone;
          shown = h.shown;
        })
        q)

module _ (wu ws : Downlink → Downlink) where
  pub end_downlink-Settles :
      (came : Outcome (Unit {0})) (o : Outcome (Unit {0}))
      → Settles (end_downlink wu ws came (ends o))
  unfolding end_downlink IsSafe
  end_downlink-Settles came o v h q = after-IsSafeVideo came _ v h (λ w g s. (
    record { fresh = s.fresh; unseen = s.unseen; once = s.once; gone = s.gone; shown = s.shown },
    (λ q. q, λ q d. d),
  ))

  -- `_lose` once the asking has stopped: gone before the layer above is told.
  gives_up-Settles :
      (reason : String) (came : Outcome (Unit {0}))
      → Settles (λ v.
        end_downlink wu ws came
          (λ w. ends (ok tt) (record w { told = w.told ++ lost reason ∷ [] }))
          (record v { geometry = none; reason = reason }))
  unfolding end_downlink IsSafe losses
  gives_up-Settles reason came v h q =
      let given : SessionVideo = record v { geometry = none; reason = reason } in
      let g : IsSound given = ground (arith, h.fresh, h.unseen, h.once, h.gone, h.shown) in
      let tells : SessionVideo → Running = λ w. ends (ok tt) (record w {
        downlink = Pipeline.aclose wu ws given.downlink;
        told = w.told ++ lost reason ∷ [];
      }) in
      IsSafeVideo-from v given (after came tells given) (λ q. q, λ q d. refl)
        (after-IsSafeVideo came tells given g (λ w onward s.
          let wq = onward.0 q in
          let none_left = onward.1 q refl in
          let counts = told-append w.told (lost reason ∷ []) in
          let told : IsSound (record w {
            downlink = Pipeline.aclose wu ws given.downlink;
            told = w.told ++ lost reason ∷ [];
          }) =
            record {
              fresh = λ a. ground (arith, a, wq.0);
              unseen = λ a. ground (arith, a, wq.1);
              once = omega (arith, counts.0, loss_alone reason, s.once);
              gone = λ _. none_left;
              shown = λ b. ground (arith, b, none_left);
            } in
          (told, (λ q. q, λ q d. d))))

  pub lose-Stops :
      (is_inside : Bool) (reason : String) (stopping ending : Outcome (Unit {0}))
      → Stops (lose is_inside reason stopping wu ws ending)
  unfolding lose
  lose-Stops is_inside reason stopping ending =
      stop_wait-Stops is_inside stopping _ (gives_up-Settles reason ending)
