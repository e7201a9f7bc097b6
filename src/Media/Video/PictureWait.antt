-- ===== src/Media/Video/PictureWait.antt =====
-- addon/urmet-gateway/urmet_gateway/media/picture_wait.py: asking again for a picture. A delay is in
-- milliseconds. What ends a sleep or an answer early is `stop`, which cancels the task.
pub mod Asking
use urmet_ha.Prelude.{ℕ, String, Bool, true, false, Option, none, some, List, [], ◌∷◌, ◌++◌}

abbrev pub retry_interval : ℕ
retry_interval = 1000

-- `slept` and `asked` have the sleeps and the generations of the asking so far; `arrived`, `never`
-- what the callbacks of these names were called with; `asking` that the task is there.
pub record PictureWait (F : Type 0) : Type 0 where
  pub first_delay : ℕ
  pub waiting : Bool
  pub reason : String
  pub generation : ℕ
  pub asking : Bool
  pub slept : List ℕ
  pub asked : List ℕ
  pub arrived : List F
  pub never : List String

-- How one round ends: cancelled asleep or while asking, or with an answer.
pub data Round (F : Type 0) : Type 0 where
  stopped_asleep stopped_asking : Round F
  gives : F → Round F
  no_video call_error other_error : String → Round F

module _ {F : Type 0} where
  -- `PictureWait.__init__`
  unfoldable pub picture_wait : ℕ → PictureWait F
  picture_wait first_delay = record {
    first_delay = first_delay;
    waiting = false;
    reason = String.[];
    generation = 0;
    asking = false;
    slept = [];
    asked = [];
    arrived = [];
    never = [];
  }

  -- `start`
  unfoldable pub start : String → ℕ → PictureWait F → PictureWait F
  start reason generation w = record w {
    waiting = true;
    reason = reason;
    generation = generation;
    asking = true;
  }

  -- `stop`
  unfoldable pub stop : PictureWait F → PictureWait F
  stop w = record w { waiting = false; asking = false }

  -- `_keep_asking` from a sleep on, with how its rounds end; `_finished` comes with the end.
  unfoldable pub keep_asking : ℕ → List (Round F) → PictureWait F → PictureWait F
  unfolding stop
  keep_asking delay [] w = w
  keep_asking delay (r ∷ rs) w =
      let awake : PictureWait F = record w { slept = w.slept ++ delay ∷ [] } in
      let put : PictureWait F = record awake { asked = w.asked ++ w.generation ∷ [] } in
      elim r [
        | stopped_asleep ↦ stop awake
        | stopped_asking ↦ stop put
        | gives geometry ↦ record put {
          waiting = false;
          reason = String.[];
          arrived = w.arrived ++ geometry ∷ [];
          asking = false;
        }
        | no_video reason ↦ record put {
          waiting = false;
          never = w.never ++ reason ∷ [];
          asking = false;
        }
        | call_error reason ↦ keep_asking retry_interval rs (record put { reason = reason })
        | other_error reason ↦ record put { asking = false }
      ]
