-- ===== src/Media/Video/Pipeline/Examples.antt =====
-- media/pipeline.py on short runs.
use urmet_ha.Prelude.{List, [], ◌∷◌, ℕ, ◌≤◌, ◌≡◌, refl, true, arith}
use urmet_ha.Domain.Errors.{ok}
use urmet_ha.Media.Video.Pipeline.{Downlink, new_downlink, start_run, start, arm}
use urmet_ha.Media.Video.Pipeline.Generation.{
  DownActs, idle, then_, starts, arms, restarts, stalls, Segment, kills, asks, unwatches, segment,
  segments, down_act, down_acts, IsOpenedOn, arm-answered,
}

abbrev up : Downlink
up = down_acts (then_ (starts true idle) idle) new_downlink

up-has_track : up.has_track ≡ true
unfolding down_acts down_act start start_run new_downlink
up-has_track = refl

-- While the tap opens, a stall kills the encoder and waits, and another arm asks.
abbrev meanwhile : List Segment
meanwhile = kills ∷ asks 1 1 ∷ unwatches ∷ []

up-answers : (arm {F = ℕ} 1 true (segments meanwhile) (ok 640) (segments []) (ok tt) up).0 ≡ ok 640
unfolding down_acts down_act start start_run new_downlink arm segments segment
up-answers = refl

arm-answered_example :
    (true ≡ true)
    × (1 ≡ up.generation)
    × IsOpenedOn 1
        (segments meanwhile)
        up
        (arm {F = ℕ} 1 true (segments meanwhile) (ok 640) (segments []) (ok tt) up).1
arm-answered_example = arm-answered 1 640 true meanwhile [] (ok 640) (ok tt) up up-answers

-- A stall while an arm crosses, and a restart while that stall is told.
abbrev busy : DownActs
busy =
    then_
      (arms 1 true
        (then_ (stalls (then_ (restarts idle idle true idle) idle) (ok tt) idle idle) idle) (ok 640)
        idle (ok tt))
      idle

up-below : 1 ≤ up.generation
unfolding down_acts down_act start start_run new_downlink
up-below = omega arith
