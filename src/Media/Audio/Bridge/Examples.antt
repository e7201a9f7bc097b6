-- ===== src/Media/Audio/Bridge/Examples.antt =====
-- audio/bridge.py on short calls.
use urmet_ha.Prelude.{◌<◌, ◌≡◌, refl, inl, true, List, [], ◌∷◌, arith}
use urmet_ha.Media.Audio.Bridge.Conservation.{
  Step, arrives, supplies, clock_goes_on, looks, pushes, loop_goes_on, closes as ends, steps,
  opened, IsBalanced, steps-opened-IsBalanced,
}
use urmet_ha.Media.Audio.Bridge.Wake.{
  Turn, clocks, reads, turn, schedule, start, sleeping, roused, clock_step, reader_step, homeward,
  schedule_rouses,
}

-- A queue of one: the second frame is counted as dropping the first, which is taken before it lands.
abbrev short_call : List Step
short_call =
    arrives true 3 (1 ∷ 2 ∷ [])
    ∷ clock_goes_on
    ∷ clock_goes_on
    ∷ arrives true 4 (3 ∷ 4 ∷ [])
    ∷ looks
    ∷ clock_goes_on
    ∷ clock_goes_on
    ∷ supplies 1
    ∷ pushes (9 ∷ 9 ∷ [])
    ∷ clock_goes_on
    ∷ loop_goes_on
    ∷ supplies 1
    ∷ clock_goes_on
    ∷ ends
    ∷ []

steps-opened-IsBalanced_example : IsBalanced 1 (steps short_call (opened 1))
steps-opened-IsBalanced_example = steps-opened-IsBalanced 1 short_call (omega arith)

-- The reader goes to sleep, and a frame is appended.
abbrev asleep : List Turn
asleep = reads ∷ reads ∷ reads ∷ reads ∷ clocks ∷ []

asleep-reader : (schedule asleep start).reader ≡ sleeping
unfolding schedule turn start clock_step reader_step
asleep-reader = refl

asleep-queued : 0 < (schedule asleep start).queued
unfolding schedule turn start clock_step reader_step
asleep-queued = omega arith

schedule_rouses_example :
    let s = schedule asleep start in
    ((schedule (homeward s) s).reader ≡ roused) × ((schedule (homeward s) s).queued ≡ s.queued)
schedule_rouses_example = schedule_rouses asleep asleep-reader (inl asleep-queued)
