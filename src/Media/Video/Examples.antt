-- ===== src/Media/Video/Examples.antt =====
-- media/track.py, media/watchdog.py and media/picture_wait.py on short runs.
use urmet_ha.Prelude.{
  ℕ, suc, ◌+◌, ◌≡◌, ◌≢◌, ◌⊎◌, inl, ◌<◌, ◌≤◌, refl, String, true, false, some, none, Option, List,
  [], ◌∷◌, arith, length,
}
use urmet_ha.Media.Queue.{push}
use urmet_ha.Media.Video.Track.{Track, new_track, submit, loop_turn, enqueue, recv, queue_depth}
use urmet_ha.Media.Video.Track.Rising.{IsRising}
use urmet_ha.Media.Video.Track.Stamps.{
  TrackCall, submits, turns, receives, track_call, track_calls, watched, track_calls-IsRising,
}
use urmet_ha.Media.Video.Watchdog.{Watchdog, watchdog, start, round}
use urmet_ha.Media.Video.Watchdog.Budget.{
  Happening, beats, rearms, rounds, happen_all, budget, Fed, happen_all-fires,
}
use urmet_ha.Media.Video.Encoder
use urmet_ha.Media.Video.Encoder.Descriptors.{HasStop, IsOver, run-closes}
use urmet_ha.Media.Video.PictureWait
use urmet_ha.Media.Video.PictureWait.{
  PictureWait, picture_wait, Round, gives, call_error, retry_interval, keep_asking,
}

-- Two packets in one instant, and a clock that stands behind them.
abbrev burst : List TrackCall
burst =
    submits true 500
    ∷ submits true 500
    ∷ turns
    ∷ receives
    ∷ submits true 400
    ∷ turns
    ∷ turns
    ∷ receives
    ∷ receives
    ∷ []

track_calls-IsRising_example :
    let w = track_calls burst (watched queue_depth) in IsRising 0 w.got w.track.least
track_calls-IsRising_example = track_calls-IsRising queue_depth burst

burst-got : (track_calls burst (watched queue_depth)).got ≡ 500 ∷ 501 ∷ 502 ∷ []
unfolding track_calls watched track_call recv loop_turn submit new_track push
burst-got = refl

abbrev midway : Track
midway = (track_calls (submits true 7 ∷ submits true 9 ∷ turns ∷ []) (watched queue_depth)).track

midway-deep : 0 < midway.depth
unfolding track_calls watched track_call loop_turn submit new_track enqueue
midway-deep = omega arith

abbrev alert : Watchdog
alert = start 0 (watchdog 8 (some 25) 0)

abbrev feed : List Happening
feed = rounds 20 none ∷ beats 21 ∷ rounds 28 none ∷ beats 29 ∷ rearms 30 ∷ rounds 54 none ∷ []

alert-running : alert.running ≡ true
unfolding start watchdog
alert-running = refl

alert-Fed : Fed alert.timeout alert.startup_timeout alert.last alert.moved feed
unfolding start watchdog
alert-Fed = (omega arith, (omega arith, (omega arith, tt)))

abbrev no_probe : Option String
no_probe = none

alert-due : (alert.last + budget alert < 26) ⊎ (no_probe ≢ none)
unfolding start watchdog
alert-due = inl (omega arith)

happen_all-fires_example :
    let e = happen_all feed (round 26 no_probe alert) in
    (e.running ≡ false) × (length e.stalls ≡ suc (length alert.stalls))
happen_all-fires_example = happen_all-fires 26 no_probe feed alert alert-running alert-due

abbrev asking : PictureWait ℕ
asking = PictureWait.start "no size yet" 3 (picture_wait 4000)

-- A stop while the thread is still before the header, which comes before it ends.
abbrev stopped : List Encoder.Act
stopped =
    Encoder.stops true
    ∷ Encoder.demuxes Encoder.header
    ∷ Encoder.demuxes Encoder.end_of_output
    ∷ Encoder.joins
    ∷ Encoder.reaps (some (Encoder.signalled 9)) true
    ∷ []

run-closes_example :
    let e = Encoder.run stopped (Encoder.start Encoder.up Encoder.new_encoder) in
    (e.opened ≤ 1)
    × (e.closed ≤ e.opened)
    × (HasStop stopped → (e.closed ≡ e.opened) × (e.draining ≡ false))
    × (e.output_closed ≡ true → IsOver e.thread)
run-closes_example = run-closes Encoder.up stopped
