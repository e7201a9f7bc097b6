-- ===== src/Media/Video/Encoder/Descriptors.antt =====
-- encoder.py: no descriptor is closed twice or left open, and none under the thread that reads it.
use urmet_ha.Prelude.{
  ℕ, ◌+◌, ◌≤◌, ◌≡◌, ap, Bool, true, false, Option, none, some, List, [], ◌∷◌, arith,
}
use urmet_ha.Media.Video.Encoder.{
  Started, ExitCode, Demux, ended, Stop, joining, reaping, Encoder, new_encoder, start, kill,
  release_standby, begin_stop, joined, reaped, demux, Turn, Act, kills, stops, joins, reaps,
  demuxes, act, run, joins_thread, collected, is_expected, clear_workdir,
}

abbrev pub held : Bool → ℕ
held true = 1
held false = 0

abbrev pub IsOver : Option Demux → Type 0
IsOver none = Unit {0}
IsOver (some ended) = Unit {0}
IsOver (some _) = ⊥

-- Of a stop that waits for the thread it has, or has joined it.
abbrev StopFits : Option Stop → Option Demux → Type 0
StopFits (some (joining false)) thread = thread ≡ none
StopFits (some (reaping true)) thread = IsOver thread
StopFits _ thread = Unit {0}

-- What holds between any two steps.
pub record IsSound (e : Encoder) : Type 0 where
  -- The read end was opened once at most, and is held or was closed once.
  pub once : e.opened ≤ 1
  pub balance : e.closed + held e.standby ≡ e.opened
  -- The output is closed only after the thread has ended.
  pub after_thread : e.output_closed ≡ true → IsOver e.thread
  pub fits : StopFits e.stop e.thread
  pub pumped : e.process ≡ true → e.pump ≡ false → e.thread ≡ none
  -- After a kill the pipe is let go of.
  pub let_go : e.stopping ≡ true → (e.standby ≡ false) × (e.draining ≡ false)

start-IsSound : (how : Started) → IsSound (start how new_encoder)
unfolding start
start-IsSound how = ground arith

release_standby-IsSound : (e : Encoder) → IsSound e → IsSound (release_standby e)
unfolding release_standby
release_standby-IsSound e h =
    ground (arith, h.once, h.balance, h.after_thread, h.fits, h.pumped, h.let_go)

kill-IsSound : (e : Encoder) → IsSound e → IsSound (kill e)
unfolding kill release_standby
kill-IsSound e h = ground (arith, h.once, h.balance, h.after_thread, h.fits, h.pumped, h.let_go)

begin_stop-IsSound : (removed : Bool) (e : Encoder) → IsSound e → IsSound (begin_stop removed e)
unfolding begin_stop clear_workdir
begin_stop-IsSound removed e h =
    let k = kill-IsSound e h in
    ground (arith, k.once, k.balance, k.after_thread, k.fits, k.pumped, k.let_go)

joined-IsSound : (e : Encoder) → IsSound e → IsSound (joined e)
unfolding joined joins_thread
joined-IsSound e h = ground (arith, h.once, h.balance, h.after_thread, h.fits, h.pumped, h.let_go)

reaped-IsSound :
    (code : Option ExitCode) (removed : Bool) (e : Encoder)
    → IsSound e
    → IsSound (reaped code removed e)
unfolding reaped collected clear_workdir is_expected
reaped-IsSound code removed e h =
    ground (arith, h.once, h.balance, h.after_thread, h.fits, h.pumped, h.let_go)

demux-IsSound : (turn : Turn) (e : Encoder) → IsSound e → IsSound (demux turn e)
unfolding demux release_standby
demux-IsSound turn e h =
    ground (arith, h.once, h.balance, h.after_thread, h.fits, h.pumped, h.let_go)

act-IsSound : (a : Act) (e : Encoder) → IsSound e → IsSound (act a e)
unfolding act
act-IsSound kills e h = kill-IsSound e h
act-IsSound (stops removed) e h = begin_stop-IsSound removed e h
act-IsSound joins e h = joined-IsSound e h
act-IsSound (reaps code removed) e h = reaped-IsSound code removed e h
act-IsSound (demuxes turn) e h = demux-IsSound turn e h

-- Stopping is for good.
act-stopping : (a : Act) (e : Encoder) → e.stopping ≡ true → (act a e).stopping ≡ true
unfolding act kill release_standby begin_stop clear_workdir joined reaped collected demux
act-stopping a e h = ground (arith, h)

act-kills :
    (removed : Bool) (e : Encoder)
    → ((act kills e).stopping ≡ true) × ((act (stops removed) e).stopping ≡ true)
unfolding act kill release_standby begin_stop clear_workdir
act-kills removed e = ground arith

abbrev pub HasStop : List Act → Type 0
HasStop [] = ⊥
HasStop (kills ∷ acts) = Unit {0}
HasStop (stops removed ∷ acts) = Unit {0}
HasStop (_ ∷ acts) = HasStop acts

run-IsSound :
    (acts : List Act) (e : Encoder)
    → IsSound e
    → IsSound (run acts e) × (e.stopping ≡ true → (run acts e).stopping ≡ true)
unfolding run
run-IsSound [] e h = (h, λ s. s)
run-IsSound (a ∷ acts) e h =
    let rest = run-IsSound acts (act a e) (act-IsSound a e h) in
    (rest.0, λ s. rest.1 (act-stopping a e s))

run-HasStop :
    (acts : List Act) (e : Encoder) → IsSound e → HasStop acts → (run acts e).stopping ≡ true
unfolding run
run-HasStop [] e h s = absurd s
run-HasStop (kills ∷ acts) e h s =
    (run-IsSound acts (act kills e) (act-IsSound kills e h)).1 (act-kills true e).0
run-HasStop (stops removed ∷ acts) e h s =
    (run-IsSound acts (act (stops removed) e) (act-IsSound (stops removed) e h)).1
      (act-kills removed e).1
run-HasStop (joins ∷ acts) e h s = run-HasStop acts (act joins e) (act-IsSound joins e h) s
run-HasStop (reaps code removed ∷ acts) e h s =
    run-HasStop acts (act (reaps code removed) e) (act-IsSound (reaps code removed) e h) s
run-HasStop (demuxes turn ∷ acts) e h s =
    run-HasStop acts (act (demuxes turn) e) (act-IsSound (demuxes turn) e h) s

-- However an encoder's start ends, and whatever the loop and the demux thread do after it, in any
-- order: the read end of the pipe is opened once at most and never closed more often than that; once a
-- kill or a stop is among the calls, it is closed if it was opened, whichever of the two let go of it
-- first, and the encoder is not draining; and the encoder's output is closed only when no thread reads
-- it any more.
pub run-closes :
    (how : Started) (acts : List Act)
    → let e = run acts (start how new_encoder) in
      (e.opened ≤ 1)
      × (e.closed ≤ e.opened)
      × (HasStop acts → (e.closed ≡ e.opened) × (e.draining ≡ false))
      × (e.output_closed ≡ true → IsOver e.thread)
run-closes how acts =
    let first = start-IsSound how in
    let s = (run-IsSound acts (start how new_encoder) first).0 in
    (
      s.once,
      omega (arith, s.balance),
      λ stopped.
          let gone = s.let_go (run-HasStop acts (start how new_encoder) first stopped) in
          (omega (arith, s.balance, ap held gone.0), gone.1),
      s.after_thread,
    )
