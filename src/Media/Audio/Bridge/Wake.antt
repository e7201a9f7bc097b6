-- ===== src/Media/Audio/Bridge/Wake.antt =====
-- audio/bridge.py: `on_frame` with `_wake` on the clock thread against `next_downlink` on the loop,
-- each cut into the steps between which the other thread may run. Callbacks of the loop run only
-- while the reader is not in the middle of a stretch without an await.
use urmet_ha.Prelude.{
  ℕ, suc, ◌-◌, ◌<◌, ◌≡◌, ◌⊎◌, Bool, true, false, List, [], ◌∷◌, arith, if◌then◌else◌, ltb, ◌||◌,
}

-- `on_frame` after its append, after its test of the flag, and after `_wake` lowered the flag.
pub data Clock : Type 0 where
  resting appended woken lowered : Clock

-- `next_downlink` before its look at the deque, after it found nothing, after the event's clearing,
-- after the flag's raising, in `wait`, and after it; `done` is a return, with a frame or the end.
pub data Reader : Type 0 where
  looking missed cleared armed sleeping roused done : Reader

pub record Threads : Type 0 where
  pub clock : Clock
  pub reader : Reader
  pub queued : ℕ
  pub waiting : Bool
  pub arrival : Bool
  -- Calls of `arrival.set` that the loop was handed and has not made.
  pub handles : ℕ
  pub closed : Bool

-- The clock thread's next step; a frame arrives where it rests.
unfoldable pub clock_step : Threads → Threads
clock_step s = elim s.clock [
  | resting ↦ record s { queued = suc s.queued; clock = appended }
  | appended ↦ record s { clock = if s.waiting then woken else resting }
  | woken ↦ record s { waiting = false; clock = lowered }
  | lowered ↦ record s { handles = suc s.handles; clock = resting }
]

-- The reader's next step; where it is done it is called again.
unfoldable pub reader_step : Threads → Threads
reader_step s = elim s.reader [
  | looking ↦
      if ltb 0 s.queued
      then record s { queued = s.queued - 1; reader = done }
      else (if s.closed then record s { reader = done } else record s { reader = missed })
  | missed ↦ record s { arrival = false; reader = cleared }
  | cleared ↦ record s { waiting = true; reader = armed }
  | armed ↦ record s { reader = if ltb 0 s.queued || s.closed then roused else sleeping }
  | sleeping ↦ if s.arrival then record s { reader = roused } else s
  | roused ↦ record s { waiting = false; reader = looking }
  | done ↦ record s { reader = looking }
]

abbrev pub is_awaiting : Reader → Bool
is_awaiting sleeping = true
is_awaiting done = true
is_awaiting _ = false

-- A callback of the loop runs where the reader awaits.
unfoldable pub loop_step : Threads → Threads
loop_step s =
    if is_awaiting s.reader
    then (if ltb 0 s.handles then record s { handles = s.handles - 1; arrival = true } else s)
    else s

-- `close`, on the loop too.
unfoldable pub close_step : Threads → Threads
close_step s = if is_awaiting s.reader then record s { closed = true; arrival = true } else s

pub data Turn : Type 0 where
  clocks reads loops closes : Turn

unfoldable pub turn : Turn → Threads → Threads
turn clocks s = clock_step s
turn reads s = reader_step s
turn loops s = loop_step s
turn closes s = close_step s

unfoldable pub schedule : List Turn → Threads → Threads
schedule [] s = s
schedule (t ∷ ts) s = schedule ts (turn t s)

unfoldable pub start : Threads
start = record {
  clock = resting;
  reader = looking;
  queued = 0;
  waiting = false;
  arrival = false;
  handles = 0;
  closed = false;
}

-- A wake-up is made or on its way.
abbrev pub IsOnItsWay : Threads → Type 0
IsOnItsWay s =
    (s.arrival ≡ true)
    ⊎ ((0 < s.handles)
        ⊎ ((s.clock ≡ lowered) ⊎ ((s.clock ≡ woken) ⊎ ((s.clock ≡ appended) × (s.waiting ≡ true)))))

abbrev pub IsSignalled : Threads → Type 0
IsSignalled s =
    (s.arrival ≡ true)
    ⊎ ((0 < s.handles) ⊎ ((s.clock ≡ lowered) ⊎ ((s.clock ≡ woken) ⊎ (s.waiting ≡ true))))

pub record IsSound (s : Threads) : Type 0 where
  pub asleep : s.reader ≡ sleeping → ((0 < s.queued) ⊎ (s.closed ≡ true)) → IsOnItsWay s
  pub signalled : ((s.reader ≡ sleeping) ⊎ (s.reader ≡ armed)) → IsSignalled s

clock-IsSound : (s : Threads) → IsSound s → IsSound (clock_step s)
unfolding clock_step
clock-IsSound s v = ground arith

reader-IsSound : (s : Threads) → IsSound s → IsSound (reader_step s)
unfolding reader_step
reader-IsSound s v = ground arith

loop-IsSound : (s : Threads) → IsSound s → IsSound (loop_step s)
unfolding loop_step
loop-IsSound s v = ground arith

close-IsSound : (s : Threads) → IsSound s → IsSound (close_step s)
unfolding close_step
close-IsSound s v = ground arith

turn-IsSound : (t : Turn) (s : Threads) → IsSound s → IsSound (turn t s)
unfolding turn
turn-IsSound clocks s v = clock-IsSound s v
turn-IsSound reads s v = reader-IsSound s v
turn-IsSound loops s v = loop-IsSound s v
turn-IsSound closes s v = close-IsSound s v

schedule-IsSound : (ts : List Turn) (s : Threads) → IsSound s → IsSound (schedule ts s)
unfolding schedule
schedule-IsSound [] s v = v
schedule-IsSound (t ∷ ts) s v = schedule-IsSound ts (turn t s) (turn-IsSound t s v)

start-IsSound : IsSound start
unfolding start
start-IsSound = ground arith

-- No frame is lost behind a wake-up, under any interleaving of the two threads: where the reader
-- sleeps while a frame is queued or the bridge is closed, the event is set, or a call that sets it
-- is with the loop, or the clock thread is on the way to making one.
pub schedule_wakes :
    (ts : List Turn)
    → (schedule ts start).reader ≡ sleeping
    → (0 < (schedule ts start).queued) ⊎ ((schedule ts start).closed ≡ true)
    → IsOnItsWay (schedule ts start)
schedule_wakes ts asleep due = (schedule-IsSound ts start start-IsSound).asleep asleep due

-- The steps that bring the wake-up home, none of which waits for a new frame.
abbrev pub homeward : Threads → List Turn
homeward s =
    if s.arrival
    then reads ∷ []
    else (if ltb 0 s.handles then loops ∷ reads ∷ [] else elim s.clock [
      | lowered ↦ clocks ∷ loops ∷ reads ∷ []
      | woken ↦ clocks ∷ clocks ∷ loops ∷ reads ∷ []
      | appended ↦ clocks ∷ clocks ∷ clocks ∷ loops ∷ reads ∷ []
      | resting ↦ []
    ])

homeward_rouses :
    (s : Threads)
    → s.reader ≡ sleeping
    → IsOnItsWay s
    → ((schedule (homeward s) s).reader ≡ roused) × ((schedule (homeward s) s).queued ≡ s.queued)
unfolding schedule turn clock_step reader_step loop_step
homeward_rouses s asleep way = ground arith

-- The sleeping reader that has a frame or an end to see gets up in at most five more steps of the
-- threads, without a further frame.
pub schedule_rouses :
    (ts : List Turn)
    → (schedule ts start).reader ≡ sleeping
    → (0 < (schedule ts start).queued) ⊎ ((schedule ts start).closed ≡ true)
    → let s = schedule ts start in
      ((schedule (homeward s) s).reader ≡ roused) × ((schedule (homeward s) s).queued ≡ s.queued)
schedule_rouses ts asleep due =
    homeward_rouses (schedule ts start) asleep (schedule_wakes ts asleep due)
