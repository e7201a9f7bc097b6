-- ===== src/Media/Audio/Bridge.antt =====
-- addon/urmet-gateway/urmet_gateway/media/audio/bridge.py: the bridge between the clock thread and
-- the event loop, method by method, and in the parts between which the other thread may come. Conservation and
-- Wake have the threads interleaved step by step.
pub mod Conservation
pub mod Wake
mod Examples
use urmet_ha.Prelude.{
  ℕ, suc, zero, ◌+◌, ◌-◌, ◌*◌, ◌/◌, ◌%◌, String, Bool, true, false, Option, none, some, List, [],
  ◌∷◌, ◌++◌, leb, ltb, ◌==◌, if◌then◌else◌, length, take, min, or_else,
}
use urmet_ha.Media.Queue.{push}

abbrev pub backlog_frames : ℕ
backlog_frames = 20

abbrev pub timing_window : ℕ
timing_window = 2000

-- What the callbacks cost, in a unit of the clock's.
pub record Timings : Type 0 where
  pub window : ℕ
  pub samples : List ℕ
  pub at : ℕ
  pub filled : ℕ
  pub max : ℕ

replicate : ℕ → List ℕ
replicate zero = []
replicate (suc n) = 0 ∷ replicate n

-- `Timings.__init__`
unfoldable pub timings : ℕ → Timings
unfolding replicate
timings window = record { window = window; samples = replicate window; at = 0; filled = 0; max = 0 }

set_sample : List ℕ → ℕ → ℕ → List ℕ
set_sample [] i v = []
set_sample (x ∷ xs) zero v = v ∷ xs
set_sample (x ∷ xs) (suc i) v = x ∷ set_sample xs i v

-- `Timings.record`
unfoldable pub record_timing : ℕ → Timings → Timings
unfolding set_sample
record_timing cost t = record {
  window = t.window;
  samples = set_sample t.samples t.at cost;
  at = (t.at + 1) % t.window;
  filled = if ltb t.filled t.window then suc t.filled else t.filled;
  max = if ltb t.max cost then cost else t.max;
}

insert_sorted : ℕ → List ℕ → List ℕ
insert_sorted x [] = x ∷ []
insert_sorted x (y ∷ ys) = if leb x y then x ∷ y ∷ ys else y ∷ insert_sorted x ys

sorted : List ℕ → List ℕ
unfolding insert_sorted
sorted [] = []
sorted (x ∷ xs) = insert_sorted x (sorted xs)

nth : List ℕ → ℕ → ℕ
nth [] i = 0
nth (x ∷ xs) zero = x
nth (x ∷ xs) (suc i) = nth xs i

-- `Timings.p99_s`; `int(filled * 0.99)` is the quotient by a hundred.
unfoldable pub p99 : Timings → ℕ
unfolding sorted nth
p99 t =
    if t.filled == 0
    then 0
    else nth (sorted (take t.filled t.samples)) (min (t.filled - 1) (t.filled * 99 / 100))

pub record AudioBridge : Type 0 where
  pub backlog : ℕ
  pub downlink : List (List ℕ)
  pub uplink : List (List ℕ)
  pub waiting : Bool
  pub closed : Bool
  pub arrival : Bool
  pub timings : Timings
  pub received : ℕ
  pub supplied : ℕ
  pub underruns : ℕ
  pub dropped_downlink : ℕ
  pub dropped_uplink : ℕ
  pub unreachable_loop : ℕ
  pub packets_delivered : ℕ
  pub partial_frames : ℕ
  pub stop_reason : String

-- `AudioBridge.__init__`
unfoldable pub audio_bridge : ℕ → AudioBridge
audio_bridge backlog = record {
  backlog = backlog;
  downlink = [];
  uplink = [];
  waiting = false;
  closed = false;
  arrival = false;
  timings = timings timing_window;
  received = 0;
  supplied = 0;
  underruns = 0;
  dropped_downlink = 0;
  dropped_uplink = 0;
  unreachable_loop = 0;
  packets_delivered = 0;
  partial_frames = 0;
  stop_reason = String.[];
}

-- `_wake`, on a loop that is there or is closed; whether the event is to be set.
unfoldable pub wake : Bool → AudioBridge → AudioBridge × Bool
wake loop_open b =
    if loop_open
    then (record b { waiting = false }, true)
    else (record b { waiting = false; unreachable_loop = suc b.unreachable_loop }, false)

-- `on_frame` up to its append: a full queue is counted.
unfoldable pub on_frame_looks : AudioBridge → AudioBridge
on_frame_looks b = record b {
  dropped_downlink =
      if length b.downlink == b.backlog then suc b.dropped_downlink else b.dropped_downlink;
}

unfoldable pub on_frame_appends : List ℕ → AudioBridge → AudioBridge
on_frame_appends pcm b = record b { downlink = push b.backlog pcm b.downlink }

-- `on_frame` from the count of the frame on.
unfoldable pub on_frame_ends : Bool → ℕ → AudioBridge → AudioBridge × Bool
unfolding wake
on_frame_ends loop_open cost b =
    let taken : AudioBridge = record b { received = suc b.received } in
    let (b', scheduled) = if b.waiting then wake loop_open taken else (taken, false) in
    (record b' { timings = record_timing cost b'.timings }, scheduled)

-- `on_frame`, with what it cost and whether the loop is there; whether a wake-up was scheduled.
unfoldable pub on_frame : Bool → ℕ → List ℕ → AudioBridge → AudioBridge × Bool
unfolding on_frame_looks on_frame_appends on_frame_ends
on_frame loop_open cost pcm b =
    on_frame_ends loop_open cost (on_frame_appends pcm (on_frame_looks b))

-- `next_frame` up to its count
unfoldable pub next_frame_pops : AudioBridge → AudioBridge × Option (List ℕ)
next_frame_pops b = elim b.uplink [
  | [] ↦ (b, none)
  | pcm ∷ rest ↦ (record b { uplink = rest }, some pcm)
]

unfoldable pub next_frame_ends : ℕ → Option (List ℕ) → AudioBridge → AudioBridge
next_frame_ends cost got b =
    let timed = record_timing cost b.timings in
    elim got [
      | none ↦ record b { underruns = suc b.underruns; timings = timed }
      | some _ ↦ record b { supplied = suc b.supplied; timings = timed }
    ]

-- `next_frame`
unfoldable pub next_frame : ℕ → AudioBridge → AudioBridge × Option (List ℕ)
unfolding next_frame_pops next_frame_ends
next_frame cost b = let (popped, got) = next_frame_pops b in (next_frame_ends cost got popped, got)

-- How one look of `next_downlink` ends.
pub data Look : Type 0 where
  frame : List ℕ → Look
  over : Look
  sleeps : Look

-- `next_downlink` up to its return or its await, with no frame arriving within it.
unfoldable pub next_downlink : AudioBridge → AudioBridge × Look
next_downlink b = elim b.downlink [
  | pcm ∷ rest ↦ (record b { downlink = rest }, frame pcm)
  | [] ↦ if b.closed then (b, over) else (record b { arrival = false; waiting = true }, sleeps)
]

-- `push_uplink` up to its append
unfoldable pub push_uplink_looks : AudioBridge → AudioBridge
push_uplink_looks b = record b {
  dropped_uplink = if length b.uplink == b.backlog then suc b.dropped_uplink else b.dropped_uplink;
}

unfoldable pub push_uplink_appends : List ℕ → AudioBridge → AudioBridge
push_uplink_appends pcm b = record b { uplink = push b.backlog pcm b.uplink }

-- `push_uplink`
unfoldable pub push_uplink : List ℕ → AudioBridge → AudioBridge
unfolding push_uplink_looks push_uplink_appends
push_uplink pcm b = push_uplink_appends pcm (push_uplink_looks b)

-- `close`
unfoldable pub close : AudioBridge → AudioBridge
close b = record b { closed = true; arrival = true }

-- `delivered`
unfoldable pub delivered : AudioBridge → AudioBridge
delivered b = record b { packets_delivered = suc b.packets_delivered }

-- `partial_frame`
unfoldable pub partial_frame : AudioBridge → AudioBridge
partial_frame b = record b { partial_frames = suc b.partial_frames }

-- `stopped`: the first reason is the one kept.
unfoldable pub stopped : String → AudioBridge → AudioBridge
stopped reason b = record b { stop_reason = or_else b.stop_reason reason }
