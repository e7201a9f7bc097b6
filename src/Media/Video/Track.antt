-- ===== src/Media/Video/Track.antt =====
-- addon/urmet-gateway/urmet_gateway/media/track.py: the track of the picture. A packet is known by
-- its presentation time; the clock is read in ticks since the origin. `submit` runs on the demux
-- thread, the calls that it and `stop` leave with the loop run there in order.
pub mod Rising
pub mod Stamps
pub mod Ending
use urmet_ha.Prelude.{
  ℕ, suc, ◌+◌, Bool, true, false, Option, none, some, List, [], ◌∷◌, ◌++◌, max, leb, if◌then◌else◌,
  length,
}
use urmet_ha.Media.Queue.{push, drop_oldest}

abbrev pub queue_depth : ℕ
queue_depth = 60

-- `least` is `_last_ticks + 1`, which starts at 0. `handed` has the calls that are with the loop: a
-- packet for `_enqueue`, or nothing, which `stop` puts in the queue.
pub record Track : Type 0 where
  pub depth : ℕ
  pub live : Bool
  pub least : ℕ
  pub handed : List (Option ℕ)
  pub queue : List (Option ℕ)
  pub sent : ℕ
  pub dropped : ℕ

-- `VideoPacketTrack.__init__`
unfoldable pub new_track : ℕ → Track
new_track depth = record {
  depth = depth;
  live = true;
  least = 0;
  handed = [];
  queue = [];
  sent = 0;
  dropped = 0;
}

-- `submit`, at a reading of the clock, on a loop that is open or is closed.
unfoldable pub submit : Bool → ℕ → Track → Track
submit loop_open elapsed t =
    let ticks = max t.least elapsed in
    if t.live
    then record t {
      least = suc ticks;
      handed = if loop_open then t.handed ++ some ticks ∷ [] else t.handed;
    }
    else t

-- `_enqueue`
unfoldable pub enqueue : ℕ → Track → Track
enqueue ticks t = record t {
  dropped = if leb t.depth (length t.queue) then suc t.dropped else t.dropped;
  queue = push t.depth (some ticks) t.queue;
}

-- `put_nowait(None)` raises on a full queue, and the loop only logs that.
unfoldable pub put_end : Track → Track
put_end t = if leb t.depth (length t.queue) then t else record t { queue = t.queue ++ none ∷ [] }

-- The loop runs the first call that is with it.
unfoldable pub loop_turn : Track → Track
unfolding enqueue put_end
loop_turn t = elim t.handed [
  | [] ↦ t
  | none ∷ rest ↦ put_end (record t { handed = rest })
  | some ticks ∷ rest ↦ enqueue ticks (record t { handed = rest })
]

-- How a `recv` ends, or that it waits.
pub data Received : Type 0 where
  packet : ℕ → Received
  ended : Received
  waits : Received

-- `recv`
unfoldable pub recv : Track → Track × Received
recv t = elim t.queue [
  | [] ↦ (t, waits)
  | none ∷ rest ↦ (record t { queue = rest }, ended)
  | some ticks ∷ rest ↦
      if t.live
      then (record t { queue = rest; sent = suc t.sent }, packet ticks)
      else (record t { queue = rest }, ended)
]

-- `stop`
unfoldable pub stop : Bool → Track → Track
stop loop_open t = record t {
  live = false;
  handed = if loop_open then t.handed ++ none ∷ [] else t.handed;
}
