-- ===== src/Media/Audio/Bridge/Conservation.antt =====
-- audio/bridge.py: every frame is accounted for, in both directions, with the two threads step by step.
-- `on_frame`, `next_frame` and `push_uplink` are cut between their look at a queue, what they do to it
-- and their count; the other calls take from a queue once, or set one field.
use urmet_ha.Prelude.{
  ℕ, suc, ◌+◌, ◌≤◌, ◌<◌, ◌≡◌, Bool, true, false, Option, none, some, is_some, List, [], ◌∷◌, ◌++◌,
  arith, length, length-append, String, ◌==◌, ltb, if◌then◌else◌,
}
use urmet_ha.Media.Queue.{length-push}
use urmet_ha.Media.Audio.Bridge.{
  AudioBridge, audio_bridge, wake, on_frame_looks, on_frame_appends, on_frame_ends, next_frame_pops,
  next_frame_ends, next_downlink, push_uplink_looks, push_uplink_appends, close, delivered,
  partial_frame, stopped, Look, frame, over, sleeps,
}

-- Where the clock thread is: at rest; in `on_frame` before its append, with whether it counted a drop,
-- and after it; in `next_frame` before its count.
pub data Clock : Type 0 where
  resting : Clock
  looked : (counted is_open : Bool) (cost : ℕ) (pcm : List ℕ) → Clock
  appended : (is_open : Bool) (cost : ℕ) → Clock
  popped : (cost : ℕ) (got : Option (List ℕ)) → Clock

-- Where the loop is: between two calls, or in `push_uplink` before its append.
pub data Loop : Type 0 where
  free : Loop
  pushing : (counted : Bool) (pcm : List ℕ) → Loop

-- A step of a thread. A call begins where its thread is between two calls, and is skipped elsewhere.
pub data Step : Type 0 where
  arrives : Bool → ℕ → List ℕ → Step
  supplies : ℕ → Step
  clock_goes_on : Step
  looks : Step
  pushes : List ℕ → Step
  loop_goes_on : Step
  closes delivers partials : Step
  stops : String → Step

-- A bridge and its two threads, with what is seen of it from outside: the frames that the reader was
-- handed, oldest first, how many the browser pushed and how often the panel asked; for each direction
-- how often a drop was counted and none came of it, and how many frames were taken between another
-- one's look at the queue and its append.
pub record History : Type 0 where
  pub bridge : AudioBridge
  pub clock : Clock
  pub loop : Loop
  pub handed : List (List ℕ)
  pub pushed : ℕ
  pub asked : ℕ
  pub spared_downlink : ℕ
  pub spared_uplink : ℕ
  pub taken_downlink : ℕ
  pub taken_uplink : ℕ

abbrev handed_by : Look → List (List ℕ)
handed_by (frame pcm) = pcm ∷ []
handed_by over = []
handed_by sleeps = []

abbrev is_looked : Clock → Bool
is_looked (looked counted is_open cost pcm) = true
is_looked _ = false

abbrev is_pushing : Loop → Bool
is_pushing (pushing counted pcm) = true
is_pushing free = false

abbrev number : Bool → ℕ
number true = 1
number false = 0

-- A drop that was counted, of a queue that has room by now.
abbrev is_spared : Bool → List (List ℕ) → ℕ → Bool
is_spared counted queue backlog = if counted then ltb (length queue) backlog else false

-- The clock thread's calls, and their next steps.
unfoldable pub clock_step : Step → History → History
clock_step (arrives is_open cost pcm) h = elim h.clock [
  | resting ↦ record h {
    bridge = on_frame_looks h.bridge;
    clock = looked (length h.bridge.downlink == h.bridge.backlog) is_open cost pcm;
  }
  | looked counted o c p ↦ h
  | appended o c ↦ h
  | popped c g ↦ h
]
clock_step (supplies cost) h = elim h.clock [
  | resting ↦
      let (b, got) = next_frame_pops h.bridge in
      record h {
        bridge = b;
        clock = popped cost got;
        asked = suc h.asked;
        taken_uplink =
            if is_pushing h.loop then h.taken_uplink + number (is_some got) else h.taken_uplink;
      }
  | looked counted o c p ↦ h
  | appended o c ↦ h
  | popped c g ↦ h
]
clock_step clock_goes_on h = elim h.clock [
  | resting ↦ h
  | looked counted is_open cost pcm ↦ record h {
    bridge = on_frame_appends pcm h.bridge;
    clock = appended is_open cost;
    spared_downlink =
        h.spared_downlink + number (is_spared counted h.bridge.downlink h.bridge.backlog);
  }
  | appended is_open cost ↦ record h {
    bridge = (on_frame_ends is_open cost h.bridge).0;
    clock = resting;
  }
  | popped cost got ↦ record h { bridge = next_frame_ends cost got h.bridge; clock = resting }
]
clock_step _ h = h

-- The loop's calls where it is between two, and the rest of `push_uplink`.
unfoldable pub free_step : Step → History → History
free_step looks h =
    let (b, look) = next_downlink h.bridge in
    record h {
      bridge = b;
      handed = h.handed ++ handed_by look;
      taken_downlink =
          if is_looked h.clock
          then h.taken_downlink + length (handed_by look)
          else h.taken_downlink;
    }
free_step (pushes pcm) h = record h {
  bridge = push_uplink_looks h.bridge;
  loop = pushing (length h.bridge.uplink == h.bridge.backlog) pcm;
}
free_step closes h = record h { bridge = close h.bridge }
free_step delivers h = record h { bridge = delivered h.bridge }
free_step partials h = record h { bridge = partial_frame h.bridge }
free_step (stops reason) h = record h { bridge = stopped reason h.bridge }
free_step _ h = h

unfoldable pub loop_step : Step → History → History
unfolding free_step
loop_step loop_goes_on h = elim h.loop [
  | free ↦ h
  | pushing counted pcm ↦ record h {
    bridge = push_uplink_appends pcm h.bridge;
    loop = free;
    pushed = suc h.pushed;
    spared_uplink = h.spared_uplink + number (is_spared counted h.bridge.uplink h.bridge.backlog);
  }
]
loop_step s h = elim h.loop [ free ↦ free_step s h | pushing counted pcm ↦ h ]

unfoldable pub step : Step → History → History
unfolding clock_step loop_step
step (arrives is_open cost pcm) h = clock_step (arrives is_open cost pcm) h
step (supplies cost) h = clock_step (supplies cost) h
step clock_goes_on h = clock_step clock_goes_on h
step s h = loop_step s h

unfoldable pub steps : List Step → History → History
steps [] h = h
steps (s ∷ ss) h = steps ss (step s h)

unfoldable pub opened : ℕ → History
opened backlog = record {
  bridge = audio_bridge backlog;
  clock = resting;
  loop = free;
  handed = [];
  pushed = 0;
  asked = 0;
  spared_downlink = 0;
  spared_uplink = 0;
  taken_downlink = 0;
  taken_uplink = 0;
}

-- What the counters have yet to be told, of the call that the thread is in.
abbrev pub uncounted : Clock → ℕ
uncounted (appended is_open cost) = 1
uncounted _ = 0

abbrev pub unsupplied : Clock → ℕ
unsupplied (popped cost (some pcm)) = 1
unsupplied _ = 0

abbrev pub unanswered : Clock → ℕ
unanswered (popped cost got) = 1
unanswered _ = 0

-- A drop that is counted and has not come.
abbrev pub early_downlink : Clock → ℕ
early_downlink (looked counted is_open cost pcm) = number counted
early_downlink _ = 0

abbrev pub early_uplink : Loop → ℕ
early_uplink (pushing counted pcm) = number counted
early_uplink free = 0

-- The drop that is counted will not come, since the queue has room by now.
abbrev pub sparing_downlink : Clock → List (List ℕ) → ℕ → ℕ
sparing_downlink (looked counted is_open cost pcm) queue backlog =
    number (is_spared counted queue backlog)
sparing_downlink _ queue backlog = 0

abbrev pub sparing_uplink : Loop → List (List ℕ) → ℕ → ℕ
sparing_uplink (pushing counted pcm) queue backlog = number (is_spared counted queue backlog)
sparing_uplink free queue backlog = 0

-- A look that counted no drop leaves room for the append.
abbrev pub KeepsRoom : Clock → ℕ → ℕ → Type 0
KeepsRoom (looked counted is_open cost pcm) n backlog = counted ≡ false → n < backlog
KeepsRoom _ n backlog = Unit {0}

abbrev pub KeepsPushRoom : Loop → ℕ → ℕ → Type 0
KeepsPushRoom (pushing counted pcm) n backlog = counted ≡ false → n < backlog
KeepsPushRoom free n backlog = Unit {0}

-- From the panel: handed on, waiting, or counted as dropped; from the browser: supplied, waiting, or
-- counted as dropped; but for the drops that were counted and did not come, which are no more than
-- the frames taken between a look and its append. The panel was answered with a frame or a counted
-- silence each time. Both but for what the call a thread is in has yet to count.
pub record IsBalanced (backlog : ℕ) (h : History) : Type 0 where
  pub bound : h.bridge.backlog ≡ backlog
  pub down :
      length h.handed + h.bridge.dropped_downlink + length h.bridge.downlink
      ≡ h.bridge.received + h.spared_downlink + (uncounted h.clock + early_downlink h.clock)
  pub up :
      h.bridge.supplied + h.bridge.dropped_uplink + length h.bridge.uplink + unsupplied h.clock
      ≡ h.pushed + h.spared_uplink + early_uplink h.loop
  pub answered : h.bridge.supplied + h.bridge.underruns + unanswered h.clock ≡ h.asked
  pub down_bound : length h.bridge.downlink ≤ backlog
  pub up_bound : length h.bridge.uplink ≤ backlog
  pub down_room : KeepsRoom h.clock (length h.bridge.downlink) backlog
  pub up_room : KeepsPushRoom h.loop (length h.bridge.uplink) backlog
  pub down_spared :
      h.spared_downlink + sparing_downlink h.clock h.bridge.downlink backlog ≤ h.taken_downlink
  pub up_spared : h.spared_uplink + sparing_uplink h.loop h.bridge.uplink backlog ≤ h.taken_uplink

module _ (backlog : ℕ) where
  abbrev AtClock : Clock → Step → Type 0
  AtClock k s =
      (h : History)
      → 0 < backlog
      → IsBalanced backlog (record h { clock = k })
      → IsBalanced backlog (clock_step s (record h { clock = k }))

  on_frame-IsBalanced :
      (k : Clock) (is_open : Bool) (cost : ℕ) (pcm : List ℕ) → AtClock k (arrives is_open cost pcm)
  unfolding clock_step on_frame_looks
  on_frame-IsBalanced resting is_open cost pcm h pos v = ground (arith, v)
  on_frame-IsBalanced (looked counted o c p) is_open cost pcm h pos v = v
  on_frame-IsBalanced (appended o c) is_open cost pcm h pos v = v
  on_frame-IsBalanced (popped c g) is_open cost pcm h pos v = v

  next_frame-IsBalanced : (k : Clock) (cost : ℕ) → AtClock k (supplies cost)
  unfolding clock_step next_frame_pops
  next_frame-IsBalanced resting cost h pos v = ground (arith, v)
  next_frame-IsBalanced (looked counted o c p) cost h pos v = v
  next_frame-IsBalanced (appended o c) cost h pos v = v
  next_frame-IsBalanced (popped c g) cost h pos v = v

  clock_goes_on-IsBalanced : (k : Clock) → AtClock k clock_goes_on
  unfolding clock_step on_frame_appends on_frame_ends wake next_frame_ends
  clock_goes_on-IsBalanced resting h pos v = v
  clock_goes_on-IsBalanced (looked true is_open cost pcm) h pos v =
      ground (arith, v, length-push backlog pcm h.bridge.downlink)
  clock_goes_on-IsBalanced (looked false is_open cost pcm) h pos v =
      ground (arith, v, length-push backlog pcm h.bridge.downlink)
  clock_goes_on-IsBalanced (appended is_open cost) h pos v = ground (arith, v)
  clock_goes_on-IsBalanced (popped cost none) h pos v = ground (arith, v)
  clock_goes_on-IsBalanced (popped cost (some pcm)) h pos v = ground (arith, v)

  abbrev AtLoop : Loop → Step → Type 0
  AtLoop k s =
      (h : History)
      → 0 < backlog
      → IsBalanced backlog (record h { loop = k })
      → IsBalanced backlog (loop_step s (record h { loop = k }))

  loop_goes_on-IsBalanced : (k : Loop) → AtLoop k loop_goes_on
  unfolding loop_step push_uplink_appends
  loop_goes_on-IsBalanced free h pos v = v
  loop_goes_on-IsBalanced (pushing true pcm) h pos v =
      ground (arith, v, length-push backlog pcm h.bridge.uplink)
  loop_goes_on-IsBalanced (pushing false pcm) h pos v =
      ground (arith, v, length-push backlog pcm h.bridge.uplink)

  looks-IsBalanced :
      (k : Clock) (h : History)
      → IsBalanced backlog (record h { clock = k; loop = free })
      → IsBalanced backlog (free_step looks (record h { clock = k; loop = free }))
  unfolding free_step next_downlink
  looks-IsBalanced k h v =
      ground (arith, v, length-append h.handed (handed_by (next_downlink h.bridge).1))

  free_step-IsBalanced :
      (s : Step) (h : History)
      → IsBalanced backlog (record h { loop = free })
      → IsBalanced backlog (free_step s (record h { loop = free }))
  unfolding free_step push_uplink_looks close delivered partial_frame stopped
  free_step-IsBalanced looks h v = looks-IsBalanced h.clock h v
  free_step-IsBalanced (pushes pcm) h v = ground (arith, v)
  free_step-IsBalanced s h v = ground (arith, v)

  loop_step-IsBalanced : (k : Loop) (s : Step) → AtLoop k s
  unfolding loop_step
  loop_step-IsBalanced k loop_goes_on h pos v = loop_goes_on-IsBalanced k h pos v
  loop_step-IsBalanced free s h pos v = free_step-IsBalanced s h v
  loop_step-IsBalanced (pushing counted pcm) s h pos v = v

  step-IsBalanced :
      (s : Step) (h : History) → 0 < backlog → IsBalanced backlog h → IsBalanced backlog (step s h)
  unfolding step
  step-IsBalanced (arrives is_open cost pcm) h pos v =
      on_frame-IsBalanced h.clock is_open cost pcm h pos v
  step-IsBalanced (supplies cost) h pos v = next_frame-IsBalanced h.clock cost h pos v
  step-IsBalanced clock_goes_on h pos v = clock_goes_on-IsBalanced h.clock h pos v
  step-IsBalanced s h pos v = loop_step-IsBalanced h.loop s h pos v

  steps-IsBalanced :
      (ss : List Step) (h : History)
      → 0 < backlog
      → IsBalanced backlog h
      → IsBalanced backlog (steps ss h)
  unfolding steps
  steps-IsBalanced [] h pos v = v
  steps-IsBalanced (s ∷ ss) h pos v = steps-IsBalanced ss (step s h) pos (step-IsBalanced s h pos v)

-- After any steps of the clock thread and the loop on a new bridge, in any order, the calls that look
-- at a queue, change it and count cut between these: every frame of the panel was handed on, waits, or is counted as
-- dropped; so was every frame of the browser; every request of the panel got a frame or is counted as
-- silence; and neither queue is over the backlog. A drop may be counted that does not come, no more
-- often than a frame was taken between the look that counted it and the append.
pub steps-opened-IsBalanced :
    (backlog : ℕ) (ss : List Step) → 0 < backlog → IsBalanced backlog (steps ss (opened backlog))
unfolding opened audio_bridge
steps-opened-IsBalanced backlog ss pos =
    steps-IsBalanced backlog ss (opened backlog) pos (ground arith)
