-- ===== src/Media/Video/Pipeline/Generation.antt =====
-- media/pipeline.py: a generation names one encoder run.
use urmet_ha.Prelude.{
  ℕ, suc, ◌≤◌, ◌<◌, ◌≡◌, refl, ◌∙◌, ◌⊎◌, inl, inr, Bool, true, false, Option, none, some, List, [],
  ◌∷◌, ◌++◌, if◌then◌else◌, arith, Option-cases,
}
use urmet_ha.Domain.Errors.{Outcome, ok, raised, stale_arm, downlink_not_started}
use urmet_ha.Media.Video.Pipeline.{
  Downlink, start_run, stop_run, start, arm, restart, aclose, pull_the_plug, opens, closes,
}

-- What the loop does with a pipeline, each await with what is begun and ended within it.
mutual
  pub data DownAct : Type 0 where
    starts : Bool → DownActs → DownAct
    arms : ℕ → Bool → DownActs → Outcome ℕ → DownActs → Outcome (Unit {0}) → DownAct
    restarts : DownActs → DownActs → Bool → DownActs → DownAct
    ends : DownActs → DownActs → DownAct
    stalls : DownActs → Outcome (Unit {0}) → DownActs → DownActs → DownAct

  pub data DownActs : Type 0 where
    idle : DownActs
    then_ : DownAct → DownActs → DownActs

unfoldable mutual
  pub down_act : DownAct → Downlink → Downlink
  down_act (starts up m) d = (start up (down_acts m) d).1
  down_act (arms g draining m r n c) d = (arm g draining (down_acts m) r (down_acts n) c d).1
  down_act (restarts m n up k) d = (restart (down_acts m) (down_acts n) up (down_acts k) d).1
  down_act (ends m n) d = aclose (down_acts m) (down_acts n) d
  down_act (stalls m o n k) d = pull_the_plug (down_acts m) o (down_acts n) (down_acts k) d

  pub down_acts : DownActs → Downlink → Downlink
  down_acts idle d = d
  down_acts (then_ a as_) d = down_acts as_ (down_act a d)

-- The generation went up, or neither it nor the run changed.
abbrev pub IsOnward : Downlink → Downlink → Type 0
IsOnward d e = (d.generation < e.generation) ⊎ ((d.generation ≡ e.generation) × (d.run ≡ e.run))

IsOnward-trans : (c d e : Downlink) → IsOnward c d → IsOnward d e → IsOnward c e
IsOnward-trans c d e (inl p) (inl q) = inl (omega arith)
IsOnward-trans c d e (inl p) (inr q) = inl (omega (arith, q.0))
IsOnward-trans c d e (inr p) (inl q) = inl (omega (arith, p.0))
IsOnward-trans c d e (inr p) (inr q) = inr (p.0 ∙ q.0, p.1 ∙ q.1)

abbrev GoesOn : (Downlink → Downlink) → Type 0
GoesOn f = (d : Downlink) → IsOnward d (f d)

stopped-IsOnward :
    (n : Downlink → Downlink)
    → GoesOn n
    → (w : Downlink)
    → IsOnward w (elim w.run [
      | none ↦ w
      | some _ ↦ n (record w { run = none; generation = suc w.generation })
    ])
stopped-IsOnward n q w = go w.run
  where
    go :
        (r : Option ℕ)
        → IsOnward w (elim r [
          | none ↦ w
          | some _ ↦ n (record w { run = none; generation = suc w.generation })
        ])
    go none = inr (refl, refl)
    go (some r) =
        let w' : Downlink = record w { run = none; generation = suc w.generation } in
        IsOnward-trans w w' (n w') (inl (omega arith)) (q w')

stop_run-IsOnward : (m n : Downlink → Downlink) → GoesOn m → GoesOn n → GoesOn (stop_run m n)
unfolding stop_run
stop_run-IsOnward m n p q d =
    let unwatched : Downlink = record d { watched = false } in
    let waited = if d.watched then m unwatched else unwatched in
    IsOnward-trans d waited (stop_run m n d) (go d.watched) (stopped-IsOnward n q waited)
  where
    go :
        (w : Bool)
        → IsOnward d (if w then m (record d { watched = false }) else record d { watched = false })
    go true = p (record d { watched = false })
    go false = inr (refl, refl)

start_run-up :
    (up : Bool) (m : Downlink → Downlink)
    → GoesOn m
    → (d : Downlink) → d.generation < (start_run up m d).1.generation
unfolding start_run
start_run-up true m p d = omega arith
start_run-up false m p d =
    let begun : Downlink = record d { generation = suc d.generation; runs = suc d.runs } in
    let q = p begun in ground (arith, q)

restart-IsOnward :
    (m n k : Downlink → Downlink) (up : Bool)
    → GoesOn m
    → GoesOn n
    → GoesOn k
    → (d : Downlink)
    → IsOnward d (restart m n up k d).1
      × (d.has_track ≡ true → d.generation < (restart m n up k d).1.generation)
unfolding restart
restart-IsOnward m n k up p q r d =
    let stopped = stop_run-IsOnward m n p q d in
    let started = start_run-up up k r (stop_run m n d) in
    let above : d.generation < (start_run up k (stop_run m n d)).1.generation = elim stopped [
      | inl lt ↦ omega (arith, started)
      | inr same ↦ omega (arith, started, same.0)
    ] in
    go d.has_track above
  where
    go :
        (b : Bool)
        → d.generation < (start_run up k (stop_run m n d)).1.generation
        → let out : Downlink =
            (if b then start_run up k (stop_run m n d) else (raised downlink_not_started, d)).1 in
          IsOnward d out × (b ≡ true → d.generation < out.generation)
    go true h = (inl h, λ e. h)
    go false h = (inr (refl, refl), λ e. ground (arith, e))

arm-IsOnward :
    (g : ℕ) (draining : Bool) (m : Downlink → Downlink) (o : Outcome ℕ) (n : Downlink → Downlink)
    (c : Outcome (Unit {0}))
    → GoesOn m
    → GoesOn n
    → GoesOn (λ d. (arm g draining m o n c d).1)
unfolding arm
arm-IsOnward g draining m o n c p q d = elim (Option-cases d.run) [
  | inl missing ↦ ground (arith, missing)
  | inr (r, e) ↦
      let asked : Downlink = record d { tap = d.tap ++ opens r g ∷ [] } in
      let waited = m asked in
      let closing : Downlink = record waited { tap = waited.tap ++ closes ∷ [] } in
      let first = p asked in
      let then_closed = IsOnward-trans d waited (n closing) first (q closing) in
      ground (arith, e, first, then_closed)
]

pull_the_plug-IsOnward :
    (m : Downlink → Downlink) (o : Outcome (Unit {0})) (n k : Downlink → Downlink)
    → GoesOn m
    → GoesOn n
    → GoesOn k
    → GoesOn (pull_the_plug m o n k)
unfolding pull_the_plug
pull_the_plug-IsOnward m o n k p q r d = go o
  where
    go :
        (o' : Outcome (Unit {0}))
        → let killed : Downlink = record d {
          killed = elim d.run [ none ↦ d.killed | some r' ↦ d.killed ++ r' ∷ [] ];
        } in
          IsOnward d (elim o' [ raised _ ↦ m killed | ok _ ↦ stop_run n k (m killed) ])
    go (raised e) =
        p (record d { killed = elim d.run [ none ↦ d.killed | some r' ↦ d.killed ++ r' ∷ [] ] })
    go (ok _) =
        let killed : Downlink = record d {
          killed = elim d.run [ none ↦ d.killed | some r' ↦ d.killed ++ r' ∷ [] ];
        } in
        IsOnward-trans d (m killed) (stop_run n k (m killed)) (p killed)
          (stop_run-IsOnward n k q r (m killed))

mutual
  unfolding down_act down_acts start aclose

  act-IsOnward : (a : DownAct) (d : Downlink) → IsOnward d (down_act a d)
  act-IsOnward (starts up m) d = inl (
      start_run-up up (down_acts m) (acts-IsOnward m)
        (record d { has_track = true; track_live = if d.has_track then d.track_live else true }))
  act-IsOnward (arms g draining m o n c) d =
      arm-IsOnward g draining (down_acts m) o (down_acts n) c (acts-IsOnward m) (acts-IsOnward n) d
  act-IsOnward (restarts m n up k) d =
      (restart-IsOnward (down_acts m) (down_acts n) (down_acts k) up (acts-IsOnward m)
        (acts-IsOnward n) (acts-IsOnward k) d).0
  act-IsOnward (ends m n) d =
      stop_run-IsOnward (down_acts m) (down_acts n) (acts-IsOnward m) (acts-IsOnward n) d
  act-IsOnward (stalls m o n k) d =
      pull_the_plug-IsOnward (down_acts m) o (down_acts n) (down_acts k) (acts-IsOnward m)
        (acts-IsOnward n) (acts-IsOnward k) d

  acts-IsOnward : (as_ : DownActs) (d : Downlink) → IsOnward d (down_acts as_ d)
  acts-IsOnward idle d = inr (refl, refl)
  acts-IsOnward (then_ a as_) d =
      IsOnward-trans d (down_act a d) (down_acts as_ (down_act a d)) (act-IsOnward a d)
        (acts-IsOnward as_ (down_act a d))

-- A generation names one encoder run: whatever the loop does with the pipeline, one thing after another
-- or within an await of another, the generation goes up, or it stays and so does the run.
pub down_acts-IsOnward : (as_ : DownActs) (d : Downlink) → IsOnward d (down_acts as_ d)
down_acts-IsOnward as_ d = acts-IsOnward as_ d

-- What a coroutine of the pipeline does to it between two awaits: any interleaving of them, overlapping
-- ones included, is a list of these.
pub data Segment : Type 0 where
  begins : (comes_up : Bool) → Segment
  unwatches : Segment
  stops : Segment
  ends_track : Segment
  asks : (run generation : ℕ) → Segment
  shuts_tap : Segment
  rearms : Segment
  kills : Segment

unfoldable pub segment : Segment → Downlink → Downlink
segment (begins comes_up) d =
    let begun : Downlink = record d {
      has_track = true;
      generation = suc d.generation;
      runs = suc d.runs;
    } in
    if comes_up then record begun { run = some begun.runs; watched = true } else begun
segment unwatches d = record d { watched = false }
segment stops d = elim d.run [
  | none ↦ d
  | some _ ↦ record d { run = none; generation = suc d.generation }
]
segment ends_track d = record d { track_live = false }
segment (asks run generation) d = record d { tap = d.tap ++ opens run generation ∷ [] }
segment shuts_tap d = record d { tap = d.tap ++ closes ∷ [] }
segment rearms d = record d { rearmed = suc d.rearmed }
segment kills d = record d { killed = elim d.run [ none ↦ d.killed | some r ↦ d.killed ++ r ∷ [] ] }

unfoldable pub segments : List Segment → Downlink → Downlink
segments [] d = d
segments (x ∷ xs) d = segments xs (segment x d)

segment-IsOnward : (x : Segment) (d : Downlink) → IsOnward d (segment x d)
unfolding segment
segment-IsOnward (begins true) d = inl (omega arith)
segment-IsOnward (begins false) d = inl (omega arith)
segment-IsOnward stops d = elim (Option-cases d.run) [
  | inl missing ↦ ground (arith, missing)
  | inr (r, e) ↦ ground (arith, e)
]
segment-IsOnward x d = inr (refl, refl)

segments-IsOnward : (xs : List Segment) (d : Downlink) → IsOnward d (segments xs d)
unfolding segments
segments-IsOnward [] d = inr (refl, refl)
segments-IsOnward (x ∷ xs) d =
    IsOnward-trans d (segment x d) (segments xs (segment x d)) (segment-IsOnward x d)
      (segments-IsOnward xs (segment x d))

-- How an arm that answered leaves the pipeline: the tap was opened once, on the run that was there
-- then and under the generation of the arm; both are still the pipeline's when it answers, whatever
-- the loop did while the tap was opening, and nothing but a watchdog's second chance came after that.
abbrev pub IsOpenedOn : ℕ → (Downlink → Downlink) → Downlink → Downlink → Type 0
IsOpenedOn g while_opening d e =
    (r : ℕ) × (d.run ≡ some r)
    × (let w = while_opening (record d { tap = d.tap ++ opens r g ∷ [] }) in
        (w.generation ≡ g)
        × (w.run ≡ some r)
        × (e ≡ (if w.watched then record w { rearmed = suc w.rearmed } else w)))

-- An arm that answers a format named the generation the pipeline had, and its pipe was being drained.
-- It asked the tap to open on the run that was the pipeline's, under that generation, before anything
-- else; what the loop did while the tap was opening left the pipeline its run and its generation, and
-- the arm added to it only a rearmed watchdog, where there was one.
pub arm-answered :
    (g format : ℕ) (draining : Bool) (m n : List Segment) (o : Outcome ℕ) (c : Outcome (Unit {0}))
    (d : Downlink)
    → (arm g draining (segments m) o (segments n) c d).0 ≡ ok format
    → (draining ≡ true)
      × (g ≡ d.generation)
      × IsOpenedOn g (segments m) d (arm g draining (segments m) o (segments n) c d).1
unfolding arm
arm-answered g format draining m n o c d h = elim (Option-cases d.run) [
  | inl missing ↦ ground (arith, missing)
  | inr (r, e) ↦
      let asked : Downlink = record d { tap = d.tap ++ opens r g ∷ [] } in
      let first = segments-IsOnward m asked in ground (arith, e, first)
]

-- An arm of a generation from before a restart is refused, and the tap is not asked at all, whatever
-- was begun and ended while the restart was awaited, and after it.
pub arm_after_restart :
    (g : ℕ) (draining : Bool) (m n k later opening closing : DownActs) (up : Bool) (o : Outcome ℕ)
    (c : Outcome (Unit {0})) (d : Downlink)
    → d.has_track ≡ true
    → g ≤ d.generation
    → let e = down_acts later (restart (down_acts m) (down_acts n) up (down_acts k) d).1 in
      arm g draining (down_acts opening) o (down_acts closing) c e ≡ (raised stale_arm, e)
unfolding arm
arm_after_restart g draining m n k later opening closing up o c d h below =
    let r = (restart (down_acts m) (down_acts n) up (down_acts k) d).1 in
    let above =
      (restart-IsOnward (down_acts m) (down_acts n) (down_acts k) up (down_acts-IsOnward m)
          (down_acts-IsOnward n) (down_acts-IsOnward k) d).1
        h in
    let on = down_acts-IsOnward later r in ground (arith, above, on)
