-- ===== src/Media/Video/Pipeline.antt =====
-- addon/urmet-gateway/urmet_gateway/media/pipeline.py: the pipe, the encoder on it, and the
-- generation that an arm has to name. An encoder run is a number, with the pipe that it drains. At
-- each await the loop may do anything else with the pipeline: the functions `while_…`.
pub mod Generation
mod Examples
use urmet_ha.Prelude.{
  ℕ, suc, Bool, true, false, Option, none, some, List, [], ◌∷◌, ◌++◌, ◌==◌, if◌then◌else◌, contains,
}
use urmet_ha.Domain.Errors.{
  Outcome, ok, raised, ErrorType, stale_arm, downlink_not_draining, downlink_not_started, os_error,
  class_code,
}

-- What was asked of the tap: open on the pipe of a run, and close.
pub data TapCall : Type 0 where
  opens : (run generation : ℕ) → TapCall
  closes : TapCall

pub record Downlink : Type 0 where
  pub has_track : Bool
  pub track_live : Bool
  pub run : Option ℕ
  pub runs : ℕ
  pub watched : Bool
  pub rearmed : ℕ
  pub generation : ℕ
  pub killed : List ℕ
  pub tap : List TapCall

abbrev pub Ran : Type 0 → Type 0
Ran A = Outcome A × Downlink

-- `VideoDownlink.__init__`
unfoldable pub new_downlink : Downlink
new_downlink = record {
  has_track = false;
  track_live = false;
  run = none;
  runs = 0;
  watched = false;
  rearmed = 0;
  generation = 0;
  killed = [];
  tap = [];
}

-- `_start_run`, with whether ffmpeg and the pipe came up; if not, what is there is stopped.
unfoldable pub start_run : Bool → (Downlink → Downlink) → Downlink → Ran (Unit {0})
start_run comes_up while_stopping d =
    let begun : Downlink = record d { generation = suc d.generation; runs = suc d.runs } in
    if comes_up
    then (ok tt, record begun { run = some begun.runs; watched = true })
    else (raised os_error, while_stopping begun)

-- `_stop_run`: the watchdog first, then the encoder that is there by then.
unfoldable pub stop_run : (Downlink → Downlink) → (Downlink → Downlink) → Downlink → Downlink
stop_run while_unwatching while_stopping d =
    let unwatched : Downlink = record d { watched = false } in
    let waited = if d.watched then while_unwatching unwatched else unwatched in
    elim waited.run [
      | none ↦ waited
      | some _ ↦ while_stopping (record waited { run = none; generation = suc waited.generation })
    ]

-- `start`
unfoldable pub start : Bool → (Downlink → Downlink) → Downlink → Ran (Unit {0})
unfolding start_run
start comes_up while_stopping d =
    start_run comes_up while_stopping
      (record d { has_track = true; track_live = if d.has_track then d.track_live else true })

-- What `suppress(CallError, OSError)` takes.
abbrev pub suppressed : ErrorType → Bool
suppressed e = contains (class_code e) (4 ∷ 5 ∷ 6 ∷ 16 ∷ 17 ∷ 22 ∷ [])

-- `arm`, with whether the encoder drains its pipe, how the tap answers, and how the closing of a tap
-- that raced a rebuild ends.
unfoldable pub arm :
    {F : Type 0}
    → ℕ
    → Bool
    → (while_opening : Downlink → Downlink) → Outcome F
    → (while_closing : Downlink → Downlink) → Outcome (Unit {0})
    → Downlink
    → Ran F
arm generation draining while_opening opened while_closing closing d =
    if generation == d.generation
    then elim d.run [
      | none ↦ (raised downlink_not_draining, d)
      | some r ↦
          let waited = while_opening (record d { tap = d.tap ++ opens r generation ∷ [] }) in
          if draining
          then elim opened [
            | raised e ↦ (raised e, waited)
            | ok format ↦
                if generation == waited.generation
                then (
                  ok format,
                  if waited.watched then record waited { rearmed = suc waited.rearmed } else waited,
                )
                else (
                  elim closing [
                    | ok _ ↦ raised stale_arm
                    | raised e ↦ if suppressed e then raised stale_arm else raised e
                  ],
                  while_closing (record waited { tap = waited.tap ++ closes ∷ [] }),
                )
          ]
          else (raised downlink_not_draining, d)
    ]
    else (raised stale_arm, d)

-- `restart`
unfoldable pub restart :
    (while_unwatching while_stopping : Downlink → Downlink)
    → (comes_up : Bool) → (while_failing : Downlink → Downlink) → Downlink
    → Ran (Unit {0})
unfolding stop_run start_run
restart while_unwatching while_stopping comes_up while_failing d =
    if d.has_track
    then start_run comes_up while_failing (stop_run while_unwatching while_stopping d)
    else (raised downlink_not_started, d)

-- `aclose`
unfoldable pub aclose : (Downlink → Downlink) → (Downlink → Downlink) → Downlink → Downlink
unfolding stop_run
aclose while_unwatching while_stopping d =
    let stopped = stop_run while_unwatching while_stopping d in
    record stopped { track_live = false }

-- `_pull_the_plug`: the encoder is killed before anything is awaited; an owner that raises, which the
-- watchdog logs, leaves the rest standing.
unfoldable pub pull_the_plug :
    (while_telling : Downlink → Downlink)
    → (told : Outcome (Unit {0})) → (while_unwatching while_stopping : Downlink → Downlink)
    → Downlink
    → Downlink
unfolding stop_run
pull_the_plug while_telling told while_unwatching while_stopping d =
    let killed : Downlink = record d {
      killed = elim d.run [ none ↦ d.killed | some r ↦ d.killed ++ r ∷ [] ];
    } in
    elim told [
      | raised _ ↦ while_telling killed
      | ok _ ↦ stop_run while_unwatching while_stopping (while_telling killed)
    ]
