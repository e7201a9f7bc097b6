-- ===== src/Media/Video/Encoder.antt =====
-- addon/urmet-gateway/urmet_gateway/media/encoder.py: the encoder's process, its pipe and the thread
-- that demuxes its output, as what the loop and that thread do in turn. The system answers with the
-- outcome of each call.
pub mod Descriptors
use urmet_ha.Prelude.{
  ℕ, suc, ◌+◌, ◌≡◌, Bool, true, false, not, ◌||◌, ◌&&◌, Option, none, some, List, [], ◌∷◌, ◌==◌,
  if◌then◌else◌,
}

-- How `start` ends: each of its calls on the system may raise.
pub data Started : Type 0 where
  no_pipe no_standby no_log no_process no_thread up : Started

-- The demux thread, once it was started: before the header, after it, or ended.
pub data Demux : Type 0 where
  opening demuxing ended : Demux

-- The stop that took the process: it waits for the thread, or for the child.
pub data Stop : Type 0 where
  joining : (pump : Bool) → Stop
  reaping : (joined : Bool) → Stop

pub record Encoder : Type 0 where
  pub standby : Bool
  pub process : Bool
  pub pump : Bool
  pub log : Bool
  pub stopping : Bool
  pub draining : Bool
  pub workdir : Bool
  -- The thread and the stop, and what was done: the read end opened and closed, the output of the
  -- encoder closed, its logs read out, and the packets handed to the sink.
  pub thread : Option Demux
  pub stop : Option Stop
  pub opened : ℕ
  pub closed : ℕ
  pub output_closed : Bool
  pub killed : ℕ
  pub complaints : ℕ
  pub packets : ℕ

-- `__init__`
abbrev pub new_encoder : Encoder
new_encoder = record {
  standby = false;
  process = false;
  pump = false;
  log = false;
  stopping = false;
  draining = false;
  workdir = true;
  thread = none;
  stop = none;
  opened = 0;
  closed = 0;
  output_closed = false;
  killed = 0;
  complaints = 0;
  packets = 0;
}

-- `EXPECTED_EXITS`; a code is that of a signal when it is negative.
pub data ExitCode : Type 0 where
  exited : ℕ → ExitCode
  signalled : ℕ → ExitCode

unfoldable pub is_expected : ExitCode → Bool
is_expected (exited n) = n == 0
is_expected (signalled n) = n == 9

-- `start`
unfoldable pub start : Started → Encoder → Encoder
start no_pipe e = e
start no_standby e = e
start no_log e = record e { standby = true; opened = suc e.opened }
start no_process e = record e { standby = true; opened = suc e.opened; log = true }
start no_thread e = record e {
  standby = true;
  opened = suc e.opened;
  log = true;
  process = true;
  pump = true;
}
start up e = record e {
  standby = true;
  opened = suc e.opened;
  log = true;
  process = true;
  pump = true;
  draining = true;
  thread = some opening;
}

-- `_release_standby`: the descriptor is taken under the lock, so that only one caller closes it.
unfoldable pub release_standby : Encoder → Encoder
release_standby e = if e.standby then record e { standby = false; closed = suc e.closed } else e

-- `exit_code`, of what a poll of the child answers
unfoldable pub exit_code : Option ExitCode → Encoder → Option ExitCode
exit_code polled e = if e.process then polled else none

-- `kill`
unfoldable pub kill : Encoder → Encoder
unfolding release_standby
kill e =
    let e1 = release_standby (record e { stopping = true; draining = false }) in
    if e1.process then record e1 { killed = suc e1.killed } else e1

-- `_clear_workdir`, with whether the tree could be removed
unfoldable pub clear_workdir : Bool → Encoder → Encoder
clear_workdir removed e = record e { workdir = e.workdir && not removed }

-- `stop` up to its first wait: it kills, and takes the process and with it the thread.
unfoldable pub begin_stop : Bool → Encoder → Encoder
unfolding kill clear_workdir
begin_stop removed e =
    let e1 = kill e in
    if e1.process
    then record e1 { process = false; pump = false; stop = some (joining e1.pump) }
    else clear_workdir removed e1

-- `_join_pump` on the thread: `none` is one that was never started, whose join raises.
joins_thread : Option Demux → Option Stop
joins_thread none = none
joins_thread (some ended) = some (reaping true)
joins_thread (some d) = some (reaping false)

-- The end of `_join_pump`: the join came back, in time or not, and the thread says whether it lives.
unfoldable pub joined : Encoder → Encoder
unfolding joins_thread
joined e = elim e.stop [
  | some (joining pump) ↦ record e {
    stop = if pump then joins_thread e.thread else some (reaping true);
  }
  | _ ↦ e
]

-- `_reap` of a child that was waited for in time
collected : ExitCode → Bool → Encoder → Encoder
unfolding is_expected
collected code joined_ e =
    let e1 = if is_expected code then e else record e { complaints = suc e.complaints } in
    record e1 { log = false; output_closed = e1.output_closed || joined_ }

-- `_reap` and the rest of `stop`, with the child's code, or none where it did not exit in time
unfoldable pub reaped : Option ExitCode → Bool → Encoder → Encoder
unfolding collected clear_workdir
reaped code removed e = elim e.stop [
  | some (reaping joined_) ↦
      let e1 : Encoder = elim code [
        | none ↦ record e { complaints = suc e.complaints }
        | some c ↦ collected c joined_ e
      ] in
      clear_workdir removed (record e1 { stop = none })
  | _ ↦ e
]

-- A turn of `_demux`: the header, a packet that is empty or not, or the end of the output.
pub data Turn : Type 0 where
  header : Turn
  packet : (is_empty : Bool) → Turn
  end_of_output : Turn

unfoldable pub demux : Turn → Encoder → Encoder
unfolding release_standby
demux turn e = elim e.thread [
  | some opening ↦ elim turn [
    | header ↦ release_standby (record e { thread = some demuxing })
    | packet is_empty ↦ e
    | end_of_output ↦ record e { thread = some ended }
  ]
  | some demuxing ↦ elim turn [
    | header ↦ e
    | packet is_empty ↦
        (if e.stopping || is_empty
          then record e { thread = some ended }
          else record e { packets = suc e.packets })
    | end_of_output ↦ record e { thread = some ended }
  ]
  | _ ↦ e
]

-- What the loop and the thread do after the start.
pub data Act : Type 0 where
  kills : Act
  stops : (removed : Bool) → Act
  joins : Act
  reaps : (code : Option ExitCode) (removed : Bool) → Act
  demuxes : Turn → Act

unfoldable pub act : Act → Encoder → Encoder
unfolding kill begin_stop joined reaped demux
act kills e = kill e
act (stops removed) e = begin_stop removed e
act joins e = joined e
act (reaps code removed) e = reaped code removed e
act (demuxes turn) e = demux turn e

unfoldable pub run : List Act → Encoder → Encoder
unfolding act
run [] e = e
run (a ∷ acts) e = run acts (act a e)
