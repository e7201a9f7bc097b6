-- ===== src/Service/World.antt =====
-- usecases/service.py, usecases/sessions.py and usecases/state.py: the state that the use cases own,
-- the snapshot of it, and publishing.
use urmet_ha.Prelude.{
  ℕ, String, Bool, true, Option, none, some, List, [], ◌∷◌, ◌++◌, Dict, lookup, or_else,
}
use mathlib.Core.Option
use urmet_ha.Domain.{
  Actuator, CallHandle, Doorphone, view_of, SessionView, StateView, Event, state_event,
  webrtc_event,
}
use urmet_ha.Domain.Errors.{Outcome}
use urmet_ha.Calls.{CallBook, empty_book, views}

-- What a session object answers through `MediaSessionPort`: its call, whether it is closing or
-- closed, and what `view` reads now.
pub record Leg : Type 0 where
  pub call_id : ℕ
  pub closed : Bool
  pub reading : SessionView

-- The coroutines that `_spawn` hands to the loop.
pub data Task : Type 0 where
  close_leg : ℕ → String → Task
  reap_after_grace : ℕ → Task

-- What goes out on the `DoorphonePort`.
pub data Command : Type 0 where
  view_door : Bool → Command
  answer hangup : CallHandle → Command
  open_during : CallHandle → Actuator → Command
  open_on_demand : Actuator → Command
  set_mic_muted : Bool → Command

pub record Service : Type 0 where
  pub calls : CallBook
  -- The session objects by id, and the ids that `MediaSessions` has in its dict, in order.
  pub legs : Dict Leg
  pub sessions : List ℕ
  pub opened : ℕ
  pub tasks : List Task
  pub has_factory : Bool
  pub mic_muted : Bool
  pub inviting : ℕ
  -- What the port answers without crossing the worker.
  pub registered : Bool
  pub known_doorphone : Option Doorphone
  -- What the sink was handed and what the port was sent, oldest first.
  pub published : List Event
  pub sent : List Command

-- `DoorphoneService.__init__`
unfoldable pub new_service : Bool → Bool → Option Doorphone → Service
new_service has_factory registered known_doorphone = record {
  calls = empty_book;
  legs = [];
  sessions = [];
  opened = 0;
  tasks = [];
  has_factory = has_factory;
  mic_muted = true;
  inviting = 0;
  registered = registered;
  known_doorphone = known_doorphone;
  published = [];
  sent = [];
}

-- An await: what else the loop did, and how the call ended.
pub record Await (A : Type 0) : Type 0 where
  pub meanwhile : Service → Service
  pub outcome : Outcome A

unfoldable pub leg_views : Dict Leg → List ℕ → List SessionView
leg_views legs [] = []
leg_views legs (i ∷ ids) =
    let rest = leg_views legs ids in
    elim (lookup i legs) [ none ↦ rest | some leg ↦ leg.reading ∷ rest ]

-- `StateReader.snapshot`
unfoldable pub snapshot : Service → StateView
unfolding leg_views
snapshot s = record {
  registered = s.registered;
  doorphone = Option.map view_of s.known_doorphone;
  calls = views s.calls;
  mic_muted = s.mic_muted;
  sessions = leg_views s.legs s.sessions;
}

-- The sink's `publish`.
unfoldable pub emit : Event → Service → Service
emit e s = record s { published = s.published ++ e ∷ [] }

-- `DoorphoneService.publish_state`
unfoldable pub publish_state : ℕ → Service → Service
unfolding emit
publish_state now s = emit (state_event now (snapshot s)) s

-- `DoorphoneService._publish`
unfoldable pub publish : ℕ → Event → Service → Service
unfolding publish_state emit
publish now e s = publish_state now (emit e s)

-- `MediaSessions._publish`; the session is gone from memory only when nothing names it.
unfoldable pub publish_leg : ℕ → ℕ → String → Service → Service
unfolding emit
publish_leg now id reason s = elim (lookup id s.legs) [
  | none ↦ s
  | some leg ↦
      emit (webrtc_event now id leg.call_id leg.reading.state (or_else reason leg.reading.reason)) s
]

-- A command on its way to the port.
unfoldable pub send : Command → Service → Service
send c s = record s { sent = s.sent ++ c ∷ [] }
