-- ===== src/Sip/Hop.antt =====
-- addon/urmet-gateway/urmet_gateway/sip/bridge.py: a callback of the SDK, fired on a native thread, is
-- one more callback that waits for the loop. The client has one slot for each kind.
pub mod Order
use urmet_ha.Prelude.{ℕ, Bool, true, false, Option, none, some, List, [], ◌∷◌, ◌++◌, if◌then◌else◌}
use urmet_ha.Domain.{CallState, CallHandle, CallTests, Doorphone}
use urmet_ha.Service.World.{Service}
use urmet_ha.Service.Callbacks.{ring_arrived, call_state_arrived}

-- What the SDK fires.
pub data Callback : Type 0 where
  rings : Doorphone → ℕ → Callback
  moves : CallHandle → CallState → Callback

-- The slots of one client: the number of the bridge that each of them holds, if any.
pub record Client : Type 0 where
  pub on_ring : Option ℕ
  pub on_call_state : Option ℕ

-- `bind`, of a bridge to a client
unfoldable pub bind : ℕ → Client → Client
bind bridge c = record { on_ring = some bridge; on_call_state = some bridge }

-- The loop as the bridge has it: what waits, oldest first, and what it works on.
pub record Loop : Type 0 where
  pub closed : Bool
  pub ready : List Callback
  pub service : Service

-- `_hop`: `call_soon_threadsafe`, whose RuntimeError on a closed loop is dropped.
unfoldable pub hop : Callback → Loop → Loop
hop c l = if l.closed then l else record l { ready = l.ready ++ c ∷ [] }

module _ (tests : CallTests) (now : ℕ) where
  -- The handlers on the loop's side, those of the service.
  unfoldable pub handle : Callback → Service → Service
  handle (rings doorphone call_id) s = ring_arrived now doorphone call_id s
  handle (moves call state) s = call_state_arrived tests now call state s

  -- One turn of the loop.
  unfoldable pub turn : Loop → Loop
  unfolding handle
  turn l =
      if l.closed
      then l
      else elim l.ready [ [] ↦ l | c ∷ cs ↦ record l { ready = cs; service = handle c l.service } ]
