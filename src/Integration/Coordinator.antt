-- ===== src/Integration/Coordinator.antt =====
-- custom_components/urmet/coordinator.py: the coordinator that holds the latest state of the gateway.
pub mod Mirroring
use urmet_ha.Prelude.{
  ◌≡◌, Bool, true, false, ◌&&◌, not, Option, none, some, List, [], ◌∷◌, if◌then◌else◌,
}
use urmet_ha.Integration.Models.{StateView}
use urmet_ha.Integration.Events.{GatewayEvent, state_event}
use urmet_ha.Integration.Json.{Conversions}
use urmet_ha.Integration.Client.Requests.{Reply, Got, async_get_state}

-- Home Assistant's `DataUpdateCoordinator` on a state of its own, with what is documented of its two
-- updates: the one sets the data, the other keeps it, and the last of them says how it went.
pub record UpdateCoordinator (S : Type 0) : Type 0 where
  pub data_of : S → Option StateView
  pub last_update_success : S → Bool
  pub async_set_updated_data : StateView → S → S
  pub async_set_update_error : S → S
  pub updated :
      (view : StateView) (s : S)
      → (data_of (async_set_updated_data view s) ≡ some view)
        × (last_update_success (async_set_updated_data view s) ≡ true)
  pub failed :
      (s : S)
      → (data_of (async_set_update_error s) ≡ data_of s)
        × (last_update_success (async_set_update_error s) ≡ false)

module _ {S : Type 0} (base : UpdateCoordinator S) where
  -- `_handle_event`
  unfoldable pub handle_event : GatewayEvent → S → S
  handle_event (state_event at view) s = base.async_set_updated_data view s
  handle_event event s = s

  -- `_handle_connection`
  unfoldable pub handle_connection : Bool → S → S
  handle_connection connected s =
      if not connected && base.last_update_success s then base.async_set_update_error s else s

  -- The calls of the listener, in order.
  unfoldable pub follow : List GatewayEvent → S → S
  unfolding handle_event
  follow [] s = s
  follow (event ∷ events) s = follow events (handle_event event s)
