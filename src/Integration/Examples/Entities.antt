-- ===== src/Integration/Examples/Entities.antt =====
-- client.py, repairs.py, sensor.py, event.py, commands.py and services.py on short runs.
use text.Mathlib.Text.{◌==◌ as same_text}
use urmet_ha.Prelude.{
  ℕ, ◌+◌, ◌≤◌, min, ◌≡◌, refl, ◌↔◌, ◌⊎◌, Bool, true, false, none, some, List, [], ◌∷◌, ◌++◌, map,
  length, arith, ◌==◌,
}
use urmet_ha.Domain
use urmet_ha.Domain.{Event, ActuatorName, StateView}
use urmet_ha.Domain.Errors.{raised, other_error}
use urmet_ha.Integration.Json.{ℤ, Json, end}
use urmet_ha.Integration.Events
use urmet_ha.Integration.Events.{GatewayEvent}
use urmet_ha.Integration.Events.Wire.{mirror_event}
use urmet_ha.Integration.Examples.Frames.{printing, py}
use urmet_ha.Integration.Client.{
  Client, new_client, Surroundings, refused, accepted, returned, cancelled, failed, transport, run,
  async_stop, schedule,
}
use urmet_ha.Integration.Client.Requests.{got}
use urmet_ha.Integration.Client.Calls.{told_to}
use urmet_ha.Integration.Client.Connection.{IsFlipping, async_stop-run}
use urmet_ha.Integration.Client.Backoff.{AreDrawn, AreNear, outage, warnings, run-waits}
use urmet_ha.Integration.Repairs
use urmet_ha.Integration.Repairs.{Input, event, offer_status, new_monitor}
use urmet_ha.Integration.Repairs.Routing.{
  stands, IsUnbroken, refusals, registered_after, HasNoSuccess, stands-run,
}
use urmet_ha.Integration.Sensors.{Sensor, handle_all, reduce_counter, is_ring, is_door, is_gate}
use urmet_ha.Integration.Sensors.Counting.{rings, acknowledged_opens, counters-run}
use urmet_ha.Integration.Doorbell.{Opened, new_doorbell, hear_all}
use urmet_ha.Integration.Doorbell.Coalescing.{
  NeverBack, IsPicked, AreSpaced, AreCovered, hear_all-coalesces,
}
use urmet_ha.Integration.Commands.{Entry, Waiting, open_path, async_open}
use urmet_ha.Integration.Commands.Provenance.{hear_opens, FirstIsFrom, async_open-credits}
use urmet_ha.Integration.Services.{
  House, chosen, resolve_entry, targeted_entry_id, entry_of_device, sole_device_id, owned,
  find_entry,
}
use urmet_ha.Integration.Services.Target.{IsLoaded, Names, NamesNone, resolve_entry-named}

abbrev around : Surroundings
around = record {
  event_raises = λ l e. false;
  conn_raises = λ l b. b;
  loads = λ raw. none;
  parse = λ fields. raised other_error;
}

abbrev client : Client
client = record new_client { conn_listeners = 4 ∷ 5 ∷ [] }

async_stop-run_example :
    (flips : List Bool) × (told_to 5
        (async_stop around (
          run around
            ((refused transport, 10)
              ∷ (accepted [] returned, 20)
              ∷ (accepted [] (failed cancelled), 0)
              ∷ [])
            client)).told
      ≡ [] ++ flips)
    × IsFlipping false flips false
async_stop-run_example =
    async_stop-run around 5
      ((refused transport, 10)
        ∷ (accepted [] returned, 20)
        ∷ (accepted [] (failed cancelled), 0)
        ∷ [])
      client refl

abbrev fails : List (Bool × ℕ)
fails = (false, 0) ∷ (true, 1000) ∷ (false, 700) ∷ []

fails-AreDrawn : AreDrawn 0 fails
unfolding schedule
fails-AreDrawn = (omega arith, (omega arith, (omega arith, tt)))

run-waits_example :
    (waits : List ℕ) × ((run around (outage fails) client).slept ≡ [] ++ waits)
    × (length waits ≡ length fails)
    × AreNear 0 waits
    × (warnings (run around (outage fails) client).log ≡ 0 + min (length fails) 5)
run-waits_example = run-waits around fails client refl fails-AreDrawn

abbrev up : GatewayEvent
up = Events.registration_event none true (ℤ.pos 200) "" none

abbrev trap : List Input
trap =
    offer_status 503
    ∷ event up
    ∷ offer_status 503
    ∷ offer_status 503
    ∷ offer_status 503
    ∷ offer_status 409
    ∷ []

stands-run_example : (stands (Repairs.run trap new_monitor) ≡ true) ↔ (
    (front : List Input) × (mid : List Input) × (back : List Input) × (trap ≡ front ++ mid ++ back)
    × IsUnbroken mid
    × (3 ≤ refusals (registered_after false front) mid)
    × HasNoSuccess back)
stands-run_example = stands-run trap

abbrev evening : List Event
evening =
    Domain.ring_event 1 (record { mac = "00"; name = "" }) 1
    ∷ Domain.open_event 2 ActuatorName.door true
    ∷ Domain.open_event 3 ActuatorName.door false
    ∷ []

counters-run_example :
    let heard = map (mirror_event printing) evening in
    let start : Sensor ℕ = record { value = some 7; writes = 0 } in
    let count : (GatewayEvent → Bool) → Sensor ℕ =
      λ matches. handle_all ◌==◌ (reduce_counter matches) heard start in
    ((count is_ring).value ≡ some (7 + rings evening))
    × ((count is_door).value ≡ some (7 + acknowledged_opens ActuatorName.door evening))
    × ((count is_gate).value ≡ some (7 + acknowledged_opens ActuatorName.gate evening))
    × ((count is_ring).writes ≡ 0 + rings evening)
counters-run_example = counters-run printing evening 7 0

abbrev view : StateView
view = record {
  registered = true;
  doorphone = none;
  calls =
      record { id = 1; state = Domain.CallState.ended; direction = Domain.incoming }
      ∷ record { id = 2; state = Domain.CallState.ringing; direction = Domain.incoming }
      ∷ [];
  mic_muted = true;
  sessions = [];
}

abbrev burst : List (ℕ × GatewayEvent)
burst =
    (1000, Events.ring_event none none none)
    ∷ (1500, Events.ring_event none none (some "2"))
    ∷ (9000, Events.ring_event none none none)
    ∷ []

burst-NeverBack : NeverBack 0 burst
burst-NeverBack = (omega arith, (omega arith, (omega arith, tt)))

hear_all-coalesces_example :
    let fires = (hear_all 5000 burst new_doorbell).fired in
    IsPicked fires burst × AreSpaced 5000 none fires × AreCovered 5000 none fires burst
hear_all-coalesces_example = hear_all-coalesces 5000 burst burst-NeverBack

abbrev entry : Entry
entry = record { pending_open = none; calls = none; sent = [] }

abbrev opened_door : Waiting
opened_door = record { meanwhile = λ e. e; outcome = got (record { status = 204; body = end }) }

abbrev two_opens : List GatewayEvent
two_opens = Events.open_event none "door" true none ∷ Events.open_event none "gate" true none ∷ []

door_path : open_path "door" ≡ some ("api" ∷ "door" ∷ "open" ∷ [])
unfolding open_path
door_path = refl

async_open-credits_example :
    let waiting : Waiting = record { meanwhile = λ e. e; outcome = opened_door.outcome } in
    let asked = (async_open "door" "card" (some 9) waiting entry).1 in
    (new : List Opened) × ((hear_opens two_opens (asked, [])).1 ≡ [] ++ new)
    × FirstIsFrom "card" (some 9) new
async_open-credits_example =
    async_open-credits "door" "card" (some 9) opened_door.outcome entry two_opens []
      ("api" ∷ "door" ∷ "open" ∷ []) door_path

abbrev house : House
house = record {
  loaded = "a" ∷ "b" ∷ [];
  entries_of = λ d. some ("lamp" ∷ "b" ∷ []);
  is_urmet = λ e. same_text e "b";
}

house-resolves : resolve_entry py house none (some (Json.text "panel")) ≡ chosen "b"
unfolding resolve_entry targeted_entry_id entry_of_device sole_device_id owned find_entry
house-resolves = refl

resolve_entry-named_example :
    (Names py house none (some (Json.text "panel")) "b" × IsLoaded "b" house.loaded)
    ⊎ (NamesNone py none (some (Json.text "panel")) × (house.loaded ≡ "b" ∷ []))
resolve_entry-named_example =
    resolve_entry-named py house none (some (Json.text "panel")) "b" house-resolves
