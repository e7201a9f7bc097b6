-- ===== src/Integration/Examples/Mirroring.antt =====
-- A ring at the gateway, up to the coordinator of Home Assistant, of a client whose stream breaks off.
use urmet_ha.Prelude.{
  ℕ, String, ◌≡◌, refl, Bool, true, false, ◌==◌, Option, none, some, List, [], ◌∷◌, ◌++◌, map,
  arith, if◌then◌else◌,
}
use text.Mathlib.Text.{◌==◌ as same_text}
use urmet_ha.Domain
use urmet_ha.Domain.{Event, StateView, CallState, CallTests, view_of}
use urmet_ha.Calls.{mark_incoming, empty_book, views}
use urmet_ha.Service.World.{new_service, publish, publish_state, emit, snapshot}
use urmet_ha.Service.Callbacks.{ring_arrived}
use urmet_ha.Service.Loop.{Request, rings, run}
use urmet_ha.Threads.{Step, begins}
use urmet_ha.Integration.Json.{Json, nil, Fields, end, field, get}
use urmet_ha.Integration.Models
use urmet_ha.Integration.Events.Wire.{mirror_event, mirror_view}
use urmet_ha.Integration.Client.{Client, new_client, Message, failed, transport, accepted, consume}
use urmet_ha.Integration.Client.Calls.{told_to}
use urmet_ha.Integration.Coordinator.{UpdateCoordinator, handle_connection, follow}
use urmet_ha.Integration.Coordinator.Mirroring.{AreFrames, last_view, surroundings, follow-run}
use urmet_ha.Integration.Examples.Frames.{
  printing, py, read_instant, read_back, ring, ring_frame, ring-Carries,
}

abbrev Held : Type 0
Held = Option Models.StateView × Bool

abbrev base : UpdateCoordinator Held
base = record {
  data_of = λ s. s.0;
  last_update_success = λ s. s.1;
  async_set_updated_data = λ view s. (some view, true);
  async_set_update_error = λ s. (s.0, false);
  updated = λ view s. (refl, refl);
  failed = λ s. (refl, refl);
}

abbrev flows : CallState → Bool
flows CallState.streaming = true
flows _ = false

never_over : (s : CallState) → false ≡ true → flows s ≡ false
never_over s h = absurd (ground (arith, h))

abbrev tests : CallTests
tests = record { is_streaming = flows; is_terminal = λ s. false; streams = refl; over = never_over }

abbrev visit : List (Step Request)
visit = begins (rings 3 (record { mac = "00:1B"; name = "" }) 2) ∷ []

abbrev quiet_view : StateView
quiet_view = record {
  registered = true;
  doorphone = none;
  calls = [];
  mic_muted = true;
  sessions = [];
}

abbrev told : List Event
told = ring ∷ Domain.state_event 3 quiet_view ∷ []

visit-published : (run tests visit (new_service true true none)).published ≡ [] ++ told
unfolding run ring_arrived publish publish_state emit snapshot new_service mark_incoming empty_book
    views view_of
visit-published = refl

abbrev state_frame : String → Fields
state_frame at = field "type" (Json.text "state") (
    field "at" (Json.text at) (
      field "registered" (Json.boolean true) (
        field "doorphone" Json.null (
          field "calls" (Json.array nil)
            (field "mic_muted" (Json.boolean true) (field "sessions" (Json.array nil) end))))))

abbrev loads : String → Option Json
loads raw =
    if same_text raw "snapshot"
    then some (Json.object (state_frame "i"))
    else if same_text raw "ring"
    then some (Json.object ring_frame)
    else some (Json.object (state_frame "iii"))

abbrev raws : List String
raws = "snapshot" ∷ "ring" ∷ "state" ∷ []

abbrev es : List Event
es = Domain.state_event 1 quiet_view ∷ told

frames : AreFrames loads printing raws es
unfolding get
frames = (
  state_frame "i",
  refl,
  ((refl, refl), (refl, refl, (nil, refl, refl), refl, (nil, refl, refl))),
  (
    ring_frame,
    refl,
    ring-Carries,
    (
      state_frame "iii",
      refl,
      ((refl, refl), (refl, refl, (nil, refl, refl), refl, (nil, refl, refl))),
      tt,
    ),
  ),
)

abbrev client : Client
client = record new_client { event_listeners = 7 ∷ 8 ∷ [] }

follow-run_example :
    let around = surroundings (λ l e. l == 7) (λ l b. false) loads py read_instant in
    let heard =
      told_to 8
        (consume around (accepted (map Message.text raws) (failed transport)) client).1.heard in
    let view = last_view quiet_view told in
    (heard ≡ map (mirror_event printing) es)
    × (base.data_of (handle_connection base false (follow base heard (none, false)))
        ≡ some (mirror_view printing view))
    × (before : List Event) × (now : ℕ) × (es ≡ before ++ Domain.state_event now view ∷ [])
follow-run_example =
    follow-run base printing tests visit true true none [] told 1 quiet_view (λ l e. l == 7)
      (λ l b. false) loads py read_instant raws (failed transport) 8 client (none, false)
      visit-published read_back frames refl refl
