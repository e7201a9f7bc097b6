-- ===== src/Integration/Coordinator/Mirroring.antt =====
-- From the service of the gateway to the coordinator of the integration: what a client that reads the
-- event stream comes to hold.
use urmet_ha.Prelude.{
  ℕ, String, ◌≡◌, refl, ap, ◌∙◌, inl, Bool, true, false, Option, some, List, [], ◌∷◌, ◌++◌, map,
  arith,
}
use urmet_ha.Domain
use urmet_ha.Domain.{CallTests, Doorphone, Event, StateView}
use urmet_ha.Service.World.{new_service}
use urmet_ha.Service.Loop.{Request, run}
use urmet_ha.Threads.{Step}
use urmet_ha.Service.Publication.{Followed, is_state}
use urmet_ha.Service.Publication.Runs.{run-new_service-Followed}
use urmet_ha.Integration.Json.{Json, Fields, Conversions}
use urmet_ha.Integration.Events.{GatewayEvent, parse_event}
use urmet_ha.Integration.Events.Wire.{Printing, Carries, mirror_view, mirror_event}
use urmet_ha.Integration.Events.RoundTrip.{parse_event-carried}
use urmet_ha.Integration.Client.{Client, Surroundings, Message, Ending, accepted, consume}
use urmet_ha.Integration.Client.Calls.{told_to, occurrences}
use urmet_ha.Integration.Client.Delivery.{AreRead, consume-heard}
use urmet_ha.Integration.Coordinator.{UpdateCoordinator, handle_event, handle_connection, follow}

-- A published event is followed by one later, and the tail of what is followed is followed.
Followed-tail : (e : Event) (es : List Event) → Followed (e ∷ es) → Followed es
Followed-tail e [] f = tt
Followed-tail e (e' ∷ es) f = f.1

Followed-suffix : (front back : List Event) → Followed (front ++ back) → Followed back
Followed-suffix [] back f = f
Followed-suffix (e ∷ front) back f = Followed-suffix front back (Followed-tail e (front ++ back) f)

Followed-after :
    (at : ℕ) (view : StateView) (es : List Event)
    → Followed es
    → Followed (Domain.state_event at view ∷ es)
Followed-after at view [] f = refl
Followed-after at view (e ∷ es) f = (inl refl, f)

-- The last state of a list, after a first one.
abbrev pub last_view : StateView → List Event → StateView
last_view view [] = view
last_view view (Domain.state_event at now ∷ es) = last_view now es
last_view view (_ ∷ es) = last_view view es

module _ {S : Type 0} (base : UpdateCoordinator S) (p : Printing) where
  follow-data :
      (view : StateView) (es : List Event) (s : S)
      → base.data_of s ≡ some (mirror_view p view)
      → base.data_of (follow base (map (mirror_event p) es) s)
        ≡ some (mirror_view p (last_view view es))
  unfolding follow handle_event
  follow-data view [] s e = e
  follow-data view (Domain.state_event at now ∷ es) s e =
      follow-data now es (base.async_set_updated_data (mirror_view p now) s)
        (base.updated (mirror_view p now) s).0
  follow-data view (Domain.ring_event at d i ∷ es) s e = follow-data view es s e
  follow-data view (Domain.call_event at i st d ∷ es) s e = follow-data view es s e
  follow-data view (Domain.open_event at a b ∷ es) s e = follow-data view es s e
  follow-data view (Domain.registration_event at r c w b ∷ es) s e = follow-data view es s e
  follow-data view (Domain.webrtc_event at i c st w ∷ es) s e = follow-data view es s e

  -- The end of the stream leaves the data.
  handle_connection-data :
      (connected : Bool) (s : S)
      → base.data_of (handle_connection base connected s) ≡ base.data_of s
  unfolding handle_connection
  handle_connection-data true s = refl
  handle_connection-data false s = ground (arith, base.failed s)

is_state-eq :
    (e : Event)
    → is_state e ≡ true
    → (now : ℕ) × (view : StateView) × (e ≡ Domain.state_event now view)
is_state-eq (Domain.state_event now view) h = (now, view, refl)
is_state-eq (Domain.ring_event at d i) h = cc
is_state-eq (Domain.call_event at i st d) h = cc
is_state-eq (Domain.open_event at a b) h = cc
is_state-eq (Domain.registration_event at r c w b) h = cc
is_state-eq (Domain.webrtc_event at i c st w) h = cc

ends_in_state :
    (e : Event) (es : List Event)
    → Followed (e ∷ es)
    → (front : List Event) × (now : ℕ) × (view : StateView) × (e ∷ es
        ≡ front ++ Domain.state_event now view ∷ [])
ends_in_state e [] f =
    let (now, view, same) = is_state-eq e f in ([], now, view, ap (λ x. x ∷ []) same)
ends_in_state e (e' ∷ es) f =
    let (front, now, view, same) = ends_in_state e' es f.1 in
    (e ∷ front, now, view, ap (◌∷◌ e) same)

last_view-append :
    (first : StateView) (front : List Event) (now : ℕ) (view : StateView)
    → last_view first (front ++ Domain.state_event now view ∷ []) ≡ view
last_view-append first [] now view = refl
last_view-append first (Domain.state_event at v ∷ front) now view =
    last_view-append v front now view
last_view-append first (Domain.ring_event at d i ∷ front) now view =
    last_view-append first front now view
last_view-append first (Domain.call_event at i st d ∷ front) now view =
    last_view-append first front now view
last_view-append first (Domain.open_event at a b ∷ front) now view =
    last_view-append first front now view
last_view-append first (Domain.registration_event at r c w b ∷ front) now view =
    last_view-append first front now view
last_view-append first (Domain.webrtc_event at i c st w ∷ front) now view =
    last_view-append first front now view

-- The frames decode to objects that carry these events.
abbrev pub AreFrames : (String → Option Json) → Printing → List String → List Event → Type 0
AreFrames loads p [] [] = Unit {0}
AreFrames loads p (raw ∷ raws) (e ∷ es) =
    (fields : Fields) × (loads raw ≡ some (Json.object fields))
    × Carries p e fields
    × AreFrames loads p raws es
AreFrames loads p _ _ = ⊥

-- What the client is given, with its own `parse_event`.
abbrev pub surroundings :
    (ℕ → GatewayEvent → Bool)
    → (ℕ → Bool → Bool)
    → (String → Option Json)
    → Conversions
    → (String → Option ℕ)
    → Surroundings
surroundings event_raises conn_raises loads py parse_datetime = record {
  event_raises = event_raises;
  conn_raises = conn_raises;
  loads = loads;
  parse = parse_event py parse_datetime;
}

AreFrames-AreRead :
    (event_raises : ℕ → GatewayEvent → Bool) (conn_raises : ℕ → Bool → Bool)
    (loads : String → Option Json) (py : Conversions) (parse_datetime : String → Option ℕ)
    (p : Printing)
    → ((at : ℕ) → parse_datetime (p.instant at) ≡ some at)
    → (raws : List String) (es : List Event) → AreFrames loads p raws es
    → AreRead
        (surroundings event_raises conn_raises loads py parse_datetime)
        raws
        (map (mirror_event p) es)
AreFrames-AreRead r1 r2 loads py parse p back [] [] frames = tt
AreFrames-AreRead r1 r2 loads py parse p back [] (e ∷ es) frames = absurd frames
AreFrames-AreRead r1 r2 loads py parse p back (raw ∷ raws) [] frames = absurd frames
AreFrames-AreRead r1 r2 loads py parse p back (raw ∷ raws) (e ∷ es)
      (fields, decoded, carried, more) =
    (
      fields,
      decoded,
      parse_event-carried py p parse back e fields carried,
      AreFrames-AreRead r1 r2 loads py parse p back raws es more,
    )

-- What a run of the service publishes reaches Home Assistant: of a client that connects at some point
-- of any run and is sent a snapshot and all that is published from then on, the coordinator hears
-- exactly those events, and holds the mirror of the state that was published last, which is also the
-- last thing published, as the stream ends, however that ends and whatever it held before. The
-- coordinator's listener must stand once in the set, with nothing heard before; the frames must carry
-- the events, and Home Assistant read back their instants. Listeners may raise.
pub follow-run :
    {S : Type 0} (base : UpdateCoordinator S) (p : Printing) (tests : CallTests)
    (acts : List (Step Request)) (has_factory registered : Bool) (known : Option Doorphone)
    (front back : List Event) (at : ℕ) (snapshot : StateView)
    (event_raises : ℕ → GatewayEvent → Bool) (conn_raises : ℕ → Bool → Bool)
    (loads : String → Option Json) (py : Conversions) (parse_datetime : String → Option ℕ)
    (raws : List String) (last : Ending) (l : ℕ) (c : Client) (s : S)
    → (run tests acts (new_service has_factory registered known)).published ≡ front ++ back
    → ((now : ℕ) → parse_datetime (p.instant now) ≡ some now)
    → AreFrames loads p raws (Domain.state_event at snapshot ∷ back)
    → occurrences l c.event_listeners ≡ 1
    → told_to l c.heard ≡ []
    → let around = surroundings event_raises conn_raises loads py parse_datetime in
      let heard = told_to l (consume around (accepted (map Message.text raws) last) c).1.heard in
      let view = last_view snapshot back in
      (heard ≡ map (mirror_event p) (Domain.state_event at snapshot ∷ back))
      × (base.data_of (handle_connection base false (follow base heard s))
          ≡ some (mirror_view p view))
      × (before : List Event) × (now : ℕ) × (Domain.state_event at snapshot ∷ back
          ≡ before ++ Domain.state_event now view ∷ [])
unfolding follow handle_event
follow-run base p tests acts has_factory registered known front back at snapshot er cr loads py
      parse raws last l c s published back_ frames once fresh =
    let around = surroundings er cr loads py parse in
    let es = Domain.state_event at snapshot ∷ back in
    let all =
      consume-heard around l raws (map (mirror_event p) es) last c once
        (AreFrames-AreRead er cr loads py parse p back_ raws es frames) in
    let heard : told_to l (consume around (accepted (map Message.text raws) last) c).1.heard
        ≡ map (mirror_event p) es =
      all.1 ∙ ap (λ told. told ++ map (mirror_event p) es) fresh in
    let followed : Followed back =
      Followed-suffix front back
        (rw⁻¹ published (run-new_service-Followed tests acts has_factory registered known)) in
    let (before, now, view, end_) =
      ends_in_state (Domain.state_event at snapshot) back
        (Followed-after at snapshot back followed) in
    let same : last_view snapshot back ≡ view =
      ap (last_view snapshot) end_ ∙ last_view-append snapshot before now view in
    (
      heard,
      handle_connection-data base p false _
          ∙ rw heard (
              follow-data base p snapshot back
                (base.async_set_updated_data (mirror_view p snapshot) s)
                (base.updated (mirror_view p snapshot) s).0),
      before,
      now,
      rw same end_,
    )
