-- ===== src/Integration/Client/Delivery.antt =====
-- client.py on the gateway's stream: every event of it reaches every listener, in order.
use mathlib.Core.List.{append-nil, append_assoc}
use urmet_ha.Prelude.{
  ℕ, String, ◌≡◌, refl, sym, ap, ◌∙◌, Bool, true, false, some, List, [], ◌∷◌, ◌++◌, map,
  if◌then◌else◌,
}
use urmet_ha.Domain.Errors.{ok}
use urmet_ha.Integration.Json.{Json, Fields}
use urmet_ha.Integration.Events.{GatewayEvent}
use urmet_ha.Integration.Client.Calls.{told_to, calls_of, occurrences, told_to-append, told_to-once}
use urmet_ha.Integration.Client.{
  Client, Surroundings, Message, Ending, returned, failed, accepted, tell_each, set_connected,
  hear_each, dispatch_json, dispatch_event, read_messages, consume, write, note_raise, reconnected,
}

-- The listeners of the events, and what they heard.
abbrev SameEvents : Client → Client → Type 0
SameEvents c c' = (c'.event_listeners ≡ c.event_listeners) × (c'.heard ≡ c.heard)

note_raise-SameEvents : (b : Bool) (c : Client) → SameEvents c (note_raise b c)
unfolding note_raise write
note_raise-SameEvents true c = (refl, refl)
note_raise-SameEvents false c = (refl, refl)

module _ (around : Surroundings) where
  hear_each-calls :
      (event : GatewayEvent) (ls : List ℕ) (c : Client)
      → let c' = hear_each around event ls c in
        (c'.event_listeners ≡ c.event_listeners) × (c'.heard ≡ c.heard ++ calls_of event ls)
  unfolding hear_each
  hear_each-calls event [] c = (refl, sym (append-nil c.heard))
  hear_each-calls event (j ∷ js) c =
      let c1 = record c { heard = c.heard ++ (j, event) ∷ [] } in
      let noted = note_raise-SameEvents (around.event_raises j event) c1 in
      let rest = hear_each-calls event js (note_raise (around.event_raises j event) c1) in
      (
        rest.0 ∙ noted.0,
        rest.1 ∙ rw noted.1 (append_assoc c.heard ((j, event) ∷ []) (calls_of event js)),
      )

  tell_each-SameEvents :
      (value : Bool) (ls : List ℕ) (c : Client) → SameEvents c (tell_each around value ls c)
  unfolding tell_each
  tell_each-SameEvents value [] c = (refl, refl)
  tell_each-SameEvents value (j ∷ js) c =
      let c1 = record c { told = c.told ++ (j, value) ∷ [] } in
      let noted = note_raise-SameEvents (around.conn_raises j value) c1 in
      let rest = tell_each-SameEvents value js (note_raise (around.conn_raises j value) c1) in
      (rest.0 ∙ noted.0, rest.1 ∙ noted.1)

  if_SameEvents :
      (b : Bool) (c x y : Client)
      → SameEvents c x
      → SameEvents c y
      → SameEvents c (if b then x else y)
  if_SameEvents true c x y s t = s
  if_SameEvents false c x y s t = t

  set_connected-SameEvents :
      (value : Bool) (c : Client) → SameEvents c (set_connected around value c)
  unfolding set_connected
  set_connected-SameEvents value c =
      if_SameEvents _ c _ _ (refl, refl)
        (tell_each-SameEvents value c.conn_listeners (record c { connected = value }))

  -- The frames decode to objects that are read as these events.
  abbrev pub AreRead : List String → List GatewayEvent → Type 0
  AreRead [] [] = Unit {0}
  AreRead (raw ∷ raws) (e ∷ es) =
      (fields : Fields) × (around.loads raw ≡ some (Json.object fields))
      × (around.parse fields ≡ ok e)
      × AreRead raws es
  AreRead _ _ = ⊥

  dispatch_event-read :
      (raw : String) (fields : Fields) (e : GatewayEvent) (c : Client)
      → around.loads raw ≡ some (Json.object fields)
      → around.parse fields ≡ ok e
      → dispatch_event around raw c ≡ (returned, hear_each around e c.event_listeners c)
  unfolding dispatch_event dispatch_json
  dispatch_event-read raw fields e c decoded parsed =
      rw (decoded, dispatch_event) (rw (parsed, dispatch_json) refl)

  read_messages-text :
      (raw : String) (ms : List Message) (last : Ending) (c c1 : Client)
      → dispatch_event around raw c ≡ (returned, c1)
      → read_messages around (Message.text raw ∷ ms) last c ≡ read_messages around ms last c1
  unfolding read_messages
  read_messages-text raw ms last c c1 e =
      let go_on : Ending × Client → Ending × Client =
        λ r. elim r.0 [ returned ↦ read_messages around ms last r.1 | failed why ↦ r ] in
      ap go_on e

  module _ (l : ℕ) where
    read_messages-heard :
        (raws : List String) (es : List GatewayEvent) (last : Ending) (c : Client)
        → occurrences l c.event_listeners ≡ 1
        → AreRead raws es
        → let r = read_messages around (map Message.text raws) last c in
          (r.0 ≡ last) × (told_to l r.1.heard ≡ told_to l c.heard ++ es)
    unfolding read_messages
    read_messages-heard [] [] last c once read = (refl, sym (append-nil (told_to l c.heard)))
    read_messages-heard [] (e ∷ es) last c once read = absurd read
    read_messages-heard (raw ∷ raws) [] last c once read = absurd read
    read_messages-heard (raw ∷ raws) (e ∷ es) last c once (fields, decoded, parsed, more) =
        let c1 = hear_each around e c.event_listeners c in
        let heard = hear_each-calls e c.event_listeners c in
        let rest = read_messages-heard raws es last c1 (rw heard.0 once) more in
        let step =
          read_messages-text raw (map Message.text raws) last c c1
            (dispatch_event-read raw fields e c decoded parsed) in
        rw step (
          rest.0,
          rest.1
              ∙ rw
                  (
                    heard.1,
                    told_to-append l c.heard (calls_of e c.event_listeners),
                    told_to-once l e c.event_listeners once,
                  )
                  (append_assoc (told_to l c.heard) (e ∷ []) es),
        )

    -- A socket that is accepted and then brings these frames.
    pub consume-heard :
        (raws : List String) (es : List GatewayEvent) (last : Ending) (c : Client)
        → occurrences l c.event_listeners ≡ 1
        → AreRead raws es
        → let r = consume around (accepted (map Message.text raws) last) c in
          (r.0 ≡ last) × (told_to l r.1.heard ≡ told_to l c.heard ++ es)
    unfolding consume write
    consume-heard raws es last c once read =
        let up = if c.degraded then record (write reconnected c) { degraded = false } else c in
        let rose : SameEvents c up = if_SameEvents c.degraded c _ c (refl, refl) (refl, refl) in
        let opened = set_connected around true up in
        let open_ = set_connected-SameEvents true up in
        let r = read_messages around (map Message.text raws) last opened in
        let heard = read_messages-heard raws es last opened (rw (open_.0, rose.0) once) read in
        (
          heard.0,
          ap (told_to l) (set_connected-SameEvents false r.1).1
              ∙ heard.1
              ∙ ap (λ told. told_to l told ++ es) (open_.1 ∙ rose.1),
        )
