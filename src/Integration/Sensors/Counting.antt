-- ===== src/Integration/Sensors/Counting.antt =====
-- sensor.py on the gateway's own events: what the counters count and what the call sensors show.
use urmet_ha.Prelude.{
  ◌⊎◌, ℕ, suc, ◌+◌, ◌≡◌, refl, sym, ap, ◌∙◌, Bool, true, false, none, some, List, [], ◌∷◌, map, inl,
  inr, Bool-cases, ◌==◌, if◌then◌else◌, arith,
}
use mathlib.Core.Path.{subst}
use urmet_ha.Domain
use urmet_ha.Domain.{ActuatorName, Event}
use urmet_ha.Integration.Models.{is_active}
use urmet_ha.Integration.Events.{GatewayEvent}
use urmet_ha.Integration.Events.Wire.{
  Printing, actuator_word, mirror_state, mirror_call, mirror_view, mirror_event,
}
use urmet_ha.Integration.Sensors.{
  Sensor, handle, handle_all, differs, reduce_counter, is_ring, is_door, is_gate, call_state_value,
  call_active, any_active, first_active, last_state, call_state_option,
}

-- How often the gateway acknowledged an actuator, and how often the panel rang.
abbrev pub acknowledged_opens : ActuatorName → List Event → ℕ
acknowledged_opens a [] = 0
acknowledged_opens ActuatorName.door (Domain.open_event at ActuatorName.door true ∷ es) =
    suc (acknowledged_opens ActuatorName.door es)
acknowledged_opens ActuatorName.gate (Domain.open_event at ActuatorName.gate true ∷ es) =
    suc (acknowledged_opens ActuatorName.gate es)
acknowledged_opens a (_ ∷ es) = acknowledged_opens a es

abbrev pub rings : List Event → ℕ
rings [] = 0
rings (Domain.ring_event at doorphone id ∷ es) = suc (rings es)
rings (_ ∷ es) = rings es

abbrev pub matched : (GatewayEvent → Bool) → List GatewayEvent → ℕ
matched matches [] = 0
matched matches (e ∷ es) = let rest = matched matches es in if matches e then suc rest else rest

succ_differs : (n : ℕ) → (n + 1 == n) ≡ false
succ_differs n = ground arith

handle-counts :
    (matches : GatewayEvent → Bool) (e : GatewayEvent) (n writes : ℕ)
    → handle ◌==◌ (reduce_counter matches) e (record { value = some n; writes = writes }) ≡ (
        if matches e
        then record { value = some (n + 1); writes = suc writes }
        else record { value = some n; writes = writes })
unfolding handle reduce_counter differs
handle-counts matches e n writes = ground arith

-- How a counter and its writes stand after so many matching events.
abbrev Counted : ℕ → ℕ → ℕ → Sensor ℕ → Type 0
Counted n writes count s = (s.value ≡ some (n + count)) × (s.writes ≡ writes + count)

handle_all-counts :
    (matches : GatewayEvent → Bool) (es : List GatewayEvent) (n writes : ℕ)
    → Counted n writes
        (matched matches es)
        (handle_all ◌==◌ (reduce_counter matches) es (record { value = some n; writes = writes }))
unfolding handle_all
handle_all-counts matches [] n writes = (ap some (omega arith), omega arith)
handle_all-counts matches (e ∷ es) n writes =
    let done = matched matches es in
    let go : Sensor ℕ → Sensor ℕ = λ s. handle_all ◌==◌ (reduce_counter matches) es s in
    elim (Bool-cases (matches e)) [
      | inl yes_ ↦
          let next : handle ◌==◌ (reduce_counter matches) e
                (record { value = some n; writes = writes })
              ≡ record { value = some (n + 1); writes = suc writes } =
            handle-counts matches e n writes ∙ rw yes_ refl in
          let rest = handle_all-counts matches es (n + 1) (suc writes) in
          let count : suc done ≡ matched matches (e ∷ es) = rw yes_ refl in
          subst
            (λ k. Counted n writes k (
              go (
                handle ◌==◌ (reduce_counter matches) e
                  (record { value = some n; writes = writes }))))
            count
            (subst (λ s. Counted n writes (suc done) (go s)) (sym next)
              (rest.0 ∙ ap some (omega arith), rest.1 ∙ omega arith))
      | inr no_ ↦
          let next = handle-counts matches e n writes ∙ rw no_ refl in
          let count : done ≡ matched matches (e ∷ es) = rw no_ refl in
          subst
            (λ k. Counted n writes k (
              go (
                handle ◌==◌ (reduce_counter matches) e
                  (record { value = some n; writes = writes }))))
            count
            (subst (λ s. Counted n writes done (go s)) (sym next)
              (handle_all-counts matches es n writes))
    ]

-- The matching events of a stream, by what the gateway published.
module _ (p : Printing) where
  matched-rings : (es : List Event) → matched is_ring (map (mirror_event p) es) ≡ rings es
  unfolding is_ring
  matched-rings [] = refl
  matched-rings (Domain.ring_event at d i ∷ es) = ap suc (matched-rings es)
  matched-rings (Domain.state_event at v ∷ es) = matched-rings es
  matched-rings (Domain.call_event at i s d ∷ es) = matched-rings es
  matched-rings (Domain.open_event at a b ∷ es) = matched-rings es
  matched-rings (Domain.registration_event at r c w b ∷ es) = matched-rings es
  matched-rings (Domain.webrtc_event at i c s w ∷ es) = matched-rings es

  matched-opens :
      (es : List Event)
      → (matched is_door (map (mirror_event p) es) ≡ acknowledged_opens ActuatorName.door es)
        × (matched is_gate (map (mirror_event p) es) ≡ acknowledged_opens ActuatorName.gate es)
  unfolding is_door is_gate actuator_word
  matched-opens [] = (refl, refl)
  matched-opens (Domain.open_event at ActuatorName.door true ∷ es) =
      let rest = matched-opens es in (ap suc rest.0, rest.1)
  matched-opens (Domain.open_event at ActuatorName.gate true ∷ es) =
      let rest = matched-opens es in (rest.0, ap suc rest.1)
  matched-opens (Domain.open_event at ActuatorName.door false ∷ es) = matched-opens es
  matched-opens (Domain.open_event at ActuatorName.gate false ∷ es) = matched-opens es
  matched-opens (Domain.ring_event at d i ∷ es) = matched-opens es
  matched-opens (Domain.state_event at v ∷ es) = matched-opens es
  matched-opens (Domain.call_event at i s d ∷ es) = matched-opens es
  matched-opens (Domain.registration_event at r c w b ∷ es) = matched-opens es
  matched-opens (Domain.webrtc_event at i c s w ∷ es) = matched-opens es

  -- The three totals, from whatever each was restored to, grow by exactly the rings that the gateway
  -- published, the opens of the door that it acknowledged and those of the gate: an open whose outcome
  -- is unknown counts nowhere, no event counts twice, and each step is written once.
  pub counters-run :
      (es : List Event) (n writes : ℕ)
      → let heard = map (mirror_event p) es in
        let start : Sensor ℕ = record { value = some n; writes = writes } in
        let count : (GatewayEvent → Bool) → Sensor ℕ =
          λ matches. handle_all ◌==◌ (reduce_counter matches) heard start in
        ((count is_ring).value ≡ some (n + rings es))
        × ((count is_door).value ≡ some (n + acknowledged_opens ActuatorName.door es))
        × ((count is_gate).value ≡ some (n + acknowledged_opens ActuatorName.gate es))
        × ((count is_ring).writes ≡ writes + rings es)
  counters-run es n writes =
      let heard = map (mirror_event p) es in
      let opens = matched-opens es in
      let rung = handle_all-counts is_ring heard n writes in
      (
        rung.0 ∙ ap (λ k. some (n + k)) (matched-rings es),
        (handle_all-counts is_door heard n writes).0 ∙ ap (λ k. some (n + k)) opens.0,
        (handle_all-counts is_gate heard n writes).0 ∙ ap (λ k. some (n + k)) opens.1,
        rung.1 ∙ ap (λ k. writes + k) (matched-rings es),
      )

  -- The state that the call sensor shows is that of a dialog, or idle.
  shown :
      (calls : List Domain.CallView)
      → let mirrored = map (mirror_call p) calls in
        (s : Domain.CallState) × (((first_active mirrored ≡ some (mirror_state s))
            × (is_active (mirror_state s) ≡ true)
            × (any_active mirrored ≡ true))
          ⊎ ((first_active mirrored ≡ none)
              × (last_state mirrored ≡ mirror_state s)
              × (is_active (mirror_state s) ≡ false)
              × (any_active mirrored ≡ false)))
  unfolding first_active any_active last_state is_active
  shown [] = (Domain.CallState.idle, inr (refl, refl, refl, refl))
  shown (c ∷ []) = elim (Bool-cases (is_active (mirror_state c.state))) [
    | inl e ↦ (c.state, inl (rw e refl, e, rw e refl))
    | inr e ↦ (c.state, inr (rw e refl, refl, e, rw e refl))
  ]
  shown (c ∷ d ∷ calls) = elim (Bool-cases (is_active (mirror_state c.state))) [
    | inl e ↦ (c.state, inl (rw e refl, e, rw e refl))
    | inr e ↦ rw e (shown (d ∷ calls))
  ]

  option_word : (s : Domain.CallState) → call_state_option (mirror_state s) ≡ some (p.state_word s)
  unfolding call_state_option
  option_word Domain.CallState.idle = ap some (sym p.state_words.0)
  option_word Domain.CallState.ringing = ap some (sym p.state_words.1)
  option_word Domain.CallState.connecting = ap some (sym p.state_words.2)
  option_word Domain.CallState.streaming = ap some (sym p.state_words.3)
  option_word Domain.CallState.ended = ap some (sym p.state_words.4)
  option_word Domain.CallState.error = ap some (sym p.state_words.5)

  -- On every state of the gateway the call sensor and the call binary sensor agree: the one shows the
  -- state of some dialog, or idle, and is never without a value, and the other is on exactly when the
  -- state that is shown is an active one.
  pub call_sensors-agree :
      (view : Domain.StateView)
      → (s : Domain.CallState) × (call_state_value (some (mirror_view p view))
          ≡ some (p.state_word s))
        × (call_active (some (mirror_view p view)) ≡ some (is_active (mirror_state s)))
  unfolding call_state_value call_active
  call_sensors-agree view =
      let (s, how) = shown view.calls in
      elim how [
        | inl (first, active, any) ↦
            (s, rw (first, call_state_value) (option_word s), ap some (any ∙ sym active))
        | inr (first, last, active, any) ↦ (
          s,
          rw (first, call_state_value) (ap call_state_option last ∙ option_word s),
          ap some (any ∙ sym active),
        )
      ]
