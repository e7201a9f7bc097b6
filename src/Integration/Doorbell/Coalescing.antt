-- ===== src/Integration/Doorbell/Coalescing.antt =====
-- event.py: how the doorbell entity makes one event of a burst of rings.
use mathlib.Core.List.{append_assoc, append-nil}
use mathlib.Core.Path.{subst}
use urmet_ha.Prelude.{
  ℕ, ◌+◌, ◌-◌, ◌≤◌, ◌<◌, String, ◌≡◌, refl, sym, ap, ◌∙◌, ◌⊎◌, inl, inr, true, false, Option, none,
  some, List, [], ◌∷◌, ◌++◌, ltb, if◌then◌else◌, arith, Bool-cases,
}
use urmet_ha.Integration.Models.{DoorphoneView}
use urmet_ha.Integration.Events.{GatewayEvent, ring_event}
use urmet_ha.Integration.Doorbell.{
  Ring, Doorbell, new_doorbell, is_burst, ring_of, hear_ring, hear_all,
}

-- The instants do not go back.
abbrev pub NeverBack : ℕ → List (ℕ × GatewayEvent) → Type 0
NeverBack lo [] = Unit {0}
NeverBack lo ((now, event) ∷ heard) = (lo ≤ now) × NeverBack now heard

-- A fire follows the one before by the window at least.
abbrev pub AreSpaced : ℕ → Option ℕ → List (ℕ × Ring) → Type 0
AreSpaced window last [] = Unit {0}
AreSpaced window none ((now, ring) ∷ fires) = AreSpaced window (some now) fires
AreSpaced window (some last) ((now, ring) ∷ fires) =
    (last + window ≤ now) × AreSpaced window (some now) fires

-- A fire that is no later than the instant and less than the window before it, or at it.
abbrev pub Covers : ℕ → ℕ → ℕ → Type 0
Covers window now fire = (fire ≤ now) × ((fire ≡ now) ⊎ (now < fire + window))

abbrev pub HasCover : ℕ → ℕ → List (ℕ × Ring) → Type 0
HasCover window now [] = ⊥
HasCover window now ((fire, ring) ∷ fires) = Covers window now fire ⊎ HasCover window now fires

abbrev pub LastCovers : ℕ → ℕ → Option ℕ → Type 0
LastCovers window now none = ⊥
LastCovers window now (some last) = Covers window now last

-- Every ring is covered, by the last fire before or by one of these.
abbrev pub AreCovered : ℕ → Option ℕ → List (ℕ × Ring) → List (ℕ × GatewayEvent) → Type 0
AreCovered window last fires [] = Unit {0}
AreCovered window last fires ((now, ring_event at d id) ∷ heard) =
    (LastCovers window now last ⊎ HasCover window now fires) × AreCovered window last fires heard
AreCovered window last fires (_ ∷ heard) = AreCovered window last fires heard

-- The fires are some of the rings, in order, each with what its ring said.
pub data IsPicked : List (ℕ × Ring) → List (ℕ × GatewayEvent) → Type 0 where
  picked_none : IsPicked [] []
  passed :
      {fires : List (ℕ × Ring)} {heard : List (ℕ × GatewayEvent)} (e : ℕ × GatewayEvent)
      → IsPicked fires heard
      → IsPicked fires (e ∷ heard)
  picked :
      {fires : List (ℕ × Ring)} {heard : List (ℕ × GatewayEvent)} (now : ℕ) (at : Option ℕ)
      (d : Option DoorphoneView) (id : Option String)
      → IsPicked fires heard
      → IsPicked ((now, ring_of d id) ∷ fires) ((now, ring_event at d id) ∷ heard)

covered_by_first :
    (window now : ℕ) (ring : Ring) (last : Option ℕ) (fires : List (ℕ × Ring))
    (heard : List (ℕ × GatewayEvent))
    → AreCovered window (some now) fires heard
    → AreCovered window last ((now, ring) ∷ fires) heard
covered_by_first window now ring last fires [] c = tt
covered_by_first window now ring last fires ((t, ring_event at d id) ∷ heard) c =
    (inr c.0, covered_by_first window now ring last fires heard c.1)
covered_by_first window now ring last fires ((t, _) ∷ heard) c =
    covered_by_first window now ring last fires heard c

record Coalesced (window : ℕ) (last : Option ℕ) (before : List (ℕ × Ring))
    (heard : List (ℕ × GatewayEvent)) (after : List (ℕ × Ring)) : Type 0 where
  fires : List (ℕ × Ring)
  fired : after ≡ before ++ fires
  picked_ : IsPicked fires heard
  spaced : AreSpaced window last fires
  covered : AreCovered window last fires heard

abbrev AtMost : Option ℕ → ℕ → Type 0
AtMost none lo = Unit {0}
AtMost (some last) lo = last ≤ lo

AtMost-later : (last : Option ℕ) (lo now : ℕ) → AtMost last lo → lo ≤ now → AtMost last now
AtMost-later none lo now a h = tt
AtMost-later (some last) lo now a h = omega (arith, a, h)

abbrev IsOver : ℕ → ℕ → Option ℕ → Type 0
IsOver window now none = Unit {0}
IsOver window now (some last) = last + window ≤ now

burst-cases :
    (window now : ℕ) (last : Option ℕ)
    → AtMost last now
    → ((is_burst window now last ≡ true) × LastCovers window now last)
      ⊎ ((is_burst window now last ≡ false) × IsOver window now last)
unfolding is_burst
burst-cases window now none a = inr (refl, tt)
burst-cases window now (some last) a = elim (Bool-cases (ltb (now - last) window)) [
  | inl e ↦ inl (e, (a, inr (ground (arith, a, e))))
  | inr e ↦ inr (e, ground (arith, a, e))
]

AreSpaced-first :
    (window now : ℕ) (ring : Ring) (last : Option ℕ) (fires : List (ℕ × Ring))
    → IsOver window now last
    → AreSpaced window (some now) fires
    → AreSpaced window last ((now, ring) ∷ fires)
AreSpaced-first window now ring none fires o s = s
AreSpaced-first window now ring (some last) fires o s = (o, s)

hear_all-Coalesced :
    (window lo : ℕ) (heard : List (ℕ × GatewayEvent)) (d : Doorbell)
    → NeverBack lo heard
    → AtMost d.last_fire lo
    → Coalesced window d.last_fire d.fired heard (hear_all window heard d).fired
unfolding hear_all hear_ring
hear_all-Coalesced window lo [] d n a = record {
  fires = [];
  fired = sym (append-nil d.fired);
  picked_ = picked_none;
  spaced = tt;
  covered = tt;
}
hear_all-Coalesced window lo ((now, ring_event at doorphone id) ∷ heard) d n a =
    let result : Doorbell → Type 0 = λ d'.
      Coalesced window d.last_fire d.fired ((now, ring_event at doorphone id) ∷ heard)
        (hear_all window heard d').fired in
    let ring = ring_of doorphone id in
    let rung : Doorbell = record { last_fire = some now; fired = d.fired ++ (now, ring) ∷ [] } in
    elim (burst-cases window now d.last_fire (AtMost-later d.last_fire lo now a n.0)) [
      | inl (e, covers) ↦
          let rest =
            hear_all-Coalesced window now heard d n.1 (AtMost-later d.last_fire lo now a n.0) in
          let same : d ≡ (if is_burst window now d.last_fire then d else rung) =
            ap (λ b. if b then d else rung) (sym e) in
          subst result same (record {
            fires = rest.fires;
            fired = rest.fired;
            picked_ = passed (now, ring_event at doorphone id) rest.picked_;
            spaced = rest.spaced;
            covered = (inl covers, rest.covered);
          })
      | inr (e, over) ↦
          let rest = hear_all-Coalesced window now heard rung n.1 (omega arith) in
          let same : rung ≡ (if is_burst window now d.last_fire then d else rung) =
            ap (λ b. if b then d else rung) (sym e) in
          subst result same (record {
            fires = (now, ring) ∷ rest.fires;
            fired = rest.fired ∙ append_assoc d.fired ((now, ring) ∷ []) rest.fires;
            picked_ = picked now at doorphone id rest.picked_;
            spaced = AreSpaced-first window now ring d.last_fire rest.fires over rest.spaced;
            covered = (
              inr (inl (omega arith, inl refl)),
              covered_by_first window now ring d.last_fire rest.fires heard rest.covered,
            );
          })
    ]
hear_all-Coalesced window lo ((now, e) ∷ heard) d n a =
    let rest = hear_all-Coalesced window now heard d n.1 (AtMost-later d.last_fire lo now a n.0) in
    record {
      fires = rest.fires;
      fired = rest.fired;
      picked_ = passed (now, e) rest.picked_;
      spaced = rest.spaced;
      covered = rest.covered;
    }

-- Of a stream whose instants do not go back, the doorbell fires some of the rings, in order and each
-- with what its ring said; one fire follows the one before by the window at least; and every ring is
-- within the window after some fire, or is one: a burst gives one event, and no burst gives none.
pub hear_all-coalesces :
    (window : ℕ) (heard : List (ℕ × GatewayEvent))
    → NeverBack 0 heard
    → let fires = (hear_all window heard new_doorbell).fired in
      IsPicked fires heard × AreSpaced window none fires × AreCovered window none fires heard
hear_all-coalesces window heard n =
    let all = hear_all-Coalesced window 0 heard new_doorbell n tt in
    let same = sym all.fired in
    (
      subst (λ fires. IsPicked fires heard) same all.picked_,
      subst (AreSpaced window none) same all.spaced,
      subst (λ fires. AreCovered window none fires heard) same all.covered,
    )
