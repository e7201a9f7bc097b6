-- ===== src/Media/Session/Ending.antt =====
-- media/session.py: a session is torn down once, in one order.
use urmet_ha.Prelude.{
  ◌≡◌, refl, sym, ap, ◌∙◌, String, true, false, Option, none, some, List, [], ◌∷◌, ◌++◌,
  if◌then◌else◌, is_some, Bool-cases, inl, inr,
}
use mathlib.Core.List.{append_assoc, append-nil}
use urmet_ha.Domain.Errors.{Outcome, ok, raised, ErrorType}
use urmet_ha.Media.Audio.Bridge
use urmet_ha.Media.Audio.Bridge.{AudioBridge}
use urmet_ha.Media.Session.Acts.{SessionActs, session_acts, session_acts-IsKept, during}
use urmet_ha.Media.Session.{
  Session, Step, stops_uplink, closes_picture, detaches_audio, closes_bridge, closes_peer, tells,
  note, awaited, close_bridge, aclose,
}

-- A step of the teardown, and what happens during its await.
abbrev IsNoted : Step → SessionActs → Session → Type 0
IsNoted step m s =
    let t = session_acts m (note step s) in
    (t.closed ≡ true)
    × (t.steps ≡ s.steps ++ step ∷ [])
    × (t.reason ≡ s.reason)
    × (is_some s.bridge ≡ true → is_some t.bridge ≡ true)

noted : (step : Step) (m : SessionActs) (s : Session) → s.closed ≡ true → IsNoted step m s
unfolding note
noted step m s h = session_acts-IsKept m (record s { steps = s.steps ++ step ∷ [] }) h

close_bridge_lem :
    (s : Session)
    → ((close_bridge s).closed ≡ s.closed)
      × ((close_bridge s).steps ≡ s.steps ++ (if is_some s.bridge then closes_bridge ∷ [] else []))
      × ((close_bridge s).reason ≡ s.reason)
unfolding close_bridge note
close_bridge_lem s = go s.bridge
  where
    go :
        (b : Option AudioBridge)
        → let t : Session = elim b [
          | none ↦ s
          | some x ↦ note closes_bridge (record s { bridge = some (Bridge.close x) })
        ] in
          (t.closed ≡ s.closed)
          × (t.steps ≡ s.steps ++ (if is_some b then closes_bridge ∷ [] else []))
          × (t.reason ≡ s.reason)
    go none = (refl, sym (append-nil s.steps), refl)
    go (some x) = (refl, refl, refl)

-- The steps from the picture on, of a session that is closing.
abbrev rest_of : String → Option AudioBridge → List Step
rest_of reason b =
    closes_picture
    ∷ detaches_audio
    ∷ ((if is_some b then closes_bridge ∷ [] else []) ++ closes_peer ∷ tells reason ∷ [])

steps_joined :
    (last : Step) (l0 l1 l2 l3 l4 x : List Step)
    → l1 ≡ l0 ++ closes_picture ∷ []
    → l2 ≡ l1 ++ detaches_audio ∷ []
    → l3 ≡ l2 ++ x
    → l4 ≡ l3 ++ closes_peer ∷ []
    → l4 ++ last ∷ [] ≡ l0 ++ closes_picture ∷ detaches_audio ∷ (x ++ closes_peer ∷ last ∷ [])
steps_joined last l0 l1 l2 l3 l4 x e1 e2 e3 e4 = rw (e4, e3, e2, e1) (simp append_assoc refl)

unplugged-order :
    (reason : String) (p a c : SessionActs) (s : Session)
    → s.closed ≡ true
    → let t2 = session_acts a (note detaches_audio (session_acts p (note closes_picture s))) in
      let t3 = close_bridge t2 in
      let t = note (tells reason) (session_acts c (note closes_peer t3)) in
      (t.closed ≡ true)
      × (t.reason ≡ s.reason)
      × (t.steps ≡ s.steps ++ rest_of reason t2.bridge)
      × (is_some s.bridge ≡ true → is_some t2.bridge ≡ true)
unfolding note
unplugged-order reason p a c s h =
    let t1 = session_acts p (note closes_picture s) in
    let t2 = session_acts a (note detaches_audio t1) in
    let t3 = close_bridge t2 in
    let k1 = noted closes_picture p s h in
    let k2 = noted detaches_audio a t1 k1.0 in
    let k3 = close_bridge_lem t2 in
    let k4 = noted closes_peer c t3 (k3.0 ∙ k2.0) in
    (
      k4.0,
      k4.2 ∙ k3.2 ∙ k2.2 ∙ k1.2,
      steps_joined (tells reason) s.steps t1.steps t2.steps t3.steps
          (session_acts c (note closes_peer t3)).steps
          (if is_some t2.bridge then closes_bridge ∷ [] else []) k1.1 k2.1 k3.1 k4.1,
      λ b. k2.3 (k1.3 b),
    )

-- The session once the uplink, if there is one, is stopped, the picture closed and the voice detached.
unfoldable pub detached : String → (u p a : SessionActs) → Session → Session
detached reason u p a s =
    let begun : Session = record s { closed = true; reason = reason; uplink = false } in
    let silent = if s.uplink then session_acts u (note stops_uplink begun) else begun in
    session_acts a (note detaches_audio (session_acts p (note closes_picture silent)))

-- The steps that follow the uplink's.
behind_uplink :
    (reason : String) (l0 l : List Step) (b : Option AudioBridge)
    → l0 ≡ l ++ stops_uplink ∷ []
    → l0 ++ rest_of reason b ≡ l ++ (stops_uplink ∷ rest_of reason b)
behind_uplink reason l0 l b e = rw e (simp append_assoc refl)

-- What a teardown in which nothing raises comes to: the steps in their order, whatever else happens
-- meanwhile, an answer in progress and further calls of `aclose` included. The uplink is stopped where
-- there is one at the start; the bridge is closed where there is one once the voice is detached, which
-- is so where there was one at the start; and the layer above is told once, and last.
pub aclose-order :
    (reason : String) (u p a c : SessionActs) (s : Session)
    → s.closed ≡ false
    → let (out, t) =
        aclose reason
          (during u (ok tt))
          (during p (ok tt))
          (during a (ok tt))
          (during c (ok tt))
          s in
      let bridge = (detached reason u p a s).bridge in
      (out ≡ ok tt)
      × (t.closed ≡ true)
      × (t.reason ≡ reason)
      × (t.steps
          ≡ s.steps ++ ((if s.uplink then stops_uplink ∷ [] else []) ++ rest_of reason bridge))
      × (is_some s.bridge ≡ true → is_some bridge ≡ true)
unfolding aclose awaited detached
aclose-order reason u p a c s h =
    let begun : Session = record s { closed = true; reason = reason; uplink = false } in
    let silenced = session_acts u (note stops_uplink begun) in
    let k = noted stops_uplink u begun refl in
    let with_uplink = unplugged-order reason p a c silenced k.0 in
    let without = unplugged-order reason p a c begun refl in
    let dark =
      session_acts a (note detaches_audio (session_acts p (note closes_picture silenced))) in
    elim (Bool-cases s.uplink) [
      | inl up ↦
          rw (h, up)
            (
              refl,
              with_uplink.0,
              with_uplink.1 ∙ k.2,
              with_uplink.2 ∙ behind_uplink reason silenced.steps s.steps dark.bridge k.1,
              λ b. with_uplink.3 (k.3 b),
            )
      | inr down ↦ rw (h, down) (refl, without.0, without.1, without.2, without.3)
    ]

-- A teardown in which closing the picture raises ends there for good: the layer above is not told of
-- the end, then or after any further calls of `aclose`, and nothing is detached or closed after it.
pub aclose_raised :
    (reason : String) (e : ErrorType) (u p a c later : SessionActs) (oa oc : Outcome (Unit {0}))
    (s : Session)
    → s.closed ≡ false
    → let (out, t) =
        aclose reason (during u (ok tt)) (during p (raised e)) (during a oa) (during c oc) s in
      (out ≡ raised e)
      × (t.closed ≡ true)
      × ((session_acts later t).steps
          ≡ s.steps ++ ((if s.uplink then stops_uplink ∷ [] else []) ++ closes_picture ∷ []))
unfolding aclose awaited
aclose_raised reason e u p a c later oa oc s h =
    let begun : Session = record s { closed = true; reason = reason; uplink = false } in
    let silenced = session_acts u (note stops_uplink begun) in
    let k = noted stops_uplink u begun refl in
    let dark = noted closes_picture p silenced k.0 in
    let dark' = noted closes_picture p begun refl in
    elim (Bool-cases s.uplink) [
      | inl up ↦
          let after =
            session_acts-IsKept later (session_acts p (note closes_picture silenced)) dark.0 in
          rw (h, up)
            (
              refl,
              dark.0,
              after.1
                  ∙ dark.1
                  ∙ ap (λ l. l ++ closes_picture ∷ []) k.1
                  ∙ append_assoc s.steps (stops_uplink ∷ []) (closes_picture ∷ []),
            )
      | inr down ↦
          let after =
            session_acts-IsKept later (session_acts p (note closes_picture begun)) dark'.0 in
          rw (h, down) (refl, dark'.0, after.1 ∙ dark'.1)
    ]
