-- ===== src/Integration/Repairs/Routing.antt =====
-- repairs.py: when the issue of calls that are not routed stands, told by the history alone.
use mathlib.Core.Path.{subst}
use urmet_ha.Prelude.{
  ℕ, ◌+◌, ◌≤◌, ◌≡◌, refl, sym, ap, ◌∙◌, ◌↔◌, ◌⊎◌, inl, inr, Bool, true, false, ◌&&◌, is_some, List,
  [], ◌∷◌, ◌++◌, ◌==◌, ==_iff, if◌then◌else◌, arith, Bool-cases,
}
use urmet_ha.Integration.Events.{GatewayEvent, state_event, registration_event}
use urmet_ha.Integration.Repairs.{
  calls_not_routed, Monitor, new_monitor, Input, event, offer_status, take_input, run, handle_event,
  note_offer_status, refused, raise_issue, clear, on_registration, same_issue, is_success,
}

-- Whether the events so far say that the gateway is registered.
abbrev pub registered_by : Bool → GatewayEvent → Bool
registered_by b (state_event at view) = view.registered
registered_by b (registration_event at registered code reason released) = registered
registered_by b _ = b

abbrev pub registered_after : Bool → List Input → Bool
registered_after b [] = b
registered_after b (event e ∷ inputs) = registered_after (registered_by b e) inputs
registered_after b (offer_status status ∷ inputs) = registered_after b inputs

-- The offers that are answered 503 while the gateway is registered.
abbrev pub refusals : Bool → List Input → ℕ
refusals b [] = 0
refusals b (event e ∷ inputs) = refusals (registered_by b e) inputs
refusals b (offer_status status ∷ inputs) =
    (if b && (status == 503) then 1 else 0) + refusals b inputs

-- No offer is answered otherwise than by 503.
abbrev pub IsUnbroken : List Input → Type 0
IsUnbroken [] = Unit {0}
IsUnbroken (event e ∷ inputs) = IsUnbroken inputs
IsUnbroken (offer_status status ∷ inputs) = (status ≡ 503) × IsUnbroken inputs

-- No offer succeeds.
abbrev pub HasNoSuccess : List Input → Type 0
HasNoSuccess [] = Unit {0}
HasNoSuccess (event e ∷ inputs) = HasNoSuccess inputs
HasNoSuccess (offer_status status ∷ inputs) = (is_success status ≡ false) × HasNoSuccess inputs

abbrev pub stands : Monitor → Bool
stands m = is_some (m.issues calls_not_routed)

-- What an event does to the routing part.
handle_event-routing :
    (e : GatewayEvent) (m : Monitor)
    → let m' = handle_event e m in
      (m'.registered ≡ registered_by m.registered e)
      × (m'.consecutive_503 ≡ m.consecutive_503)
      × (stands m' ≡ stands m)
unfolding handle_event on_registration raise_issue clear same_issue
handle_event-routing (state_event at view) m = (refl, refl, refl)
handle_event-routing (registration_event at true code reason released) m = (refl, refl, refl)
handle_event-routing (registration_event at false code reason released) m = ground arith
handle_event-routing _ m = (refl, refl, refl)

refused_once :
    (m : Monitor)
    → let m' = note_offer_status 503 m in
      (m'.registered ≡ m.registered)
      × (m'.consecutive_503 ≡ m.consecutive_503 + (if m.registered then 1 else 0))
      × ((stands m' ≡ stands m) ⊎ ((stands m' ≡ true) × (3 ≤ m'.consecutive_503)))
      × ((3 ≤ m.consecutive_503 → stands m ≡ true) → 3 ≤ m'.consecutive_503 → stands m' ≡ true)
      × (stands m ≡ true → stands m' ≡ true)
unfolding note_offer_status refused raise_issue clear same_issue
refused_once m = ground arith

answered_once :
    (status : ℕ) (m : Monitor)
    → (status == 503) ≡ false
    → let m' = note_offer_status status m in
      (m'.registered ≡ m.registered)
      × (m'.consecutive_503 ≡ 0)
      × (stands m' ≡ (if is_success status then false else stands m))
unfolding note_offer_status clear same_issue
answered_once status m e = ground (arith, e)

status-cases : (status : ℕ) → (status ≡ 503) ⊎ ((status == 503) ≡ false)
status-cases status = elim (Bool-cases (status == 503)) [
  | inl e ↦ inl ((==_iff status 503).0 e)
  | inr e ↦ inr e
]

-- How the issue that stands after a run came about, from a monitor that counts some already.
abbrev Cause : List Input → Monitor → Type 0
Cause inputs m =
    ((stands m ≡ true) × HasNoSuccess inputs)
    ⊎ (((mid : List Input) × (back : List Input) × (inputs ≡ mid ++ back)
          × IsUnbroken mid
          × (3 ≤ m.consecutive_503 + refusals m.registered mid)
          × HasNoSuccess back)
        ⊎ ((front : List Input) × (mid : List Input) × (back : List Input) × (inputs
              ≡ front ++ mid ++ back)
            × IsUnbroken mid
            × (3 ≤ refusals (registered_after m.registered front) mid)
            × HasNoSuccess back))

-- The input before, by what it does to the monitor.
Cause-event :
    (e : GatewayEvent) (inputs : List Input) (m : Monitor)
    → Cause inputs (handle_event e m)
    → Cause (event e ∷ inputs) m
Cause-event e inputs m (inl (h, quiet)) = inl (sym (handle_event-routing e m).2 ∙ h, quiet)
Cause-event e inputs m (inr (inl (mid, back, same, unbroken, enough, quiet))) =
    let r = handle_event-routing e m in
    inr (
      inl (
        event e ∷ mid,
        back,
        ap (◌∷◌ (event e)) same,
        unbroken,
        omega (arith, enough, r.1, ap (λ b. refusals b mid) r.0),
        quiet,
      ))
Cause-event e inputs m (inr (inr (front, mid, back, same, unbroken, enough, quiet))) =
    let r = handle_event-routing e m in
    inr
      (inr (event e ∷ front, mid, back, ap (◌∷◌ (event e)) same, unbroken, rw⁻¹ r.0 enough, quiet))

Cause-refused :
    (inputs : List Input) (m : Monitor)
    → Cause inputs (note_offer_status 503 m)
    → Cause (offer_status 503 ∷ inputs) m
Cause-refused inputs m (inl (h, quiet)) =
    let r = refused_once m in
    elim r.2 [
      | inl same ↦ inl (sym same ∙ h, (refl, quiet))
      | inr (up, enough) ↦ inr (
          inl (offer_status 503 ∷ [], inputs, refl, (refl, tt), ground (arith, r.1, enough), quiet))
    ]
Cause-refused inputs m (inr (inl (mid, back, same, unbroken, enough, quiet))) =
    let r = refused_once m in
    inr (
      inl (
        offer_status 503 ∷ mid,
        back,
        ap (◌∷◌ (offer_status 503)) same,
        (refl, unbroken),
        ground (arith, enough, r.1, ap (λ b. refusals b mid) r.0),
        quiet,
      ))
Cause-refused inputs m (inr (inr (front, mid, back, same, unbroken, enough, quiet))) =
    let r = refused_once m in
    inr (
      inr (
        offer_status 503 ∷ front,
        mid,
        back,
        ap (◌∷◌ (offer_status 503)) same,
        unbroken,
        rw⁻¹ r.0 enough,
        quiet,
      ))

Cause-answered :
    (status : ℕ) (inputs : List Input) (m : Monitor)
    → (status == 503) ≡ false
    → Cause inputs (note_offer_status status m)
    → Cause (offer_status status ∷ inputs) m
Cause-answered status inputs m other (inl (h, quiet)) =
    let r = answered_once status m other in
    elim (Bool-cases (is_success status)) [
      | inl well ↦ absurd ground (arith, h, r.2, well)
      | inr e ↦ inl (ground (arith, r.2, h, e), (e, quiet))
    ]
Cause-answered status inputs m other (inr (inl (mid, back, same, unbroken, enough, quiet))) =
    let r = answered_once status m other in
    inr (
      inr (
        offer_status status ∷ [],
        mid,
        back,
        ap (◌∷◌ (offer_status status)) same,
        unbroken,
        omega (arith, enough, r.1, ap (λ b. refusals b mid) r.0),
        quiet,
      ))
Cause-answered status inputs m other (inr (inr (front, mid, back, same, unbroken, enough, quiet))) =
    let r = answered_once status m other in
    inr (
      inr (
        offer_status status ∷ front,
        mid,
        back,
        ap (◌∷◌ (offer_status status)) same,
        unbroken,
        rw⁻¹ r.0 enough,
        quiet,
      ))

run-Cause : (inputs : List Input) (m : Monitor) → stands (run inputs m) ≡ true → Cause inputs m
unfolding run take_input
run-Cause [] m h = inl (h, tt)
run-Cause (event e ∷ inputs) m h = Cause-event e inputs m (run-Cause inputs (handle_event e m) h)
run-Cause (offer_status status ∷ inputs) m h =
    let later = run-Cause inputs (note_offer_status status m) h in
    elim (status-cases status) [
      | inl e ↦
          subst (λ n. Cause (offer_status n ∷ inputs) m) (sym e)
            (Cause-refused inputs m (subst (λ n. Cause inputs (note_offer_status n m)) e later))
      | inr e ↦ Cause-answered status inputs m e later
    ]

-- The other way, part by part.
run-append :
    (front back : List Input) (m : Monitor) → run (front ++ back) m ≡ run back (run front m)
unfolding run
run-append [] back m = refl
run-append (i ∷ front) back m = run-append front back (take_input i m)

abbrev Sound : Monitor → Type 0
Sound m = 3 ≤ m.consecutive_503 → stands m ≡ true

run-Sound :
    (inputs : List Input) (m : Monitor)
    → Sound m
    → let m' = run inputs m in (Sound m') × (m'.registered ≡ registered_after m.registered inputs)
unfolding run take_input
run-Sound [] m s = (s, refl)
run-Sound (event e ∷ inputs) m s =
    let r = handle_event-routing e m in
    let rest = run-Sound inputs (handle_event e m) (λ h. r.2 ∙ s (omega (arith, h, r.1))) in
    (rest.0, rest.1 ∙ ap (λ b. registered_after b inputs) r.0)
run-Sound (offer_status status ∷ inputs) m s = elim (status-cases status) [
  | inl e ↦
      let r = refused_once m in
      let sound : Sound (note_offer_status status m) =
        subst (λ n. Sound (note_offer_status n m)) (sym e) (r.3 s) in
      let rest = run-Sound inputs (note_offer_status status m) sound in
      (
        rest.0,
        rest.1
            ∙ ap (λ b. registered_after b inputs)
                (ap (λ n. (note_offer_status n m).registered) e ∙ r.0),
      )
  | inr e ↦
      let r = answered_once status m e in
      let rest =
        run-Sound inputs (note_offer_status status m) (λ h. absurd (omega (arith, h, r.1))) in
      (rest.0, rest.1 ∙ ap (λ b. registered_after b inputs) r.0)
]

run-counts :
    (inputs : List Input) (m : Monitor)
    → IsUnbroken inputs
    → (run inputs m).consecutive_503 ≡ m.consecutive_503 + refusals m.registered inputs
unfolding run take_input
run-counts [] m u = omega arith
run-counts (event e ∷ inputs) m u =
    let r = handle_event-routing e m in
    omega (arith, run-counts inputs (handle_event e m) u, r.1, ap (λ b. refusals b inputs) r.0)
run-counts (offer_status status ∷ inputs) m (e, u) =
    let r = refused_once m in
    subst
      (λ n.
        (run inputs (note_offer_status n m)).consecutive_503
        ≡ m.consecutive_503 + refusals m.registered (offer_status n ∷ inputs))
      (sym e)
      (ground (
        arith,
        run-counts inputs (note_offer_status 503 m) u,
        r.1,
        ap (λ b. refusals b inputs) r.0,
      ))

run-stands :
    (inputs : List Input) (m : Monitor)
    → HasNoSuccess inputs
    → stands m ≡ true
    → stands (run inputs m) ≡ true
unfolding run take_input
run-stands [] m q h = h
run-stands (event e ∷ inputs) m q h =
    run-stands inputs (handle_event e m) q ((handle_event-routing e m).2 ∙ h)
run-stands (offer_status status ∷ inputs) m (n, q) h = elim (status-cases status) [
  | inl e ↦
      run-stands inputs (note_offer_status status m) q
        (subst (λ n. stands (note_offer_status n m) ≡ true) (sym e) ((refused_once m).4 h))
  | inr e ↦
      run-stands inputs (note_offer_status status m) q
        (ground (arith, (answered_once status m e).2, n, h))
]

-- The issue of calls that are not routed stands exactly when three offers were answered 503 while the
-- gateway was registered, with no other answer between them, and no offer has succeeded since: events
-- may come in between, refusals while unregistered neither count nor break the row, and an answer that
-- is neither 503 nor a success ends the row but leaves the issue.
pub stands-run :
    (inputs : List Input)
    → (stands (run inputs new_monitor) ≡ true) ↔ (
        (front : List Input) × (mid : List Input) × (back : List Input) × (inputs
          ≡ front ++ mid ++ back)
        × IsUnbroken mid
        × (3 ≤ refusals (registered_after false front) mid)
        × HasNoSuccess back)
stands-run inputs = (
  λ h. elim (run-Cause inputs new_monitor h) [
    | inl (never, quiet) ↦ absurd (ground (arith, never))
    | inr (inl (mid, back, same, unbroken, enough, quiet)) ↦
        ([], mid, back, same, unbroken, omega (arith, enough), quiet)
    | inr (inr found) ↦ found
  ],
  λ (front, mid, back, same, unbroken, enough, quiet).
      let m1 = run front new_monitor in
      let first = run-Sound front new_monitor (λ h. absurd (omega (arith, h))) in
      let counted = run-counts mid m1 unbroken in
      let second = run-Sound mid m1 first.0 in
      let up : stands (run mid m1) ≡ true =
        second.0 (omega (arith, enough, counted, ap (λ b. refusals b mid) first.1)) in
      subst (λ is. stands is ≡ true)
        (sym (
          ap (λ is. run is new_monitor) same
          ∙ run-append (front ++ mid) back new_monitor
          ∙ ap (run back) (run-append front mid new_monitor)))
        (run-stands back (run mid m1) quiet up),
)
