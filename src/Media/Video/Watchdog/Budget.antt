-- ===== src/Media/Video/Watchdog/Budget.antt =====
-- media/watchdog.py: it is quiet while it is fed, and reacts once when it is not.
use urmet_ha.Prelude.{
  ℕ, suc, ◌+◌, ◌-◌, ◌≤◌, ◌<◌, ◌≡◌, ◌≢◌, refl, ap, ◌∙◌, ◌⊎◌, inl, inr, String, Bool, true, false,
  Option, none, some, List, [], ◌∷◌, length, length-append, if◌then◌else◌, arith,
}
use urmet_ha.Media.Video.Watchdog.{
  Watchdog, Stall, probed, nothing_moved, nothing_arrived, beat, rearm, look, round,
}

-- What happens to a running watchdog, each at an instant; the probe finds nothing or something.
pub data Happening : Type 0 where
  beats rearms : ℕ → Happening
  rounds : ℕ → Option String → Happening

unfoldable pub happen : Happening → Watchdog → Watchdog
happen (beats t) w = beat t w
happen (rearms t) w = rearm t w
happen (rounds t p) w = round t p w

unfoldable pub happen_all : List Happening → Watchdog → Watchdog
happen_all [] w = w
happen_all (h ∷ hs) w = happen_all hs (happen h w)

-- The budget of the moment.
abbrev pub budget : Watchdog → ℕ
budget w = if w.moved then w.timeout else w.startup_timeout

-- Every look falls within the budget since the last beat or arming, and no probe finds a thing.
abbrev pub Fed : (timeout startup_timeout last : ℕ) → Bool → List Happening → Type 0
Fed a b last moved [] = Unit {0}
Fed a b last moved (beats t ∷ hs) = Fed a b t true hs
Fed a b last moved (rearms t ∷ hs) = Fed a b t false hs
Fed a b last moved (rounds t none ∷ hs) =
    (t ≤ last + (if moved then a else b)) × Fed a b last moved hs
Fed a b last moved (rounds t (some r) ∷ hs) = ⊥

round_within : (t : ℕ) (w : Watchdog) → t ≤ w.last + budget w → round t none w ≡ w
unfolding round look
round_within t w h = ground (arith, h)

-- While what it watches moves within the budget, the one of coming up until the first beat after an
-- arming and the one of silence after it, a running watchdog goes on and never fires.
pub happen_all-quiet :
    (hs : List Happening) (w : Watchdog)
    → w.running ≡ true
    → Fed w.timeout w.startup_timeout w.last w.moved hs
    → ((happen_all hs w).running ≡ true) × ((happen_all hs w).stalls ≡ w.stalls)
unfolding happen_all happen beat rearm
happen_all-quiet [] w on fed = (on, refl)
happen_all-quiet (beats t ∷ hs) w on fed =
    happen_all-quiet hs (record w { last = t; moved = true }) on fed
happen_all-quiet (rearms t ∷ hs) w on fed =
    happen_all-quiet hs (record w { last = t; moved = false }) on fed
happen_all-quiet (rounds t none ∷ hs) w on fed =
    let same = round_within t w fed.0 in
    let rest = happen_all-quiet hs w on fed.1 in
    (
      ap (λ u. (happen_all hs u).running) same ∙ rest.0,
      ap (λ u. (happen_all hs u).stalls) same ∙ rest.1,
    )
happen_all-quiet (rounds t (some r) ∷ hs) w on fed = absurd fed

happen-stopped :
    (h : Happening) (w : Watchdog)
    → w.running ≡ false
    → ((happen h w).running ≡ false) × ((happen h w).stalls ≡ w.stalls)
unfolding happen beat rearm round
happen-stopped (beats t) w off = (off, refl)
happen-stopped (rearms t) w off = (off, refl)
happen-stopped (rounds t p) w off = ground (arith, off)

happen_all-stopped :
    (hs : List Happening) (w : Watchdog)
    → w.running ≡ false
    → ((happen_all hs w).running ≡ false) × ((happen_all hs w).stalls ≡ w.stalls)
unfolding happen_all
happen_all-stopped [] w off = (off, refl)
happen_all-stopped (h ∷ hs) w off =
    let one = happen-stopped h w off in
    let rest = happen_all-stopped hs (happen h w) one.0 in (rest.0, rest.1 ∙ one.1)

round_over :
    (t : ℕ) (p : Option String) (w : Watchdog)
    → w.running ≡ true
    → (w.last + budget w < t) ⊎ (p ≢ none)
    → ((round t p w).running ≡ false) × (length (round t p w).stalls ≡ suc (length w.stalls))
unfolding round look
round_over t (some r) w on due =
    ground (
      arith,
      on,
      length-append w.stalls (record { reason = probed r; silent_for = t - w.last } ∷ []),
    )
round_over t none w on (inl due) = ground (
  arith,
  on,
  due,
  length-append w.stalls (record { reason = nothing_moved; silent_for = t - w.last } ∷ []),
  length-append w.stalls (record { reason = nothing_arrived; silent_for = t - w.last } ∷ []),
)
round_over t none w on (inr found) = absurd (found refl)

-- The first round past the budget, or with something that the probe found, has the watchdog react;
-- after it nothing does so again, whatever beats, armings and rounds follow: it reacts once.
pub happen_all-fires :
    (t : ℕ) (p : Option String) (hs : List Happening) (w : Watchdog)
    → w.running ≡ true
    → (w.last + budget w < t) ⊎ (p ≢ none)
    → let e = happen_all hs (round t p w) in
      (e.running ≡ false) × (length e.stalls ≡ suc (length w.stalls))
happen_all-fires t p hs w on due =
    let one = round_over t p w on due in
    let rest = happen_all-stopped hs (round t p w) one.0 in
    (rest.0, ap (length {A = Stall}) rest.1 ∙ one.1)
