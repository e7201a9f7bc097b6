-- ===== src/Integration/Client/Connection.antt =====
-- client.py: what a connection listener is told over a whole run.
use urmet_ha.Prelude.{
  ℕ, String, ◌≡◌, refl, sym, ◌∙◌, ◌⊎◌, inl, inr, Bool, true, false, not, none, some, List, [], ◌∷◌,
  ◌++◌, if◌then◌else◌, Option-cases, arith,
}
use mathlib.Core.Path.{subst}
use mathlib.Core.List.{append-nil, append_assoc}
use urmet_ha.Domain.Errors.{Outcome-cases}
use urmet_ha.Integration.Json.{Json}
use urmet_ha.Integration.Events.{GatewayEvent}
use urmet_ha.Integration.Client.Calls.{told_to, calls_of, occurrences, told_to-append, told_to-once}
use urmet_ha.Integration.Client.{
  Client, Surroundings, Message, text, error, closed, closing, other, Failure, transport, cancelled,
  crash, Ending, returned, failed, Attempt, refused, accepted, tell_each, set_connected, hear_each,
  dispatch_json, dispatch_event, read_messages, consume, after, log_failure, attempts, back_off,
  run_from, run, write, note_raise, reconnected, stream_error, stream_crashed, async_stop,
  same_bool,
}

-- From `b` to `b'` by turns.
abbrev pub IsFlipping : Bool → List Bool → Bool → Type 0
IsFlipping b [] b' = b ≡ b'
IsFlipping b (value ∷ values) b' = (value ≡ not b) × IsFlipping value values b'

IsFlipping-append :
    (b b' b'' : Bool) (xs ys : List Bool)
    → IsFlipping b xs b'
    → IsFlipping b' ys b''
    → IsFlipping b (xs ++ ys) b''
IsFlipping-append b b' b'' [] ys e g = rw e g
IsFlipping-append b b' b'' (x ∷ xs) ys f g = (f.0, IsFlipping-append x b' b'' xs ys f.1 g)

-- The listeners are the same, and the listener was told the connection's changes and nothing else.
record Turns (l : ℕ) (c c' : Client) : Type 0 where
  listeners : c'.conn_listeners ≡ c.conn_listeners
  flips : List Bool
  told : told_to l c'.told ≡ told_to l c.told ++ flips
  flipping : IsFlipping c.connected flips c'.connected

module _ (l : ℕ) where
  -- Nothing of the connection changed.
  still :
      (c c' : Client)
      → c'.conn_listeners ≡ c.conn_listeners
      → c'.told ≡ c.told
      → c'.connected ≡ c.connected
      → Turns l c c'
  still c c' e t k = record {
    listeners = e;
    flips = [];
    told = rw t (sym (append-nil (told_to l c.told)));
    flipping = sym k;
  }

  then_ : (c c' c'' : Client) → Turns l c c' → Turns l c' c'' → Turns l c c''
  then_ c c' c'' s t = record {
    listeners = t.listeners ∙ s.listeners;
    flips = s.flips ++ t.flips;
    told = rw (t.told, s.told) (append_assoc (told_to l c.told) s.flips t.flips);
    flipping =
        IsFlipping-append c.connected c'.connected c''.connected s.flips t.flips s.flipping
          t.flipping;
  }

-- The connection's part of a client: its listeners, what they were told, and whether it stands.
abbrev SameConnection : Client → Client → Type 0
SameConnection c c' =
    (c'.conn_listeners ≡ c.conn_listeners) × (c'.told ≡ c.told) × (c'.connected ≡ c.connected)

same_bool-cases : (v b : Bool) → (same_bool v b ≡ true) ⊎ ((same_bool v b ≡ false) × (v ≡ not b))
unfolding same_bool
same_bool-cases true true = inl refl
same_bool-cases true false = inr (refl, refl)
same_bool-cases false true = inr (refl, refl)
same_bool-cases false false = inl refl

same_bool-eq : (v b : Bool) → same_bool v b ≡ true → b ≡ v
unfolding same_bool
same_bool-eq true true h = refl
same_bool-eq true false h = cc
same_bool-eq false true h = cc
same_bool-eq false false h = refl

Ending-cases : (e : Ending) → (e ≡ returned) ⊎ ((why : Failure) × (e ≡ failed why))
Ending-cases returned = inl refl
Ending-cases (failed why) = inr (why, refl)

note_raise-Same : (b : Bool) (c : Client) → SameConnection c (note_raise b c)
unfolding note_raise write
note_raise-Same true c = (refl, refl, refl)
note_raise-Same false c = (refl, refl, refl)

if_Turns :
    (l : ℕ) (c x y : Client) (b : Bool) → Turns l c x → Turns l c y → Turns l c (if b then x else y)
if_Turns l c x y true s t = s
if_Turns l c x y false s t = t

module _ (around : Surroundings) where
  tell_each-calls :
      (value : Bool) (ls : List ℕ) (c : Client)
      → let c' = tell_each around value ls c in
        (c'.conn_listeners ≡ c.conn_listeners)
        × (c'.told ≡ c.told ++ calls_of value ls)
        × (c'.connected ≡ c.connected)
  unfolding tell_each
  tell_each-calls value [] c = (refl, sym (append-nil c.told), refl)
  tell_each-calls value (j ∷ js) c =
      let c1 = record c { told = c.told ++ (j, value) ∷ [] } in
      let noted = note_raise-Same (around.conn_raises j value) c1 in
      let rest = tell_each-calls value js (note_raise (around.conn_raises j value) c1) in
      (
        rest.0 ∙ noted.0,
        rest.1 ∙ rw noted.1 (append_assoc c.told ((j, value) ∷ []) (calls_of value js)),
        rest.2 ∙ noted.2,
      )

  module _ (l : ℕ) where
    set_connected-Turns :
        (value : Bool) (c : Client)
        → occurrences l c.conn_listeners ≡ 1
        → Turns l c (set_connected around value c)
    unfolding set_connected
    set_connected-Turns value c e = elim (same_bool-cases value c.connected) [
      | inl h ↦ rw (h, set_connected) (still l c c refl refl refl)
      | inr h ↦
          let c1 = record c { connected = value } in
          let calls = tell_each-calls value c.conn_listeners c1 in
          rw (h.0, set_connected)
            (record {
              listeners = calls.0;
              flips = value ∷ [];
              told =
                  rw
                    (
                      calls.1,
                      told_to-append l c.told (calls_of value c.conn_listeners),
                      told_to-once l value c.conn_listeners e,
                    )
                    refl;
              flipping = (h.1, sym calls.2);
            })
    ]

  hear_each-Same :
      (event : GatewayEvent) (ls : List ℕ) (c : Client)
      → SameConnection c (hear_each around event ls c)
  unfolding hear_each
  hear_each-Same event [] c = (refl, refl, refl)
  hear_each-Same event (j ∷ js) c =
      let c1 = record c { heard = c.heard ++ (j, event) ∷ [] } in
      let noted = note_raise-Same (around.event_raises j event) c1 in
      let rest = hear_each-Same event js (note_raise (around.event_raises j event) c1) in
      (rest.0 ∙ noted.0, rest.1 ∙ noted.1, rest.2 ∙ noted.2)

  dispatch_json-Same :
      (value : Json) (c : Client) → SameConnection c (dispatch_json around value c).1
  unfolding dispatch_json
  dispatch_json-Same (Json.object fields) c = elim (Outcome-cases (around.parse fields)) [
    | inl (event, e) ↦ rw (e, dispatch_json) (hear_each-Same event c.event_listeners c)
    | inr (why, e) ↦ rw (e, dispatch_json) (refl, refl, refl)
  ]
  dispatch_json-Same _ c = (refl, refl, refl)

  dispatch_event-Same :
      (raw : String) (c : Client) → SameConnection c (dispatch_event around raw c).1
  unfolding dispatch_event write
  dispatch_event-Same raw c = elim (Option-cases (around.loads raw)) [
    | inl e ↦ rw (e, dispatch_event) (refl, refl, refl)
    | inr (value, e) ↦ rw (e, dispatch_event) (dispatch_json-Same value c)
  ]

  read_messages-Same :
      (ms : List Message) (last : Ending) (c : Client)
      → SameConnection c (read_messages around ms last c).1
  unfolding read_messages
  read_messages-Same [] last c = (refl, refl, refl)
  read_messages-Same (text raw ∷ ms) last c =
      let first = dispatch_event-Same raw c in
      let rest = read_messages-Same ms last (dispatch_event around raw c).1 in
      elim (Ending-cases (dispatch_event around raw c).0) [
        | inl e ↦ rw (e, read_messages) (rest.0 ∙ first.0, rest.1 ∙ first.1, rest.2 ∙ first.2)
        | inr (why, e) ↦ rw (e, read_messages) first
      ]
  read_messages-Same (error ∷ ms) last c = (refl, refl, refl)
  read_messages-Same (closed ∷ ms) last c = (refl, refl, refl)
  read_messages-Same (closing ∷ ms) last c = (refl, refl, refl)
  read_messages-Same (other ∷ ms) last c = read_messages-Same ms last c

  back_off-Same :
      (attempt drawn : ℕ) (c : Client) → SameConnection c (back_off around attempt drawn c)
  unfolding back_off write
  back_off-Same attempt drawn c = ground arith

  after-Same :
      (ending : Ending) (attempt drawn : ℕ) (c : Client)
      → SameConnection c (after around ending attempt drawn c).1
  unfolding after log_failure attempts write
  after-Same returned attempt drawn c = ground (arith, back_off-Same 0 drawn c)
  after-Same (failed cancelled) attempt drawn c = (refl, refl, refl)
  after-Same (failed transport) attempt drawn c =
      ground (arith, back_off-Same attempt drawn (write stream_error c))
  after-Same (failed crash) attempt drawn c =
      ground (arith, back_off-Same attempt drawn (write stream_crashed c))

  module _ (l : ℕ) where
    of_Same : (c c' : Client) → SameConnection c c' → Turns l c c'
    of_Same c c' s = still l c c' s.0 s.1 s.2

    consume-Turns :
        (tried : Attempt) (c : Client)
        → occurrences l c.conn_listeners ≡ 1
        → Turns l c (consume around tried c).1
    unfolding consume write
    consume-Turns (refused why) c e = still l c c refl refl refl
    consume-Turns (accepted ms last) c e =
        let up = if c.degraded then record (write reconnected c) { degraded = false } else c in
        let rose : SameConnection c up = ground arith in
        let opened = set_connected around true up in
        let first =
          then_ l c up opened (of_Same c up rose) (set_connected-Turns l true up (rw rose.0 e)) in
        let read = (read_messages around ms last opened).1 in
        let second =
          then_ l c opened read first (of_Same opened read (read_messages-Same ms last opened)) in
        then_ l c read (set_connected around false read) second
          (set_connected-Turns l false read (rw second.listeners e))

    run_from-Turns :
        (attempt : ℕ) (rounds : List (Attempt × ℕ)) (c : Client)
        → occurrences l c.conn_listeners ≡ 1
        → Turns l c (run_from around attempt rounds c)
    unfolding run_from
    run_from-Turns attempt [] c e = still l c c refl refl refl
    run_from-Turns attempt ((tried, drawn) ∷ rounds) c e =
        let r = consume around tried c in
        let next = after around r.0 attempt drawn r.1 in
        let tried_ : Turns l c r.1 = consume-Turns tried c e in
        let first : Turns l c next.1 =
          then_ l c r.1 next.1 tried_ (of_Same r.1 next.1 (after-Same r.0 attempt drawn r.1)) in
        let rest : Client = elim next.0 [
          | none ↦ next.1
          | some n ↦ run_from around n rounds next.1
        ] in
        if_Turns l c c rest c.closing (still l c c refl refl refl) (elim (Option-cases next.0) [
          | inl over ↦ rw over first
          | inr (n, more) ↦ rw more (
              then_ l c next.1 (run_from around n rounds next.1) first
                (run_from-Turns n rounds next.1 (rw first.listeners e)))
        ])

    set_connected-value :
        (value : Bool) (c : Client) → (set_connected around value c).connected ≡ value
    unfolding set_connected
    set_connected-value value c = elim (same_bool-cases value c.connected) [
      | inl h ↦ rw (h, set_connected) (same_bool-eq value c.connected h)
      | inr h ↦
          rw (h.0, set_connected)
            (tell_each-calls value c.conn_listeners (record c { connected = value })).2
    ]

    -- Whatever the attempts come to, a connection listener is told the changes and nothing else: of a
    -- listener that stands once in the set, the calls from before a run to after the stop that ends
    -- it name the two states by turns, from the state before, and the last leaves it disconnected.
    pub async_stop-run :
        (rounds : List (Attempt × ℕ)) (c : Client)
        → occurrences l c.conn_listeners ≡ 1
        → (flips : List Bool) × (told_to l (async_stop around (run around rounds c)).told
            ≡ told_to l c.told ++ flips)
          × IsFlipping c.connected flips false
    unfolding async_stop run
    async_stop-run rounds c e =
        let ran = run_from around 0 rounds c in
        let stopped = record ran { closing = true; task = false } in
        let first = run_from-Turns 0 rounds c e in
        let second = set_connected-Turns l false stopped (rw first.listeners e) in
        let all = then_ l c ran (set_connected around false stopped) first record {
          listeners = second.listeners;
          flips = second.flips;
          told = second.told;
          flipping = second.flipping;
        } in
        (
          all.flips,
          all.told,
          subst (λ b. IsFlipping c.connected all.flips b) (set_connected-value false stopped)
              all.flipping,
        )
