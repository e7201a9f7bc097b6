-- ===== src/Service/Publication.antt =====
-- usecases/service.py and usecases/sessions.py: every event is followed by a state.
pub mod Actions
pub mod Runs
use urmet_ha.Prelude.{
  ℕ, suc, String, ◌≡◌, refl, ◌⊎◌, inl, inr, Bool, true, false, Option, none, some, List, [], ◌∷◌,
  ◌++◌, arith, lookup, insert, Dict, Bool-cases, Option-cases, if◌then◌else◌, contains, discard,
}
use urmet_ha.Domain.{
  Direction, incoming, outgoing, ActuatorName, CallState, CallTests, CallHandle, Doorphone,
  SessionView, SessionAnswer, Event, state_event, ring_event, call_event, open_event,
  registration_event, webrtc_event,
}
use urmet_ha.Domain.Errors.{Outcome, ok, raised, media_unavailable}
use urmet_ha.Threads.{Course, ends, waits, IsSafe}
use urmet_ha.Service.World.{
  Service, Leg, Task, close_leg, reap_after_grace, Await, new_service, emit, publish_state, publish,
  publish_leg, send, snapshot,
}
use urmet_ha.Service.Legs.{
  for_call, session_closed, close_session_object, close_for_call, close_session, pick, answered,
  shut, cancel_each, offer, call_ended, close_each, aclose, media_changed, orphaned_monitor,
  ended_by_client, unanswered, replaced, create_session,
}

abbrev pub is_state : Event → Bool
is_state (state_event at view) = true
is_state _ = false

-- An event that is no state has a state right behind it.
abbrev pub Followed : List Event → Type 0
Followed [] = Unit {0}
Followed (e ∷ []) = is_state e ≡ true
Followed (e ∷ f ∷ es) = ((is_state e ≡ true) ⊎ (is_state f ≡ true)) × Followed (f ∷ es)

Followed-state :
    (es : List Event) (s : Event) → is_state s ≡ true → Followed es → Followed (es ++ s ∷ [])
Followed-state [] s h f = h
Followed-state (e ∷ []) s h f = (inl f, h)
Followed-state (e ∷ e' ∷ es) s h f = (f.0, Followed-state (e' ∷ es) s h f.1)

Followed-pair :
    (es : List Event) (e s : Event)
    → is_state s ≡ true
    → Followed es
    → Followed ((es ++ e ∷ []) ++ s ∷ [])
Followed-pair [] e s h f = (inr h, h)
Followed-pair (e' ∷ []) e s h f = (inl f, (inr h, h))
Followed-pair (e' ∷ e'' ∷ es) e s h f = (f.0, Followed-pair (e'' ∷ es) e s h f.1)

unfoldable pub Told : Service → Type 0
Told s = Followed s.published

pub Told-tasks : (ts : List Task) (s : Service) → Told s → Told (record s { tasks = ts })
unfolding Told
Told-tasks ts s t = t

Told-legs : (legs : Dict Leg) (s : Service) → Told s → Told (record s { legs = legs })
unfolding Told
Told-legs legs s t = t

-- A course keeps to it at each of its awaits, wherever the others bring the service meanwhile.
abbrev pub IsTold : {A : Type 0} → Service → Course Service A → Type 0
IsTold s c = IsSafe Told (λ _ _. Unit {0}) s c

abbrev pub Tells : {A : Type 0} → (Service → Course Service A) → Type 0
Tells next = (s : Service) → Told s → IsTold s (next s)

pub ends-Tells : {A : Type 0} (o : Outcome A) → Tells (ends o)
unfolding IsSafe
ends-Tells o s t = (t, tt)

pub IsTold-moved : {A : Type 0} (s u : Service) (c : Course Service A) → IsTold s c → IsTold u c
unfolding IsSafe
IsTold-moved s u (ends o v) h = h
IsTold-moved s u (waits v k) h = h

pub waits-IsTold :
    {A : Type 0} (s u : Service) (k : Service → Course Service A)
    → Told u
    → Tells k
    → IsTold s (waits u k)
unfolding IsSafe
waits-IsTold s u k t h = (t, tt, λ v g q. h v q)

-- What goes on if the awaited call came out well.
pub came-Tells :
    {A B : Type 0} (o : Outcome A) (next : A → Service → Course Service B)
    → ((a : A) → Tells (next a))
    → Tells (λ t. elim o [ raised e ↦ ends (raised e) t | ok a ↦ next a t ])
came-Tells (raised e) next h s t = ends-Tells (raised e) s t
came-Tells (ok a) next h s t = h a s t

pub publish_state-Told : (now : ℕ) (s : Service) → Told s → Told (publish_state now s)
unfolding publish_state Told
publish_state-Told now s t = Followed-state s.published _ refl t

pub publish-Told : (now : ℕ) (e : Event) (s : Service) → Told s → Told (publish now e s)
unfolding publish Told
publish-Told now e s t = Followed-pair s.published e _ refl t

leg_then_state-Told :
    (now id : ℕ) (reason : String) (s : Service)
    → Told s
    → Told (publish_state now (publish_leg now id reason s))
unfolding publish_state publish_leg Told
leg_then_state-Told now id reason s t = elim (Option-cases (lookup id s.legs)) [
  | inl gone ↦ rw (gone, publish_leg) (Followed-state s.published _ refl t)
  | inr (leg, e) ↦ rw (e, publish_leg) (Followed-pair s.published _ _ refl t)
]

module _ (tests : CallTests) where
  pub session_closed-Told :
      (now id call_id : ℕ) (reason : String) (s : Service)
      → Told s
      → Told (session_closed tests now id call_id reason s)
  unfolding session_closed Told
  session_closed-Told now id call_id reason s t =
      ground
        (arith, leg_then_state-Told now id reason (record s { sessions = discard id s.sessions }) t)

  pub close_session_object-Tells :
      {A : Type 0} (now : ℕ) (o : Outcome (Unit {0})) (id : ℕ) (reason : String)
      → (next : Service → Course Service A) → Tells next
      → Tells (close_session_object tests now o id reason next)
  unfolding close_session_object
  close_session_object-Tells {A} now o id reason next k s t = go (lookup id s.legs)
    where
      torn_down : Leg → Course Service A
      torn_down leg =
          waits (record s { legs = insert id (shut reason leg) s.legs })
            (λ u. elim o [
              | raised e ↦ ends (raised e) u
              | ok _ ↦ next (session_closed tests now id leg.call_id reason u)
            ])

      go :
          (l : Option Leg)
          → IsTold s (elim l as (λ _. Course Service A) [
            | none ↦ next s
            | some leg ↦ if leg.closed then next s else torn_down leg
          ])
      go none = k s t
      go (some leg) = elim leg.closed as (λ b. IsTold s (if b then next s else torn_down leg)) [
        | true ↦ k s t
        | false ↦ waits-IsTold s _ _ (Told-legs _ s t) (
            came-Tells o _ (λ _ u q.
              IsTold-moved _ u _ (k _ (session_closed-Told now id leg.call_id reason u q))))
      ]

  pub close_for_call-Tells :
      {A : Type 0} (now : ℕ) (o : Outcome (Unit {0})) (call_id : ℕ) (reason : String)
      → (next : Service → Course Service A) → Tells next
      → Tells (close_for_call tests now o call_id reason next)
  unfolding close_for_call
  close_for_call-Tells {A} now o call_id reason next k s t =
      elim (for_call s call_id)
        as (λ f. IsTold s (elim f as (λ _. Course Service A) [
          | none ↦ next s
          | some id ↦ close_session_object tests now o id reason next s
        ])) [ none ↦ k s t | some id ↦ close_session_object-Tells now o id reason next k s t ]

  pub close_session-Tells :
      (now : ℕ) (o : Outcome (Unit {0})) (id : ℕ) → Tells (close_session tests now o id)
  unfolding close_session
  close_session-Tells now o id s t =
      elim (contains id s.sessions)
        as (λ b. IsTold s (
          if b
          then close_session_object tests now o id ended_by_client (ends (ok tt)) s
          else ends (ok tt) s)) [
            | true ↦ close_session_object-Tells now o id ended_by_client _ (ends-Tells (ok tt)) s t
            | false ↦ ends-Tells (ok tt) s t
          ]

  answered-Tells :
      (now id call_id : ℕ) (o : Outcome (Unit {0})) (r : Outcome String)
      → Tells (answered tests now id call_id o r)
  unfolding answered
  answered-Tells now id call_id o (ok sdp) s t =
      IsTold-moved _ s _ (ends-Tells _ _ (leg_then_state-Told now id String.[] s t))
  answered-Tells now id call_id o (raised e) s t =
      close_session_object-Tells now o id unanswered _ (ends-Tells (raised e)) s t

  create_session-Told :
      (call_id : ℕ) (reading : SessionView) (s : Service)
      → Told s
      → Told (create_session tests call_id reading s)
  unfolding create_session Told
  create_session-Told call_id reading s t = t

  pub offer-Tells :
      (now : ℕ) (m : Outcome (Unit {0})) (reading : SessionView) (a : Outcome String)
      (closing : Outcome (Unit {0})) (call_id : Option ℕ)
      → Tells (offer tests now m reading a closing call_id)
  unfolding offer
  offer-Tells now m reading a closing call_id s t = go s.has_factory (pick tests s call_id)
    where
      bridges : CallHandle → Service → Course Service SessionAnswer
      bridges call u =
          let created = create_session tests call.id reading u in
          waits created (answered tests now created.opened call.id closing a)

      go :
          (tap : Bool) (r : Outcome CallHandle)
          → IsTold s (
              if tap
              then elim r as (λ _. Course Service SessionAnswer) [
                | raised e ↦ ends (raised e) s
                | ok call ↦ close_for_call tests now m call.id replaced (bridges call) s
              ]
              else ends (raised media_unavailable) s)
      go false r = ends-Tells (raised media_unavailable) s t
      go true (raised e) = ends-Tells (raised e) s t
      go true (ok call) =
          close_for_call-Tells now m call.id replaced (bridges call)
            (λ u q.
              waits-IsTold u _ _ (create_session-Told call.id reading u q)
                (answered-Tells now _ call.id closing a))
            s t

  pub call_ended-Told : (call_id : ℕ) (s : Service) → Told s → Told (call_ended tests call_id s)
  unfolding call_ended Told
  call_ended-Told call_id s t = ground arith

  close_each-Tells :
      {A : Type 0} (now : ℕ) (o : ℕ → Outcome (Unit {0})) (ids : List ℕ)
      → (next : Service → Course Service A) → Tells next
      → Tells (close_each tests now o ids next)
  unfolding close_each
  close_each-Tells now o [] next k s t = k s t
  close_each-Tells now o (id ∷ ids) next k s t =
      close_session_object-Tells now (o id) id _ _ (close_each-Tells now o ids next k) s t

  cancel_each-Tells :
      {A : Type 0} (o : Task → Outcome (Unit {0})) (ts : List Task)
      → (next : Service → Course Service A) → Tells next
      → Tells (cancel_each tests o ts next)
  unfolding cancel_each
  cancel_each-Tells o [] next k s t = k s t
  cancel_each-Tells o (task ∷ ts) next k s t =
      waits-IsTold s _ _ (Told-tasks _ s t)
        (came-Tells (o task) _ (λ _. cancel_each-Tells o ts next k))

  pub media_changed-Told :
      (now id : ℕ) (reading : SessionView) (reason : String) (s : Service)
      → Told s
      → Told (media_changed tests now id reading reason s)
  unfolding media_changed Told
  media_changed-Told now id reading reason s t = elim (Option-cases (lookup id s.legs)) [
    | inl gone ↦ rw (gone, media_changed) t
    | inr (leg, e) ↦ rw (e, media_changed) (leg_then_state-Told now id reason _ t)
  ]

  pub aclose-Tells :
      (now : ℕ) (o : ℕ → Outcome (Unit {0})) (c : Task → Outcome (Unit {0}))
      → Tells (aclose tests now o c)
  unfolding aclose
  aclose-Tells now o c s t =
      close_each-Tells now o s.sessions _
        (λ u q. cancel_each-Tells c u.tasks (ends (ok tt)) (ends-Tells (ok tt)) u q) s t
