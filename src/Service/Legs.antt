-- ===== src/Service/Legs.antt =====
-- usecases/sessions.py: the browser legs, one session per call.
use urmet_ha.Prelude.{
  ℕ, suc, String, Bool, true, false, Option, none, some, List, [], ◌∷◌, ◌++◌, ◌==◌, ◌&&◌, Dict,
  lookup, insert, if◌then◌else◌, contains, discard, is_some,
}
use mathlib.Core.List.{get_last?}
use urmet_ha.Domain.{
  incoming, outgoing, SessionState, CallTests, CallHandle, SessionView, SessionAnswer,
}
use urmet_ha.Domain.Errors.{Outcome, ok, raised, no_streaming_call, media_unavailable, ◌>>=◌}
use urmet_ha.Threads.{Course, ends, waits}
use urmet_ha.Calls.{find, require, streaming_calls}
use urmet_ha.Service.World.{
  Leg, Task, close_leg, reap_after_grace, Service, publish_state, publish_leg,
}

abbrev pub replaced : String
replaced = "the browser offered again on this call"

abbrev pub ended_by_client : String
ended_by_client = "the client ended the session"

abbrev pub call_over : String
call_over = "the call ended"

abbrev pub shutting_down : String
shutting_down = "the gateway is shutting down"

-- The reason of a session whose offer failed, up to the error's own text.
abbrev pub unanswered : String
unanswered = "the offer could not be answered"

unfoldable pub first_on : Dict Leg → ℕ → List ℕ → Option ℕ
first_on legs call_id [] = none
first_on legs call_id (i ∷ ids) =
    let rest = first_on legs call_id ids in
    elim (lookup i legs) [
      | none ↦ rest
      | some leg ↦ if leg.call_id == call_id then some i else rest
    ]

-- `MediaSessions._for_call`
unfoldable pub for_call : Service → ℕ → Option ℕ
unfolding first_on
for_call s call_id = first_on s.legs call_id s.sessions

-- What a session reads as from the moment that it is closing.
unfoldable pub shut : String → Leg → Leg
shut reason leg = record leg {
  closed = true;
  reading = record leg.reading { state = SessionState.closed; reason = reason };
}

-- A task is named for its session or its dialog.
unfoldable pub same_task : Task → Task → Bool
same_task (close_leg i _) (close_leg j _) = i == j
same_task (reap_after_grace i) (reap_after_grace j) = i == j
same_task _ _ = false

-- The set of tasks, once one of them is finished.
unfoldable pub without : Task → List Task → List Task
unfolding same_task
without task [] = []
without task (t ∷ ts) = let rest = without task ts in if same_task t task then ts else t ∷ rest

module _ (tests : CallTests) where
  -- `MediaSessions._orphaned_monitor`
  unfoldable pub orphaned_monitor : Service → ℕ → Bool
  orphaned_monitor s call_id =
      if is_some (for_call s call_id) then false else elim (find s.calls call_id) [
        | none ↦ false
        | some c ↦
            tests.is_streaming c.state && elim c.direction [ incoming ↦ false | outgoing ↦ true ]
      ]

  -- `MediaSessions._session_closed`
  unfoldable pub session_closed : ℕ → ℕ → ℕ → String → Service → Service
  session_closed now id call_id reason s =
      let popped : Service = record s { sessions = discard id s.sessions } in
      let told = publish_state now (publish_leg now id reason popped) in
      if orphaned_monitor told call_id
      then record told { tasks = told.tasks ++ reap_after_grace call_id ∷ [] }
      else told

  -- `aclose` of a session: the first call tears it down, which takes awaits and may raise, and tells
  -- only then; what raises goes on to the caller.
  unfoldable pub close_session_object :
      {A : Type 0}
      → ℕ
      → Outcome (Unit {0})
      → ℕ
      → String
      → (Service → Course Service A)
      → Service
      → Course Service A
  unfolding shut
  close_session_object now torn_down id reason next s = elim (lookup id s.legs) [
    | none ↦ next s
    | some leg ↦
        if leg.closed
        then next s
        else waits (record s { legs = insert id (shut reason leg) s.legs })
            (λ t. elim torn_down [
              | raised e ↦ ends (raised e) t
              | ok _ ↦ next (session_closed now id leg.call_id reason t)
            ])
  ]

  -- `MediaSessions.close_for_call`
  unfoldable pub close_for_call :
      {A : Type 0}
      → ℕ
      → Outcome (Unit {0})
      → ℕ
      → String
      → (Service → Course Service A)
      → Service
      → Course Service A
  close_for_call now torn_down call_id reason next s = elim (for_call s call_id) [
    | none ↦ next s
    | some id ↦ close_session_object now torn_down id reason next s
  ]

  -- `MediaSessions.close_session`
  unfoldable pub close_session : ℕ → Outcome (Unit {0}) → ℕ → Service → Course Service (Unit {0})
  close_session now torn_down id s =
      if contains id s.sessions
      then close_session_object now torn_down id ended_by_client (ends (ok tt)) s
      else ends (ok tt) s

  -- `MediaSessions._pick`
  unfoldable pub pick : Service → Option ℕ → Outcome CallHandle
  pick s (some call_id) = do
    tracked ← require s.calls call_id
    if tests.is_streaming tracked.state then ok tracked.handle else raised no_streaming_call
  pick s none = elim (get_last? (streaming_calls tests s.calls)) [
    | none ↦ raised no_streaming_call
    | some c ↦ ok c.handle
  ]

  -- What `answer` does once the session has answered or failed.
  unfoldable pub answered :
      ℕ → ℕ → ℕ → Outcome (Unit {0}) → Outcome String → Service → Course Service SessionAnswer
  answered now id call_id torn_down (ok sdp) s =
      ends (ok (record { session_id = id; call_id = call_id; sdp = sdp }))
        (publish_state now (publish_leg now id String.[] s))
  answered now id call_id torn_down (raised e) s =
      close_session_object now torn_down id unanswered (ends (raised e)) s

  -- The counter moves, and the session is created and filed under it.
  unfoldable pub create_session : ℕ → SessionView → Service → Service
  create_session call_id reading s =
      let leg : Leg = record { call_id = call_id; closed = false; reading = reading } in
      record s {
        opened = suc s.opened;
        legs = insert (suc s.opened) leg s.legs;
        sessions = s.sessions ++ suc s.opened ∷ [];
      }

  -- `MediaSessions.answer`, with how the replaced session's end, the session's answer, and its end
  -- where it could not answer come out.
  unfoldable pub offer :
      ℕ
      → (replacing : Outcome (Unit {0})) → SessionView
      → (answering : Outcome String) → (closing : Outcome (Unit {0})) → Option ℕ
      → Service
      → Course Service SessionAnswer
  offer now replacing reading answering closing call_id s =
      if s.has_factory
      then elim (pick s call_id) [
        | raised e ↦ ends (raised e) s
        | ok call ↦
            close_for_call now replacing call.id replaced
              (λ t.
                let created = create_session call.id reading t in
                waits created (answered now created.opened call.id closing answering))
              s
      ]
      else ends (raised media_unavailable) s

  -- `MediaSessions.call_ended`: a task closes the session, later.
  unfoldable pub call_ended : ℕ → Service → Service
  call_ended call_id s = elim (for_call s call_id) [
    | none ↦ s
    | some id ↦ record s { tasks = s.tasks ++ close_leg id call_over ∷ [] }
  ]

  unfoldable pub close_each :
      {A : Type 0}
      → ℕ
      → (ℕ → Outcome (Unit {0}))
      → List ℕ
      → (Service → Course Service A)
      → Service
      → Course Service A
  close_each now torn_down [] next s = next s
  close_each now torn_down (id ∷ ids) next s =
      close_session_object now (torn_down id) id shutting_down (close_each now torn_down ids next) s

  -- Each task is cancelled and awaited; the error of one that raised instead comes out.
  unfoldable pub cancel_each :
      {A : Type 0}
      → (Task → Outcome (Unit {0}))
      → List Task
      → (Service → Course Service A)
      → Service
      → Course Service A
  cancel_each cancelled [] next s = next s
  cancel_each cancelled (task ∷ tasks) next s =
      waits (record s { tasks = without task s.tasks })
        (λ t. elim (cancelled task) [
          | raised e ↦ ends (raised e) t
          | ok _ ↦ cancel_each cancelled tasks next t
        ])

  -- `MediaSessions.aclose`: every session that is up, then the tasks that there are by then.
  unfoldable pub aclose :
      ℕ
      → (ℕ → Outcome (Unit {0}))
      → (Task → Outcome (Unit {0}))
      → Service
      → Course Service (Unit {0})
  aclose now torn_down cancelled s =
      close_each now torn_down s.sessions (λ t. cancel_each cancelled t.tasks (ends (ok tt)) t) s

  -- `MediaSessions._session_media_changed`, with what the session reads as from then on.
  unfoldable pub media_changed : ℕ → ℕ → SessionView → String → Service → Service
  media_changed now id reading reason s = elim (lookup id s.legs) [
    | none ↦ s
    | some leg ↦ publish_state now (
        publish_leg now id reason
          (record s { legs = insert id (record leg { reading = reading }) s.legs }))
  ]
