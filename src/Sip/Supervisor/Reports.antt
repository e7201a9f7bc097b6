-- ===== src/Sip/Supervisor/Reports.antt =====
-- supervision.py: what the supervisor tells about the binding.
use urmet_ha.Prelude.{
  ℕ, suc, ◌≡◌, ◌≢◌, refl, ◌∙◌, Bool, true, false, none, some, List, [], ◌∷◌, ◌++◌, map, String,
  arith, ap, if◌then◌else◌,
}
use mathlib.Core.List.{append_assoc, append-nil}
use urmet_ha.Sip.Supervisor.{
  Supervisor, RegistrationOutcome, Turn, Call, returns, urmet_error, other_error, Reading, Refresh,
  publish, publish_down, publish_up, told_release, release, sleep, let_go, lose, hold, build_client,
  connected, started, supervise, supervise_all, reset_backoff, liveness_interval, released_reason,
  not_released_reason, unconfirmed_reason, stop,
}
use urmet_ha.Sip.Supervisor.Backoff.{doubling, waits, IsLive, is_contained, wait_before_retry_lem}

abbrev pub up : Reading → RegistrationOutcome
up r = record { registered = true; status_code = r.status_code; reason = r.reason; released = none }

abbrev pub down : Reading → String → RegistrationOutcome
down r reason = record {
  registered = false;
  status_code = r.status_code;
  reason = reason;
  released = none;
}

-- The release was confirmed only where `stop` returned true.
abbrev pub confirmed : Call Bool → Bool
confirmed (returns b) = b
confirmed _ = false

abbrev pub let_go_of : Call Bool → RegistrationOutcome
let_go_of c = record {
  registered = false;
  status_code = 0;
  reason = if confirmed c then released_reason else not_released_reason;
  released = some (confirmed c);
}

-- The refreshes as a binding is held: the readings of those that were confirmed, and the one that
-- was not, where there is one.
pub data Held : List Refresh → List Reading → Reading → String → Type 0 where
  raises_urmet :
      (r : Refresh) (rs : List Refresh) (reason : String)
      → r.start ≡ urmet_error reason
      → Held (r ∷ rs) [] r.reading reason
  raises_other :
      (r : Refresh) (rs : List Refresh) (reason : String)
      → r.start ≡ other_error reason
      → Held (r ∷ rs) [] r.reading reason
  unconfirmed :
      (r : Refresh) (rs : List Refresh)
      → r.start ≡ returns tt
      → r.registered ≡ false
      → Held (r ∷ rs) [] r.reading unconfirmed_reason
  holds :
      (r : Refresh) (rs : List Refresh) (readings : List Reading) (last : Reading) (reason : String)
      → r.start ≡ returns tt
      → r.registered ≡ true
      → Held rs readings last reason
      → Held (r ∷ rs) (r.reading ∷ readings) last reason

-- One liveness interval before each refresh, the one that fails included.
abbrev pub intervals : List Reading → List ℕ
intervals [] = liveness_interval ∷ []
intervals (r ∷ rs) = liveness_interval ∷ intervals rs

hold_lem :
    {rs : List Refresh} {readings : List Reading} {last : Reading} {reason : String}
    → Held rs readings last reason
    → (s : Supervisor)
    → hold rs s ≡ (
      record s {
        slept = s.slept ++ intervals readings;
        published = s.published ++ map up readings;
      },
      some (last, reason),
    )
unfolding hold sleep publish_up publish
hold_lem (raises_urmet r rs reason e) s = rw (e, append-nil) refl
hold_lem (raises_other r rs reason e) s = rw (e, append-nil) refl
hold_lem (unconfirmed r rs e q) s = rw (e, q, append-nil) refl
hold_lem (holds r rs readings last reason e q h) s =
    rw (e, q)
      (hold_lem h (publish_up r.reading (sleep liveness_interval s))
        ∙ rw (
          append_assoc s.slept (liveness_interval ∷ []) (intervals readings),
          append_assoc s.published (up r.reading ∷ []) (map up readings),
        ))

let_go_reports :
    (t : Turn) (s : Supervisor)
    → is_contained t.stop ≡ true
    → s.died ≡ false
    → let_go t s ≡ record s {
      published = s.published ++ let_go_of t.stop ∷ [];
      slept = s.slept ++ waits (doubling s.step) (suc t.busy);
      step = suc s.step;
    }
unfolding let_go release told_release publish
let_go_reports t s c d = ground (arith, wait_before_retry_lem t.busy (release t.stop s))

supervise_live :
    (t : Turn) (s : Supervisor) → IsLive s → supervise t s ≡ started t t.start (build_client s)
unfolding supervise
supervise_live t s live = ground arith

supervise_all-died : (ts : List Turn) (s : Supervisor) → s.died ≡ true → supervise_all ts s ≡ s
unfolding supervise_all supervise
supervise_all-died [] s d = refl
supervise_all-died (t ∷ ts) s d =
    let same : supervise t s ≡ s = ground arith in rw same (supervise_all-died ts s d)

-- A turn whose registration is refused tells that the binding is down, for the reason of the
-- refusal, and then how the release of that client went; a release that could not be confirmed is
-- told as such.
pub supervise_refused-reports :
    (t : Turn) (s : Supervisor) (reason : String)
    → IsLive s
    → t.start ≡ urmet_error reason
    → is_contained t.stop ≡ true
    → (supervise t s).published ≡ s.published ++ (down t.reading reason ∷ let_go_of t.stop ∷ [])
unfolding build_client started publish_down publish
supervise_refused-reports t s reason live e c =
    ap (λ u. u.published) (supervise_live t s live ∙ ap (λ r. started t r (build_client s)) e)
    ∙ ap (λ u. u.published)
        (let_go_reports t (publish_down t.reading reason (build_client s)) c live.1)
    ∙ append_assoc s.published (down t.reading reason ∷ []) (let_go_of t.stop ∷ [])

-- A turn that registers and then loses the binding tells of the registration and of each refresh
-- that was confirmed, then that the binding is down, then how the release went. It slept a liveness
-- interval before each refresh; the wait after it is the shortest one, whatever failed before.
pub supervise_lost-reports :
    (t : Turn) (s : Supervisor) {readings : List Reading} {last : Reading} {reason : String}
    → IsLive s
    → t.start ≡ returns tt
    → t.hook ≡ returns tt
    → Held t.refreshes readings last reason
    → is_contained t.stop ≡ true
    → supervise t s ≡ record s {
      step = 1;
      built = suc s.built;
      client = some (suc s.built);
      published =
          s.published
          ++ (up t.reading ∷ (map up readings ++ (down last reason ∷ let_go_of t.stop ∷ [])));
      slept = s.slept ++ (intervals readings ++ waits 5 (suc t.busy));
    }
unfolding build_client started connected lose publish_down publish_up publish reset_backoff doubling
supervise_lost-reports t s {readings} {last} {reason} live e k h c =
    supervise_live t s live
    ∙ ap (λ r. started t r (build_client s)) e
    ∙ ap (λ r. connected t r registered_) k
    ∙ ap (lose t) (hold_lem h registered_)
    ∙ let_go_reports t lost_ c live.1
    ∙ rw (
      append_assoc s.slept (intervals readings) (waits 5 (suc t.busy)),
      append_assoc s.published (up t.reading ∷ []) (map up readings),
      append_assoc s.published (up t.reading ∷ map up readings) (down last reason ∷ []),
      append_assoc s.published ((up t.reading ∷ map up readings) ++ down last reason ∷ [])
          (let_go_of t.stop ∷ []),
      append_assoc (up t.reading ∷ map up readings) (down last reason ∷ []) (let_go_of t.stop ∷ []),
    )
  where
    registered_ : Supervisor
    registered_ = reset_backoff (publish_up t.reading (build_client s))

    lost_ : Supervisor
    lost_ = publish_down last reason (record registered_ {
      slept = registered_.slept ++ intervals readings;
      published = registered_.published ++ map up readings;
    })

connected_raises :
    (t : Turn) (s : Supervisor) (c : Call (Unit {0}))
    → c ≢ returns tt
    → connected t c s ≡ record s { died = true }
unfolding connected
connected_raises t s (returns tt) h = elim (h refl) [ ]
connected_raises t s (urmet_error reason) h = refl
connected_raises t s (other_error reason) h = refl

-- A hook that raises, an error of the SDK or any other, ends the loop with the registered client in
-- place: whatever turns were to come, no client is built any more, nothing is slept and nothing is
-- told, so that the last that was told of the binding is that it is up.
pub supervise_hook_raises :
    (t : Turn) (s : Supervisor) (ts : List Turn)
    → IsLive s
    → t.start ≡ returns tt
    → t.hook ≢ returns tt
    → let r = supervise_all ts (supervise t s) in
      (r.published ≡ s.published ++ up t.reading ∷ [])
      × (r.built ≡ suc s.built)
      × (r.client ≡ some (suc s.built))
      × (r.slept ≡ s.slept)
unfolding build_client started publish_up publish reset_backoff
supervise_hook_raises t s ts live e k =
    let ended =
      supervise_live t s live
      ∙ ap (λ r. started t r (build_client s)) e
      ∙ connected_raises t (reset_backoff (publish_up t.reading (build_client s))) t.hook k in
    let all = supervise_all-died ts (supervise t s) (ap (λ u. u.died) ended) ∙ ended in
    (
      ap (λ u. u.published) all,
      ap (λ u. u.built) all,
      ap (λ u. u.client) all,
      ap (λ u. u.slept) all,
    )

supervise_all-stopped :
    (ts : List Turn) (s : Supervisor) → s.stopped ≡ true → supervise_all ts s ≡ s
unfolding supervise_all supervise
supervise_all-stopped [] s d = refl
supervise_all-stopped (t ∷ ts) s d =
    let same : supervise t s ≡ s = ground arith in rw same (supervise_all-stopped ts s d)

stop-stopped : (c : Call Bool) (s : Supervisor) → (stop c s).stopped ≡ true
unfolding stop release told_release publish
stop-stopped c s = ground arith

-- `stop` is final: a second one changes nothing, and no turn of the loop does.
pub stop_final :
    (c c' : Call Bool) (s : Supervisor) (ts : List Turn)
    → (stop c' (stop c s) ≡ stop c s) × (supervise_all ts (stop c s) ≡ stop c s)
stop_final c c' s ts =
    (again (stop c s) (stop-stopped c s), supervise_all-stopped ts (stop c s) (stop-stopped c s))
  where
    again : (s' : Supervisor) → s'.stopped ≡ true → stop c' s' ≡ s'
    again s' h = unfold stop in ground arith
