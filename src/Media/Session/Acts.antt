-- ===== src/Media/Session/Acts.antt =====
-- media/session.py: what may happen to a session during an await of its teardown.
use urmet_ha.Prelude.{◌≡◌, refl, sym, ◌∙◌, String, true, Option, none, some, is_some, if◌then◌else◌}
use mathlib.Core.Path.{subst}
use urmet_ha.Domain.Errors.{Outcome, ok}
use urmet_ha.Media.Audio.Bridge.{AudioBridge}
use urmet_ha.Media.Session.{Session, Picture, Waited, aclose}

-- What may happen to a session while one of its awaits is on: the media change; an answer that was
-- in progress gets its bridge (`_arm_audio`) or the browser's track (`_browser_track`); and more calls
-- of `aclose` come, from the client, the connection, the dialog or the shutdown. Those end at once on a
-- session that is closed already, so that within a teardown no two overlap.
mutual
  pub data SessionAct : Type 0 where
    pictures : Picture → SessionAct
    connects : String → SessionAct
    frames : AudioBridge → SessionAct
    attaches : AudioBridge → SessionAct
    tracks : SessionAct
    ends : String → (u p a c : SessionActs) → (ou op oa oc : Outcome (Unit {0})) → SessionAct

  pub data SessionActs : Type 0 where
    idle : SessionActs
    then_ : SessionAct → SessionActs → SessionActs

unfoldable mutual
  pub session_act : SessionAct → Session → Session
  session_act (pictures p) s = record s { picture = p }
  session_act (connects c) s = record s { connection = c }
  session_act (frames b) s = record s { bridge = elim s.bridge [ none ↦ none | some _ ↦ some b ] }
  session_act (attaches b) s = record s { bridge = some b }
  session_act tracks s = record s { uplink = if is_some s.bridge then true else s.uplink }
  session_act (ends reason u p a c ou op oa oc) s =
      (aclose reason (record { meanwhile = session_acts u; outcome = ou })
        (record { meanwhile = session_acts p; outcome = op })
        (record { meanwhile = session_acts a; outcome = oa })
        (record { meanwhile = session_acts c; outcome = oc }) s).1

  pub session_acts : SessionActs → Session → Session
  session_acts idle s = s
  session_acts (then_ a as_) s = session_acts as_ (session_act a s)

-- The awaits of one teardown, each with what else happens to the session during it.
abbrev pub during : SessionActs → Outcome (Unit {0}) → Waited
during m o = record { meanwhile = session_acts m; outcome = o }

-- What a closed session keeps.
abbrev pub IsKept : Session → Session → Type 0
IsKept s t =
    (t.closed ≡ true)
    × (t.steps ≡ s.steps)
    × (t.reason ≡ s.reason)
    × (is_some s.bridge ≡ true → is_some t.bridge ≡ true)

pub closed_again :
    (reason : String) (u p a c : Waited) (s : Session)
    → s.closed ≡ true
    → aclose reason u p a c s ≡ (ok tt, s)
unfolding aclose
closed_again reason u p a c s h = rw h refl

same_presence :
    (o : Option AudioBridge) (b : AudioBridge)
    → is_some (elim o as (λ x. Option AudioBridge) [ none ↦ none | some _ ↦ some b ]) ≡ is_some o
same_presence none b = refl
same_presence (some x) b = refl

session_act-IsKept : (a : SessionAct) (s : Session) → s.closed ≡ true → IsKept s (session_act a s)
unfolding session_act
session_act-IsKept (pictures p) s h = (h, refl, refl, λ b. b)
session_act-IsKept (connects c) s h = (h, refl, refl, λ b. b)
session_act-IsKept (frames b) s h = (h, refl, refl, λ k. same_presence s.bridge b ∙ k)
session_act-IsKept (attaches b) s h = (h, refl, refl, λ k. refl)
session_act-IsKept tracks s h = (h, refl, refl, λ k. k)
session_act-IsKept (ends reason u p a c ou op oa oc) s h =
    subst (λ r. IsKept s r.1)
      (sym (closed_again reason (during u ou) (during p op) (during a oa) (during c oc) s h))
      (h, refl, refl, λ b. b)

pub session_acts-IsKept :
    (as_ : SessionActs) (s : Session) → s.closed ≡ true → IsKept s (session_acts as_ s)
unfolding session_acts
session_acts-IsKept idle s h = (h, refl, refl, λ b. b)
session_acts-IsKept (then_ a as_) s h =
    let one = session_act-IsKept a s h in
    let rest = session_acts-IsKept as_ (session_act a s) one.0 in
    (rest.0, rest.1 ∙ one.1, rest.2 ∙ one.2, λ b. rest.3 (one.3 b))
