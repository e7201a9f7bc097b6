-- ===== src/Sip/Supervisor/Examples.antt =====
-- supervision.py on a registrar that refuses, accepts, and loses a binding.
use urmet_ha.Prelude.{◌≡◌, ◌≢◌, refl, true, false, some, [], ◌∷◌, ◌++◌}
use urmet_ha.Sip.Supervisor.{
  Turn, returns, urmet_error, other_error, Reading, supervisor, supervise, supervise_all,
  unconfirmed_reason,
}
use urmet_ha.Sip.Supervisor.Backoff.{doubling, waits, schedule, Waited, supervise_all-refused}
use urmet_ha.Sip.Supervisor.Reports.{
  up, down, let_go_of, Held, unconfirmed, holds, supervise_lost-reports, supervise_hook_raises,
}

abbrev fine : Reading
fine = record { status_code = 200; reason = "OK" }

abbrev forbidden : Reading
forbidden = record { status_code = 403; reason = "Forbidden" }

abbrev refused : Turn
refused = record {
  start = urmet_error "403";
  reading = forbidden;
  hook = returns tt;
  refreshes = [];
  stop = returns false;
  busy = 1;
}

abbrev lost : Turn
lost = record {
  start = returns tt;
  reading = fine;
  hook = returns tt;
  refreshes =
      record { start = returns tt; registered = true; reading = fine }
      ∷ record { start = returns tt; registered = false; reading = forbidden }
      ∷ [];
  stop = returns true;
  busy = 0;
}

abbrev deaf : Turn
deaf = record lost { hook = other_error "no answer" }

cadence :
    schedule 0 (refused ∷ refused ∷ record refused { busy = 0 } ∷ []) ≡ 5 ∷ 5 ∷ 10 ∷ 10 ∷ 20 ∷ []
unfolding schedule waits doubling
cadence = refl

supervise_all-refused_example :
    Waited supervisor 2
      (schedule 0 (refused ∷ refused ∷ []))
      (supervise_all (refused ∷ refused ∷ []) supervisor)
unfolding supervisor
supervise_all-refused_example =
    supervise_all-refused (refused ∷ refused ∷ []) supervisor (refl, refl)
      ((refl, refl), ((refl, refl), tt))

lost-Held : Held lost.refreshes (fine ∷ []) forbidden unconfirmed_reason
lost-Held = holds _ _ _ _ _ refl refl (unconfirmed _ _ refl refl)

supervise_lost-reports_example : supervise lost supervisor ≡ record supervisor {
  step = 1;
  built = 1;
  client = some 1;
  published = up fine ∷ up fine ∷ down forbidden unconfirmed_reason ∷ let_go_of (returns true) ∷ [];
  slept = 300 ∷ 300 ∷ waits 5 1;
}
unfolding supervisor
supervise_lost-reports_example =
    supervise_lost-reports lost supervisor (refl, refl) refl refl lost-Held refl

deaf-raises : deaf.hook ≢ returns tt
deaf-raises h = cc

supervise_hook_raises_example :
    let r = supervise_all (lost ∷ []) (supervise deaf supervisor) in
    (r.published ≡ [] ++ up fine ∷ []) × (r.built ≡ 1) × (r.client ≡ some 1) × (r.slept ≡ [])
unfolding supervisor
supervise_hook_raises_example =
    supervise_hook_raises deaf supervisor (lost ∷ []) (refl, refl) refl deaf-raises
