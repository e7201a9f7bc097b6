-- ===== src/Sip/Hop/Order.antt =====
-- bridge.py: the service handles what was fired, once each and in the order of firing.
use urmet_ha.Prelude.{ℕ, ◌≡◌, refl, ◌∙◌, ap, arith, false, List, [], ◌∷◌, ◌++◌, if◌then◌else◌}
use urmet_ha.Domain.{CallTests}
use urmet_ha.Service.World.{Service}
use urmet_ha.Sip.Hop.{Callback, Loop, hop, handle, turn}

-- What happens, in any interleaving: a callback fires on its thread, or the loop has a turn.
pub data Step : Type 0 where
  fires : Callback → Step
  turns : Step

abbrev pub fired : List Step → List Callback
fired [] = []
fired (fires c ∷ steps) = c ∷ fired steps
fired (turns ∷ steps) = fired steps

module _ (tests : CallTests) (now : ℕ) where
  pub step : Step → Loop → Loop
  step (fires c) l = hop c l
  step turns l = turn tests now l

  pub run : List Step → Loop → Loop
  run [] l = l
  run (t ∷ ts) l = run ts (step t l)

  pub handle_all : List Callback → Service → Service
  handle_all [] s = s
  handle_all (c ∷ cs) s = handle_all cs (handle tests now c s)

  handle_all-append :
      (cs ds : List Callback) (s : Service)
      → handle_all (cs ++ ds) s ≡ handle_all ds (handle_all cs s)
  unfolding handle_all
  handle_all-append [] ds s = refl
  handle_all-append (c ∷ cs) ds s = handle_all-append cs ds (handle tests now c s)

  turn_lem :
      (l : Loop)
      → l.closed ≡ false
      → ((turn tests now l).closed ≡ false)
        × (handle_all (turn tests now l).ready (turn tests now l).service
            ≡ handle_all l.ready l.service)
  unfolding turn handle_all
  turn_lem l h = ground (arith, h)

  hop_lem :
      (c : Callback) (l : Loop)
      → l.closed ≡ false
      → ((hop c l).closed ≡ false)
        × (handle_all (hop c l).ready (hop c l).service
            ≡ handle tests now c (handle_all l.ready l.service))
  unfolding hop handle_all
  hop_lem c l h =
      let e : hop c l ≡ record l { ready = l.ready ++ c ∷ [] } =
        ap (λ b. if b then l else record l { ready = l.ready ++ c ∷ [] }) h in
      (
        ap (λ m. m.closed) e ∙ h,
        ap (λ m. handle_all m.ready m.service) e ∙ handle_all-append l.ready (c ∷ []) l.service,
      )

  -- Whatever fires while the loop is open, between whatever turns of it: once it has worked off what
  -- then waits, the service is as if each callback had been handled at once, in the order of firing.
  run-handle_all :
      (ts : List Step) (l : Loop)
      → l.closed ≡ false
      → handle_all (run ts l).ready (run ts l).service
        ≡ handle_all (fired ts) (handle_all l.ready l.service)
  unfolding run step handle_all
  run-handle_all [] l h = refl
  run-handle_all (fires c ∷ ts) l h =
      let one = hop_lem c l h in
      run-handle_all ts (hop c l) one.0 ∙ ap (λ s. handle_all (fired ts) s) one.1
  run-handle_all (turns ∷ ts) l h =
      let one = turn_lem l h in
      run-handle_all ts (turn tests now l) one.0 ∙ ap (λ s. handle_all (fired ts) s) one.1
