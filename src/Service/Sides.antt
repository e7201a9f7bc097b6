-- ===== src/Service/Sides.antt =====
-- usecases/service.py: the side that `call_state_arrived` gives a dialog. The guess is made anew for
-- every report, so it also falls on dialogs that the book has under another side.
use urmet_ha.Prelude.{ℕ, ◌≡◌, refl, Bool, true, false, some, arith, ◌==◌, if◌then◌else◌, contains}
use urmet_ha.Domain.{Direction, incoming, outgoing, CallState, CallTests, CallHandle}
use urmet_ha.Calls.{CallBook, find, side_of, record_call}
use urmet_ha.Calls.Laws.{record_call-find}
use urmet_ha.Service.World.{Service, publish, publish_state, emit}
use urmet_ha.Service.Callbacks.{guess, state_told, call_state_arrived}

module _ (tests : CallTests) where
  state_told-calls :
      (now : ℕ) (call : CallHandle) (state : CallState) (side : Direction) (s : Service)
      → tests.is_terminal state ≡ false
      → (state_told tests now call state side s).calls ≡ s.calls
  unfolding state_told publish publish_state emit
  state_told-calls now call state side s h = ground arith

  call_state_arrived-calls :
      (now : ℕ) (call : CallHandle) (state : CallState) (s : Service)
      → tests.is_terminal state ≡ false
      → (call_state_arrived tests now call state s).calls
        ≡ (record_call s.calls call state (guess s) false).0
  unfolding call_state_arrived
  call_state_arrived-calls now call state s h = go (record_call s.calls call state (guess s) false)
    where
      go :
          (r : CallBook × Bool)
          → (if r.1
              then state_told tests now call state (guess s) (record s { calls = r.0 })
              else record s { calls = r.0 }).calls
            ≡ r.0
      go (b, true) = state_told-calls now call state (guess s) (record s { calls = b }) h
      go (b, false) = refl

  -- A report that ends nothing leaves the dialog on the side of the guess of that moment, whatever
  -- side it was on before: a dialog that the gateway placed is incoming after any report that comes
  -- while no INVITE of ours is in flight. Only a ring seen for the id overrules the guess.
  pub call_state_arrived-side :
      (now : ℕ) (call : CallHandle) (state : CallState) (s : Service)
      → tests.is_terminal state ≡ false
      → find (call_state_arrived tests now call state s).calls call.id
        ≡ some (record {
          handle = call;
          state = state;
          direction =
              if contains call.id s.calls.rang
              then incoming
              else (if s.inviting == 0 then incoming else outgoing);
        })
  unfolding guess side_of
  call_state_arrived-side now call state s h = ground (
    arith,
    call_state_arrived-calls now call state s h,
    record_call-find s.calls call state (guess s) false call.id,
  )
