-- ===== src/Calls.antt =====
-- addon/urmet-gateway/urmet_gateway/usecases/calls.py: the book of the live dialogs. A method that
-- changes the book returns it; the error of `require` and `handle` is a value.
pub mod Laws
pub mod History
mod Examples
use urmet_ha.Prelude.{
  ℕ, ◌≡◌, Bool, true, false, Option, none, some, List, [], ◌∷◌, if◌then◌else◌, contains, discard,
  Dict, lookup, insert, erase,
}
use urmet_ha.Domain.{
  Direction, incoming, outgoing, CallState, same_state, CallTests, CallHandle, CallView,
}
use urmet_ha.Domain.Errors.{Outcome, ok, raised, unknown_call, ◌>>=◌}

pub record TrackedCall : Type 0 where
  pub handle : CallHandle
  pub state : CallState
  pub direction : Direction

pub record CallBook : Type 0 where
  pub calls : Dict TrackedCall
  pub rang : List ℕ

unfoldable pub empty_book : CallBook
empty_book = record { calls = []; rang = [] }

-- The side of a dialog: a ring already seen overrules the caller's guess.
unfoldable pub side_of : CallBook → ℕ → Direction → Direction
side_of b call_id direction = if contains call_id b.rang then incoming else direction

-- `CallBook.record`: the book, and whether the state was news.
unfoldable pub record_call : CallBook → CallHandle → CallState → Direction → Bool → CallBook × Bool
unfolding side_of
record_call b handle state direction refine_only =
    let side = side_of b handle.id direction in
    let fresh : TrackedCall = record { handle = handle; state = state; direction = side } in
    elim (lookup handle.id b.calls) [
      | none ↦
          if refine_only
          then (b, false)
          else (record b { calls = insert handle.id fresh b.calls }, true)
      | some tracked ↦
          if same_state tracked.state state
          then (
            record b {
              calls =
                  insert handle.id (record tracked { handle = handle; direction = side }) b.calls;
            },
            false,
          )
          else (record b { calls = insert handle.id fresh b.calls }, true)
    ]

unfoldable pub mark_incoming : CallBook → ℕ → CallBook
mark_incoming b call_id = record b {
  rang = if contains call_id b.rang then b.rang else call_id ∷ b.rang;
  calls = elim (lookup call_id b.calls) [
    | none ↦ b.calls
    | some tracked ↦ insert call_id (record tracked { direction = incoming }) b.calls
  ];
}

abbrev pub find : CallBook → ℕ → Option TrackedCall
find b call_id = lookup call_id b.calls

unfoldable pub require : CallBook → ℕ → Outcome TrackedCall
require b call_id = elim (lookup call_id b.calls) [
  | none ↦ raised unknown_call
  | some tracked ↦ ok tracked
]

unfoldable pub handle : CallBook → ℕ → Outcome CallHandle
unfolding require
handle b call_id = do tracked ← require b call_id; ok tracked.handle

unfoldable pub forget : CallBook → ℕ → CallBook
forget b call_id = record { calls = erase call_id b.calls; rang = discard call_id b.rang }

unfoldable pub clear : CallBook → CallBook
unfolding empty_book
clear b = empty_book

module _ (tests : CallTests) where
  unfoldable pub streaming_of : Dict TrackedCall → List TrackedCall
  streaming_of [] = []
  streaming_of ((i, c) ∷ d) =
      let rest = streaming_of d in if tests.is_streaming c.state then c ∷ rest else rest

  -- `CallBook.streaming`, in the order in which the dialogs appeared.
  unfoldable pub streaming_calls : CallBook → List TrackedCall
  unfolding streaming_of
  streaming_calls b = streaming_of b.calls

unfoldable pub views_of : Dict TrackedCall → List CallView
views_of [] = []
views_of ((i, c) ∷ d) = record { id = i; state = c.state; direction = c.direction } ∷ views_of d

-- `CallBook.views`
unfoldable pub views : CallBook → List CallView
unfolding views_of
views b = views_of b.calls
