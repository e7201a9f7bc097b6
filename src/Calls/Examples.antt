-- ===== src/Calls/Examples.antt =====
-- calls.py on a concrete book: a call of ours and a ring, one of them over.
use urmet_ha.Prelude.{◌≡◌, refl, none, some, List, [], ◌∷◌}
use urmet_ha.Domain.{
  incoming, outgoing, ringing, connecting, streaming, ended, same_state, CallHandle,
}
use urmet_ha.Calls.{CallBook, empty_book, record_call, mark_incoming, find, forget}
use urmet_ha.Calls.Laws.{IsFiled}
use urmet_ha.Calls.History.{
  BookCall, reports, refines, rings, forgets, apply, replay, replay-empty_book-IsFiled,
  replay-find_absent, replay_after_ring,
}

abbrev ours : CallHandle
ours = record { id = 1; native = 11 }

abbrev theirs : CallHandle
theirs = record { id = 2; native = 12 }

abbrev busy_hour : List BookCall
busy_hour =
    reports ours connecting outgoing
    ∷ reports theirs ringing outgoing
    ∷ rings 2
    ∷ reports ours ended outgoing
    ∷ forgets 1
    ∷ []

abbrev book : CallBook
book = replay empty_book busy_hour

book-IsFiled : IsFiled book
book-IsFiled = replay-empty_book-IsFiled busy_hour

book_absent : find book 1 ≡ none
unfolding replay apply empty_book record_call mark_incoming forget same_state
book_absent = refl

book-theirs : find book 2 ≡ some (record { handle = theirs; state = ringing; direction = incoming })
unfolding replay apply empty_book record_call mark_incoming forget same_state
book-theirs = refl

replay-find_absent_example :
    find (replay book (refines ours streaming outgoing ∷ rings 1 ∷ [])) 1 ≡ none
replay-find_absent_example =
    replay-find_absent book 1 (refines ours streaming outgoing ∷ rings 1 ∷ []) book-IsFiled
      book_absent tt

replay_after_ring_example : incoming ≡ incoming
unfolding replay apply empty_book record_call mark_incoming forget same_state
replay_after_ring_example =
    replay_after_ring empty_book 2 (reports theirs ringing outgoing ∷ [])
      (record { handle = theirs; state = ringing; direction = incoming })
      (replay-empty_book-IsFiled []) tt refl
