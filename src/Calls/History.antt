-- ===== src/Calls/History.antt =====
-- calls.py: the book after any sequence of calls of its methods. Only the transport says that a
-- dialog exists, and a dialog never changes sides.
use urmet_ha.Prelude.{ℕ, ◌≡◌, refl, ◌≢◌, true, false, none, some, List, [], ◌∷◌, arith, contains}
use urmet_ha.Domain.{Direction, incoming, CallState, CallHandle}
use urmet_ha.Calls.{
  TrackedCall, CallBook, empty_book, record_call, mark_incoming, find, forget, clear,
}
use urmet_ha.Calls.Laws.{
  IsFiled, record_call-find, record_call-rang, mark_incoming-find, mark_incoming-rang, forget-find,
  forget-rang, record_call-IsFiled, mark_incoming-IsFiled, forget-IsFiled, clear-IsFiled,
  empty_book-IsFiled,
}

-- `reports` is the transport's `record`, `refines` a command's.
pub data BookCall : Type 0 where
  reports refines : CallHandle → CallState → Direction → BookCall
  rings forgets : ℕ → BookCall
  clears : BookCall

unfoldable pub apply : CallBook → BookCall → CallBook
apply b (reports h s d) = (record_call b h s d false).0
apply b (refines h s d) = (record_call b h s d true).0
apply b (rings i) = mark_incoming b i
apply b (forgets i) = forget b i
apply b clears = clear b

unfoldable pub replay : CallBook → List BookCall → CallBook
replay b [] = b
replay b (c ∷ cs) = replay (apply b c) cs

pub apply-IsFiled : (b : CallBook) (c : BookCall) → IsFiled b → IsFiled (apply b c)
unfolding apply
apply-IsFiled b (reports h s d) v = record_call-IsFiled b h s d false v
apply-IsFiled b (refines h s d) v = record_call-IsFiled b h s d true v
apply-IsFiled b (rings i) v = mark_incoming-IsFiled b i v
apply-IsFiled b (forgets i) v = forget-IsFiled b i v
apply-IsFiled b clears v = clear-IsFiled b

replay-IsFiled : (b : CallBook) (cs : List BookCall) → IsFiled b → IsFiled (replay b cs)
unfolding replay
replay-IsFiled b [] v = v
replay-IsFiled b (c ∷ cs) v = replay-IsFiled (apply b c) cs (apply-IsFiled b c v)

-- After any calls on a new book, the ids are distinct, every entry is filed under the id of its
-- handle, and an entry whose dialog rang is incoming, whatever the callers guessed.
pub replay-empty_book-IsFiled : (cs : List BookCall) → IsFiled (replay empty_book cs)
replay-empty_book-IsFiled cs = replay-IsFiled empty_book cs empty_book-IsFiled

-- No report of the transport names the dialog.
abbrev pub Silent : ℕ → List BookCall → Type 0
Silent i [] = Unit {0}
Silent i (reports h s d ∷ cs) = (h.id ≢ i) × Silent i cs
Silent i (refines h s d ∷ cs) = Silent i cs
Silent i (rings k ∷ cs) = Silent i cs
Silent i (forgets k ∷ cs) = Silent i cs
Silent i (clears ∷ cs) = Silent i cs

clear-find : (b : CallBook) (i : ℕ) → find (clear b) i ≡ none
unfolding clear empty_book
clear-find b i = refl

-- A dialog that is not in the book stays out of it until the transport reports a state for it:
-- no command, no ring and no forgetting puts it back.
pub replay-find_absent :
    (b : CallBook) (i : ℕ) (cs : List BookCall)
    → IsFiled b
    → find b i ≡ none
    → Silent i cs
    → find (replay b cs) i ≡ none
unfolding replay
replay-find_absent b i [] v h q = h
replay-find_absent b i (reports k s d ∷ cs) v h q =
    replay-find_absent (apply b (reports k s d)) i cs (apply-IsFiled b (reports k s d) v)
      (unfold apply in ground (arith, record_call-find b k s d false i)) q.1
replay-find_absent b i (refines k s d ∷ cs) v h q =
    replay-find_absent (apply b (refines k s d)) i cs (apply-IsFiled b (refines k s d) v)
      (unfold apply in ground (arith, record_call-find b k s d true i)) q
replay-find_absent b i (rings k ∷ cs) v h q =
    replay-find_absent (apply b (rings k)) i cs (apply-IsFiled b (rings k) v)
      (unfold apply in ground (arith, mark_incoming-find b k i)) q
replay-find_absent b i (forgets k ∷ cs) v h q =
    replay-find_absent (apply b (forgets k)) i cs (apply-IsFiled b (forgets k) v)
      (unfold apply in ground (arith, forget-find b k i v.0)) q
replay-find_absent b i (clears ∷ cs) v h q =
    replay-find_absent (apply b clears) i cs (apply-IsFiled b clears v)
      (unfold apply in clear-find b i) q

-- Nothing forgets the dialog.
abbrev pub Kept : ℕ → List BookCall → Type 0
Kept i [] = Unit {0}
Kept i (reports h s d ∷ cs) = Kept i cs
Kept i (refines h s d ∷ cs) = Kept i cs
Kept i (rings k ∷ cs) = Kept i cs
Kept i (forgets k ∷ cs) = (k ≢ i) × Kept i cs
Kept i (clears ∷ cs) = ⊥

apply-rang :
    (b : CallBook) (i : ℕ) (c : BookCall)
    → Kept i (c ∷ [])
    → contains i b.rang ≡ true
    → contains i (apply b c).rang ≡ true
unfolding apply
apply-rang b i (reports h s d) q r = ground (arith, record_call-rang b h s d false)
apply-rang b i (refines h s d) q r = ground (arith, record_call-rang b h s d true)
apply-rang b i (rings k) q r = ground (arith, mark_incoming-rang b k i)
apply-rang b i (forgets k) q r = ground (arith, forget-rang b k i)
apply-rang b i clears q r = absurd q

Kept-head :
    (i : ℕ) (c : BookCall) (cs : List BookCall) → Kept i (c ∷ cs) → Kept i (c ∷ []) × Kept i cs
Kept-head i (reports h s d) cs q = (tt, q)
Kept-head i (refines h s d) cs q = (tt, q)
Kept-head i (rings k) cs q = (tt, q)
Kept-head i (forgets k) cs q = ((q.0, tt), q.1)
Kept-head i clears cs q = absurd q

replay-rang :
    (b : CallBook) (i : ℕ) (cs : List BookCall)
    → Kept i cs
    → contains i b.rang ≡ true
    → contains i (replay b cs).rang ≡ true
unfolding replay
replay-rang b i [] q r = r
replay-rang b i (c ∷ cs) q r =
    let parts = Kept-head i c cs q in
    replay-rang (apply b c) i cs parts.1 (apply-rang b i c parts.0 r)

-- Once the panel rang on a dialog it is incoming for as long as it is in the book, also where a
-- state of it was reported before the ring, and whatever side the callers guess.
pub replay_after_ring :
    (b : CallBook) (i : ℕ) (cs : List BookCall) (c : TrackedCall)
    → IsFiled b
    → Kept i cs
    → find (replay (mark_incoming b i) cs) i ≡ some c
    → c.direction ≡ incoming
replay_after_ring b i cs c v q e =
    ((replay-IsFiled (mark_incoming b i) cs (mark_incoming-IsFiled b i v)).1 i c e).1
      (replay-rang (mark_incoming b i) i cs q (ground (arith, mark_incoming-rang b i i)))
