-- ===== src/Calls/Laws.antt =====
-- calls.py: what each method does to every entry of the book.
use urmet_ha.Prelude.{
  ℕ, ◌≡◌, Bool, true, false, Option, none, some, arith, ◌==◌, if◌then◌else◌, contains,
  contains-discard, Distinct, lookup-insert, lookup-erase_ne, lookup-erase_self, insert-Distinct,
  erase-Distinct, Option-cases, inl, inr, ◌↔◌,
}
use urmet_ha.Domain.{Direction, incoming, CallState, same_state_iff, CallHandle}
use urmet_ha.Calls.{
  TrackedCall, CallBook, empty_book, side_of, record_call, mark_incoming, find, forget, clear,
}

-- The ids are distinct, each entry is filed under its handle's id, and an entry whose dialog rang
-- is incoming.
abbrev pub IsFiled : CallBook → Type 0
IsFiled b =
    Distinct b.calls
    × ((i : ℕ) (c : TrackedCall)
        → find b i ≡ some c
        → (c.handle.id ≡ i) × (contains i b.rang ≡ true → c.direction ≡ incoming))

-- `record` with an unknown id: a command leaves the book as it is, the transport adds the entry.
-- With a known id the entry is replaced, and the answer says whether the state differs.
pub record_call-find :
    (b : CallBook) (h : CallHandle) (s : CallState) (d : Direction) (refine_only : Bool) (i : ℕ)
    → find (record_call b h s d refine_only).0 i ≡ (
        if i == h.id
        then elim (find b h.id) [
          | none ↦
              if refine_only
              then none
              else some (record { handle = h; state = s; direction = side_of b h.id d })
          | some c ↦ some (record { handle = h; state = s; direction = side_of b h.id d })
        ]
        else find b i)
unfolding record_call
record_call-find b h s d refine_only i = elim (Option-cases (find b h.id)) [
  | inl missing ↦ ground (
    arith,
    missing,
    lookup-insert i h.id (record { handle = h; state = s; direction = side_of b h.id d }) b.calls,
  )
  | inr (c, e) ↦ ground (
    arith,
    e,
    same_state_iff c.state s,
    lookup-insert i h.id (record { handle = h; state = s; direction = side_of b h.id d }) b.calls,
    lookup-insert i h.id (record c { handle = h; direction = side_of b h.id d }) b.calls,
  )
]

-- The state that the book has for a dialog, if it has the dialog.
abbrev pub state_in : CallBook → ℕ → Option CallState
state_in b i = elim (find b i) [ none ↦ none | some c ↦ some c.state ]

-- `record` answers false exactly when the state that the book has for the dialog is what it was,
-- for a report of the transport and for a command alike.
pub record_call-news :
    (b : CallBook) (h : CallHandle) (s : CallState) (d : Direction) (refine_only : Bool)
    → let (b', news) = record_call b h s d refine_only in
      (news ≡ false) ↔ (state_in b' h.id ≡ state_in b h.id)
unfolding record_call
record_call-news b h s d refine_only = elim (Option-cases (find b h.id)) [
  | inl missing ↦ ground (
    arith,
    missing,
    lookup-insert h.id h.id (record { handle = h; state = s; direction = side_of b h.id d })
        b.calls,
  )
  | inr (c, e) ↦ ground (
    arith,
    e,
    same_state_iff c.state s,
    lookup-insert h.id h.id (record { handle = h; state = s; direction = side_of b h.id d })
        b.calls,
    lookup-insert h.id h.id (record c { handle = h; direction = side_of b h.id d }) b.calls,
  )
]

pub record_call-rang :
    (b : CallBook) (h : CallHandle) (s : CallState) (d : Direction) (refine_only : Bool)
    → (record_call b h s d refine_only).0.rang ≡ b.rang
unfolding record_call
record_call-rang b h s d refine_only = ground arith

record_call-Distinct :
    (b : CallBook) (h : CallHandle) (s : CallState) (d : Direction) (refine_only : Bool)
    → Distinct b.calls
    → Distinct (record_call b h s d refine_only).0.calls
unfolding record_call
record_call-Distinct b h s d refine_only v = elim (Option-cases (find b h.id)) [
  | inl missing ↦ ground (
    arith,
    missing,
    insert-Distinct h.id (record { handle = h; state = s; direction = side_of b h.id d }) b.calls v,
  )
  | inr (c, e) ↦ ground (
    arith,
    e,
    insert-Distinct h.id (record { handle = h; state = s; direction = side_of b h.id d }) b.calls v,
    insert-Distinct h.id (record c { handle = h; direction = side_of b h.id d }) b.calls v,
  )
]

pub record_call-IsFiled :
    (b : CallBook) (h : CallHandle) (s : CallState) (d : Direction) (refine_only : Bool)
    → IsFiled b
    → IsFiled (record_call b h s d refine_only).0
unfolding side_of
record_call-IsFiled b h s d refine_only v = (
  record_call-Distinct b h s d refine_only v.0,
  λ i c e. ground (
    arith,
    record_call-find b h s d refine_only i,
    record_call-rang b h s d refine_only,
    v.1 i c,
  ),
)

pub mark_incoming-find :
    (b : CallBook) (k i : ℕ)
    → find (mark_incoming b k) i ≡ (
        if i == k
        then elim (find b k) [ none ↦ none | some c ↦ some (record c { direction = incoming }) ]
        else find b i)
unfolding mark_incoming
mark_incoming-find b k i = elim (Option-cases (find b k)) [
  | inl missing ↦ ground (arith, missing)
  | inr (c, e) ↦ ground (arith, e, lookup-insert i k (record c { direction = incoming }) b.calls)
]

pub mark_incoming-rang :
    (b : CallBook) (k i : ℕ)
    → contains i (mark_incoming b k).rang ≡ (if i == k then true else contains i b.rang)
unfolding mark_incoming
mark_incoming-rang b k i = ground arith

pub forget-find :
    (b : CallBook) (k i : ℕ)
    → Distinct b.calls
    → find (forget b k) i ≡ (if i == k then none else find b i)
unfolding forget
forget-find b k i h = ground (arith, lookup-erase_self k b.calls h, lookup-erase_ne i k b.calls)

pub forget-rang :
    (b : CallBook) (k i : ℕ)
    → contains i (forget b k).rang ≡ (if i == k then false else contains i b.rang)
unfolding forget
forget-rang b k i = contains-discard i k b.rang

mark_incoming-Distinct :
    (b : CallBook) (k : ℕ) → Distinct b.calls → Distinct (mark_incoming b k).calls
unfolding mark_incoming
mark_incoming-Distinct b k v = elim (Option-cases (find b k)) [
  | inl missing ↦ ground (arith, missing)
  | inr (c, e) ↦ ground (arith, e, insert-Distinct k (record c { direction = incoming }) b.calls v)
]

pub mark_incoming-IsFiled : (b : CallBook) (k : ℕ) → IsFiled b → IsFiled (mark_incoming b k)
mark_incoming-IsFiled b k v = (
  mark_incoming-Distinct b k v.0,
  λ i c e. elim (Option-cases (find b i)) [
    | inl missing ↦ ground (arith, mark_incoming-find b k i, mark_incoming-rang b k i)
    | inr (c', e') ↦ ground (arith, mark_incoming-find b k i, mark_incoming-rang b k i, v.1 i c' e')
  ],
)

forget-Distinct : (b : CallBook) (k : ℕ) → Distinct b.calls → Distinct (forget b k).calls
unfolding forget
forget-Distinct b k v = erase-Distinct k b.calls v

pub forget-IsFiled : (b : CallBook) (k : ℕ) → IsFiled b → IsFiled (forget b k)
forget-IsFiled b k v = (
  forget-Distinct b k v.0,
  λ i c e. ground (arith, forget-find b k i v.0, forget-rang b k i, v.1 i c),
)

pub empty_book-IsFiled : IsFiled empty_book
unfolding empty_book
empty_book-IsFiled = (tt, λ i c e. absurd (cc))

pub clear-IsFiled : (b : CallBook) → IsFiled (clear b)
unfolding clear empty_book
clear-IsFiled b = (tt, λ i c e. absurd (cc))
