-- ===== src/Media/Video/Track/Ending.antt =====
-- media/track.py: a stopped track ends its reader.
use urmet_ha.Prelude.{
  ℕ, suc, zero, ◌<◌, ◌≡◌, refl, ◌∙◌, Bool, true, false, Option, none, some, List, [], ◌∷◌, ◌++◌,
  if◌then◌else◌, length, length-append, arith,
}
use urmet_ha.Media.Video.Track.{
  Track, enqueue, put_end, loop_turn, Received, packet, ended, waits, recv, stop,
}

-- The loop runs so many of the calls that are with it.
unfoldable pub loop_turns : ℕ → Track → Track
loop_turns zero t = t
loop_turns (suc n) t = loop_turns n (loop_turn t)

loop_turn-kept : (t : Track) → ((loop_turn t).live ≡ t.live) × ((loop_turn t).depth ≡ t.depth)
unfolding loop_turn put_end enqueue
loop_turn-kept t = go t.handed
  where
    go :
        (h : List (Option ℕ))
        → let t' : Track = elim h [
          | [] ↦ t
          | none ∷ rest ↦ put_end (record t { handed = rest })
          | some ticks ∷ rest ↦ enqueue ticks (record t { handed = rest })
        ] in
          (t'.live ≡ t.live) × (t'.depth ≡ t.depth)
    go [] = (refl, refl)
    go (none ∷ rest) = ground arith
    go (some ticks ∷ rest) = (refl, refl)

loop_turn-handed :
    (t : Track) (x : Option ℕ) (rest : List (Option ℕ))
    → t.handed ≡ x ∷ rest
    → (loop_turn t).handed ≡ rest
unfolding loop_turn put_end enqueue
loop_turn-handed t none rest h = ground arith
loop_turn-handed t (some x) rest h = ground arith

recv_dead : (t : Track) → t.live ≡ false → 0 < length t.queue → (recv t).1 ≡ ended
unfolding recv
recv_dead t dead some_ = go t.queue t.live dead some_
  where
    go :
        (q : List (Option ℕ)) (live : Bool)
        → live ≡ false
        → 0 < length q
        → let out : Track × Received = elim q [
          | [] ↦ (t, waits)
          | none ∷ rest ↦ (record t { queue = rest }, ended)
          | some ticks ∷ rest ↦
              if live
              then (record t { queue = rest; sent = suc t.sent }, packet ticks)
              else (record t { queue = rest }, ended)
        ] in
          out.1 ≡ ended
    go [] live d n = absurd (omega arith)
    go (none ∷ rest) live d n = refl
    go (some ticks ∷ rest) live d n = rw d refl

last_turn-queued : (t : Track) → 0 < t.depth → t.handed ≡ none ∷ [] → 0 < length (loop_turn t).queue
unfolding loop_turn put_end
last_turn-queued t pos h = ground (arith, h, length-append t.queue (none ∷ []))

-- The end is put, or the queue is full already: a dead track with something queued ends its reader.
last_turn :
    (t : Track)
    → 0 < t.depth
    → t.live ≡ false
    → t.handed ≡ none ∷ []
    → (recv (loop_turn t)).1 ≡ ended
last_turn t pos dead h =
    recv_dead (loop_turn t) ((loop_turn-kept t).0 ∙ dead) (last_turn-queued t pos h)

loop_turns-ended :
    (h : List (Option ℕ)) (t : Track)
    → 0 < t.depth
    → t.live ≡ false
    → t.handed ≡ h ++ none ∷ []
    → (recv (loop_turns (suc (length h)) t)).1 ≡ ended
unfolding loop_turns
loop_turns-ended [] t pos dead h = last_turn t pos dead h
loop_turns-ended (x ∷ xs) t pos dead h =
    let kept = loop_turn-kept t in
    loop_turns-ended xs (loop_turn t) (rw kept.1 pos) (kept.0 ∙ dead)
      (loop_turn-handed t x (xs ++ none ∷ []) h)

-- Once a track is stopped and the loop has run what was with it, `recv` ends at once, full or empty
-- as the queue may be; it neither waits nor hands a packet over.
pub recv_after_stop :
    (t : Track) → 0 < t.depth → (recv (loop_turns (suc (length t.handed)) (stop true t))).1 ≡ ended
unfolding stop
recv_after_stop t pos =
    loop_turns-ended t.handed (record t { live = false; handed = t.handed ++ none ∷ [] }) pos refl
      refl
