-- ===== src/Media/Video/Track/Stamps.antt =====
-- media/track.py: the timeline only goes forward, and a stopped track ends its reader.
use urmet_ha.Prelude.{
  ℕ, suc, ◌≡◌, refl, Bool, true, false, Option, none, some, List, [], ◌∷◌, ◌++◌, max, leb,
  if◌then◌else◌, length, arith,
}
use mathlib.Core.List.{append_assoc, append-nil}
use urmet_ha.Media.Queue.{push, drop_oldest}
use urmet_ha.Media.Video.Track.Rising.{
  IsRising, IsRising-snoc, IsRising-up, IsRising-drop, IsRising-prefix,
}
use urmet_ha.Media.Video.Track.{
  Track, new_track, submit, enqueue, put_end, loop_turn, Received, packet, ended, waits, recv, stop,
}

-- What happens to a track.
pub data TrackCall : Type 0 where
  submits : Bool → ℕ → TrackCall
  turns receives : TrackCall
  stops : Bool → TrackCall

-- A track, and the stamps of the packets that aiortc was handed.
pub record Watched : Type 0 where
  pub track : Track
  pub got : List ℕ

unfoldable pub note : List ℕ → Received → List ℕ
note got (packet ticks) = got ++ ticks ∷ []
note got ended = got
note got waits = got

unfoldable pub track_call : TrackCall → Watched → Watched
unfolding note
track_call (submits o e) w = record w { track = submit o e w.track }
track_call turns w = record w { track = loop_turn w.track }
track_call receives w = record { track = (recv w.track).0; got = note w.got (recv w.track).1 }
track_call (stops o) w = record w { track = stop o w.track }

unfoldable pub track_calls : List TrackCall → Watched → Watched
track_calls [] w = w
track_calls (c ∷ cs) w = track_calls cs (track_call c w)

unfoldable pub watched : ℕ → Watched
watched depth = record { track = new_track depth; got = [] }

abbrev pub somes : List (Option ℕ) → List ℕ
somes [] = []
somes (none ∷ xs) = somes xs
somes (some x ∷ xs) = x ∷ somes xs

somes-append : (xs ys : List (Option ℕ)) → somes (xs ++ ys) ≡ somes xs ++ somes ys
somes-append [] ys = refl
somes-append (none ∷ xs) ys = somes-append xs ys
somes-append (some x ∷ xs) ys = ground (arith, somes-append xs ys)

-- What aiortc got, what waits in the queue and what is with the loop, in that order.
abbrev pub timeline : Watched → List ℕ
timeline w = w.got ++ (somes w.track.queue ++ somes w.track.handed)

abbrev pub IsTimed : Watched → Type 0
IsTimed w = IsRising 0 (timeline w) w.track.least

handed_timeline :
    (g : List ℕ) (q h : List (Option ℕ)) (x : Option ℕ)
    → g ++ (somes q ++ somes (h ++ x ∷ [])) ≡ (g ++ (somes q ++ somes h)) ++ somes (x ∷ [])
handed_timeline g q h x =
    rw
      (
        somes-append h (x ∷ []),
        append_assoc g (somes q ++ somes h) (somes (x ∷ [])),
        append_assoc (somes q) (somes h) (somes (x ∷ [])),
      )
      refl

queued_timeline :
    (g : List ℕ) (q h : List (Option ℕ)) (x : Option ℕ)
    → g ++ (somes (q ++ x ∷ []) ++ somes h) ≡ g ++ (somes q ++ somes (x ∷ h))
queued_timeline g q h none = rw (somes-append q (none ∷ []), append-nil) refl
queued_timeline g q h (some t) =
    rw (somes-append q (some t ∷ []), append_assoc (somes q) (t ∷ []) (somes h)) refl

-- The oldest of the queue goes, if it is a packet its stamp with it.
oldest_gone :
    (g : List ℕ) (q h : List (Option ℕ)) (high : ℕ)
    → IsRising 0 (g ++ (somes q ++ somes h)) high
    → IsRising 0 (g ++ (somes (drop_oldest q) ++ somes h)) high
unfolding drop_oldest
oldest_gone g [] h high r = r
oldest_gone g (none ∷ q) h high r = r
oldest_gone g (some y ∷ q) h high r = IsRising-drop 0 g y (somes q ++ somes h) high r

enqueue-IsRising :
    (g : List ℕ) (t : Track) (ticks high : ℕ)
    → IsRising 0 (g ++ (somes t.queue ++ somes (some ticks ∷ t.handed))) high
    → IsRising 0 (g ++ (somes (enqueue ticks t).queue ++ somes t.handed)) high
unfolding enqueue push
enqueue-IsRising g t ticks high r = go (leb t.depth (length t.queue))
  where
    go :
        (full : Bool)
        → IsRising 0
            (g
              ++ (somes ((if full then drop_oldest t.queue else t.queue) ++ some ticks ∷ [])
                  ++ somes t.handed))
            high
    go true =
        rw (queued_timeline g (drop_oldest t.queue) t.handed (some ticks))
          (oldest_gone g t.queue (some ticks ∷ t.handed) high r)
    go false = rw (queued_timeline g t.queue t.handed (some ticks)) r

-- The timeline of a track behind what aiortc got.
abbrev IsTimedAfter : List ℕ → Track → Type 0
IsTimedAfter g t = IsRising 0 (g ++ (somes t.queue ++ somes t.handed)) t.least

put_end-IsTimed : (g : List ℕ) (t : Track) → IsTimedAfter g t → IsTimedAfter g (put_end t)
unfolding put_end
put_end-IsTimed g t r = go (leb t.depth (length t.queue))
  where
    go :
        (full : Bool)
        → IsTimedAfter g (if full then t else record t { queue = t.queue ++ none ∷ [] })
    go true = r
    go false = rw (queued_timeline g t.queue t.handed none) r

submit-IsTimed :
    (g : List ℕ) (t : Track) (o : Bool) (e : ℕ) → IsTimedAfter g t → IsTimedAfter g (submit o e t)
unfolding submit
submit-IsTimed g t o e r = go t.live o
  where
    go :
        (live o : Bool)
        → IsTimedAfter g (
            if live
            then record t {
              least = suc (max t.least e);
              handed = if o then t.handed ++ some (max t.least e) ∷ [] else t.handed;
            }
            else t)
    go false o = r
    go true false =
        IsRising-up 0 (g ++ (somes t.queue ++ somes t.handed)) t.least (suc (max t.least e)) r
          (omega arith)
    go true true = rw (handed_timeline g t.queue t.handed (some (max t.least e))) (
        IsRising-snoc 0 (g ++ (somes t.queue ++ somes t.handed)) t.least (max t.least e) r
          (omega arith))

loop_turn-IsTimed : (g : List ℕ) (t : Track) → IsTimedAfter g t → IsTimedAfter g (loop_turn t)
unfolding loop_turn
loop_turn-IsTimed g t r = go t.handed r
  where
    go :
        (h : List (Option ℕ))
        → IsRising 0 (g ++ (somes t.queue ++ somes h)) t.least
        → IsTimedAfter g (elim h [
          | [] ↦ t
          | none ∷ rest ↦ put_end (record t { handed = rest })
          | some ticks ∷ rest ↦ enqueue ticks (record t { handed = rest })
        ])
    go [] r' = r
    go (none ∷ rest) r' = put_end-IsTimed g (record t { handed = rest }) r'
    go (some ticks ∷ rest) r' =
        unfold enqueue in enqueue-IsRising g (record t { handed = rest }) ticks t.least r'

stop-IsTimed : (g : List ℕ) (t : Track) (o : Bool) → IsTimedAfter g t → IsTimedAfter g (stop o t)
unfolding stop
stop-IsTimed g t false r = r
stop-IsTimed g t true r = rw (handed_timeline g t.queue t.handed none, append-nil) r

recv-IsTimed :
    (g : List ℕ) (t : Track) → IsTimedAfter g t → IsTimedAfter (note g (recv t).1) (recv t).0
unfolding recv note
recv-IsTimed g t r = go t.queue t.live r
  where
    go :
        (q : List (Option ℕ)) (live : Bool)
        → IsRising 0 (g ++ (somes q ++ somes t.handed)) t.least
        → let out : Track × Received = elim q [
          | [] ↦ (t, waits)
          | none ∷ rest ↦ (record t { queue = rest }, ended)
          | some ticks ∷ rest ↦
              if live
              then (record t { queue = rest; sent = suc t.sent }, packet ticks)
              else (record t { queue = rest }, ended)
        ] in
          IsTimedAfter (note g out.1) out.0
    go [] live r' = r
    go (none ∷ rest) live r' = r'
    go (some ticks ∷ rest) true r' =
        rw (append_assoc g (ticks ∷ []) (somes rest ++ somes t.handed)) r'
    go (some ticks ∷ rest) false r' =
        IsRising-drop 0 g ticks (somes rest ++ somes t.handed) t.least r'

track_call-IsTimed : (c : TrackCall) (w : Watched) → IsTimed w → IsTimed (track_call c w)
unfolding track_call
track_call-IsTimed (submits o e) w r = submit-IsTimed w.got w.track o e r
track_call-IsTimed turns w r = loop_turn-IsTimed w.got w.track r
track_call-IsTimed receives w r = recv-IsTimed w.got w.track r
track_call-IsTimed (stops o) w r = stop-IsTimed w.got w.track o r

track_calls-IsTimed : (cs : List TrackCall) (w : Watched) → IsTimed w → IsTimed (track_calls cs w)
unfolding track_calls
track_calls-IsTimed [] w r = r
track_calls-IsTimed (c ∷ cs) w r =
    track_calls-IsTimed cs (track_call c w) (track_call-IsTimed c w r)

-- Whatever the clock reads at each packet, and in whatever order the two threads' calls come, the
-- stamps of the packets that aiortc was handed rise strictly, and stay below the next stamp.
pub track_calls-IsRising :
    (depth : ℕ) (cs : List TrackCall)
    → let w = track_calls cs (watched depth) in IsRising 0 w.got w.track.least
unfolding watched new_track
track_calls-IsRising depth cs =
    let w0 : Watched = record { track = new_track depth; got = [] } in
    let w = track_calls cs w0 in
    IsRising-prefix 0 w.got (somes w.track.queue ++ somes w.track.handed) w.track.least
      (track_calls-IsTimed cs w0 (omega arith))
