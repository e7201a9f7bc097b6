-- ===== src/Media/Audio/Tracks/Timeline.antt =====
-- audio/tracks.py: the doorphone's packets follow each other without a gap.
use urmet_ha.Prelude.{
  ℕ, ◌+◌, ◌<◌, ◌≡◌, refl, Bool, true, false, none, some, List, [], ◌∷◌, if◌then◌else◌, length,
  arith,
}
use mathlib.Core.Path.{subst}
use urmet_ha.Media.Audio.G711.{to_alaw}
use urmet_ha.Media.Audio.Tracks.{
  Packet, AudioTrack, Awaited, answers, fails, Recv, hands, ends, failed, waits, count_partial,
  next_packet, reported, recv, track_ended,
}

abbrev pub packets_of : List Packet → Recv → List Packet
packets_of ps (hands p) = p ∷ ps
packets_of ps (ends r) = ps
packets_of ps (failed r) = ps
packets_of ps waits = ps

-- The packets of so many calls of `recv`, each with what it awaited.
unfoldable pub recv_all : List (List Awaited) → AudioTrack → List Packet
recv_all [] t = []
recv_all (a ∷ as_) t = packets_of (recv_all as_ (recv a t).0) (recv a t).1

-- Each packet carries a sample, and begins where the one before it ended.
abbrev pub IsGapless : ℕ → List Packet → Type 0
IsGapless at [] = Unit {0}
IsGapless at (p ∷ ps) = (p.pts ≡ at) × (0 < length p.payload) × IsGapless (at + length p.payload) ps

-- What one `recv` does to the timeline.
abbrev Advances : ℕ → AudioTrack × Recv → Type 0
Advances at (t, hands p) =
    (p.pts ≡ at) × (0 < length p.payload) × (t.timestamp ≡ at + length p.payload)
Advances at (t, ends r) = t.timestamp ≡ at
Advances at (t, failed r) = t.timestamp ≡ at
Advances at (t, waits) = t.timestamp ≡ at

next_packet-Advances :
    (as_ : List Awaited) (t : AudioTrack) → Advances t.timestamp (next_packet as_ t)
unfolding next_packet
next_packet-Advances [] t = refl
next_packet-Advances (fails m r ∷ as_) t = refl
next_packet-Advances (answers m none ∷ as_) t = refl
next_packet-Advances (answers m (some pcm) ∷ as_) t =
    go (next_packet-Advances as_ (record t { bridge = count_partial pcm (m t.bridge) }))
      (to_alaw pcm)
  where
    go :
        let counted : AudioTrack = record t { bridge = count_partial pcm (m t.bridge) } in
        Advances t.timestamp (next_packet as_ counted)
        → (payload : List ℕ)
        → Advances t.timestamp (elim payload [
          | [] ↦ next_packet as_ counted
          | sample ∷ samples ↦ (
            record counted { timestamp = t.timestamp + length (sample ∷ samples) },
            hands (record { pts = t.timestamp; payload = sample ∷ samples }),
          )
        ])
    go later [] = later
    go later (s ∷ ss) = (refl, omega arith, refl)

recv-Advances : (as_ : List Awaited) (t : AudioTrack) → Advances t.timestamp (recv as_ t)
unfolding recv
recv-Advances as_ t = go t.live
  where
    keeps : (r : AudioTrack × Recv) → Advances t.timestamp r → Advances t.timestamp (reported r)
    keeps (u, hands p) a = unfold reported in a
    keeps (u, ends r) a = unfold reported in a
    keeps (u, failed r) a = unfold reported in a
    keeps (u, waits) a = unfold reported in a

    go :
        (live : Bool)
        → Advances t.timestamp
            (reported (if live then next_packet as_ t else (t, ends track_ended)))
    go true = keeps (next_packet as_ t) (next_packet-Advances as_ t)
    go false = keeps (t, ends track_ended) refl

-- Through any calls of `recv`, whatever frames the panel sent, the packets handed to aiortc are on
-- one timeline without a gap or an overlap: the first begins where the track stood, each later one
-- where the one before it ended, and each carries at least one sample.
pub recv_all-IsGapless :
    (as_ : List (List Awaited)) (t : AudioTrack) → IsGapless t.timestamp (recv_all as_ t)
unfolding recv_all
recv_all-IsGapless [] t = tt
recv_all-IsGapless (a ∷ as_) t =
    go (recv a t) (recv-Advances a t) (recv_all-IsGapless as_ (recv a t).0)
  where
    go :
        (r : AudioTrack × Recv)
        → Advances t.timestamp r
        → IsGapless r.0.timestamp (recv_all as_ r.0)
        → IsGapless t.timestamp (packets_of (recv_all as_ r.0) r.1)
    go (u, hands p) e rest = (e.0, e.1, subst (λ at. IsGapless at (recv_all as_ u)) e.2 rest)
    go (u, ends r) e rest = subst (λ at. IsGapless at (recv_all as_ u)) e rest
    go (u, failed r) e rest = subst (λ at. IsGapless at (recv_all as_ u)) e rest
    go (u, waits) e rest = subst (λ at. IsGapless at (recv_all as_ u)) e rest
