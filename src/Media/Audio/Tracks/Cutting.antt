-- ===== src/Media/Audio/Tracks/Cutting.antt =====
-- audio/tracks.py: the pump cuts without losing a byte.
use urmet_ha.Prelude.{
  ℕ, suc, zero, ◌+◌, ◌*◌, ◌≤◌, ◌<◌, ◌≡◌, refl, ap, ◌∙◌, List, [], ◌∷◌, ◌++◌, length, take, drop,
  length-take, length-drop, take-append-drop, arith, ==_iff,
}
use mathlib.Core.List.{append_assoc}
use native.Mathlib.Decide.{dec_le}
use urmet_ha.Domain.Errors.{ok}
use urmet_ha.Media.Audio.Tracks.{Pump, audio, cut, take_frame, push_each, bytes_per_sample}

abbrev pub concat : List (List ℕ) → List ℕ
concat [] = []
concat (f ∷ fs) = f ++ concat fs

abbrev pub AllOf : ℕ → List (List ℕ) → Type 0
AllOf size [] = Unit {0}
AllOf size (f ∷ fs) = (length f ≡ size) × AllOf size fs

cut_more :
    (fuel size : ℕ) (pending : List ℕ)
    → size ≤ length pending
    → cut (suc fuel) size pending ≡ (
      take size pending ∷ (cut fuel size (drop size pending)).0,
      (cut fuel size (drop size pending)).1,
    )
unfolding cut
cut_more fuel size pending h = ground arith

cut_done :
    (fuel size : ℕ) (pending : List ℕ)
    → length pending < size
    → cut (suc fuel) size pending ≡ ([], pending)
unfolding cut
cut_done fuel size pending h = ground arith

-- A cutting of these bytes: what is left is less than a frame, every frame cut off has the size, and
-- frames and rest are the bytes that were there, in order.
abbrev pub IsCut : ℕ → List ℕ → List (List ℕ) × List ℕ → Type 0
IsCut size pending c = (concat c.0 ++ c.1 ≡ pending) × AllOf size c.0 × (length c.1 < size)

one_more :
    (size : ℕ) (pending : List ℕ) (c : List (List ℕ) × List ℕ)
    → size ≤ length pending
    → IsCut size (drop size pending) c
    → IsCut size pending (take size pending ∷ c.0, c.1)
one_more size pending c enough h = (
  append_assoc (take size pending) (concat c.0) c.1
      ∙ ap (λ l. take size pending ++ l) h.0
      ∙ take-append-drop size pending,
  (omega (arith, length-take size pending), h.1),
  h.2,
)

-- With fuel for each byte the loop of the pump runs to its end, and is a cutting of the bytes.
cut-IsCut :
    (fuel size : ℕ) (pending : List ℕ)
    → 0 < size
    → length pending ≤ fuel
    → IsCut size pending (cut fuel size pending)
cut-IsCut zero size [] pos h = unfold cut in (refl, tt, pos)
cut-IsCut zero size (b ∷ bs) pos h = absurd (omega arith)
cut-IsCut (suc fuel) size pending pos h = elim (dec_le size (length pending)) [
  | yes enough ↦ rw (cut_more fuel size pending enough) (
      one_more size pending (cut fuel size (drop size pending)) enough
        (cut-IsCut fuel size (drop size pending) pos (omega (arith, length-drop size pending))))
  | no short ↦ rw (cut_done fuel size pending (omega arith)) (refl, tt, omega arith)
]

-- A frame in the format that the tap wants is cut without losing or converting a byte: what was
-- pending and the frame's own samples are the frames queued for the doorphone, each of the tap's
-- size, and what is pending then, less than a frame.
pub take_frame-IsCut :
    (samples : ℕ) (plane : List ℕ) (p : Pump)
    → 0 < p.frame_bytes
    → (c : List (List ℕ) × List ℕ) × IsCut p.frame_bytes
        (p.pending ++ take (samples * bytes_per_sample) plane)
        c
      × (take_frame (audio "s16" "mono" p.clock_rate samples plane) p
          ≡ ok (record p {
            pending = c.1;
            frames = p.frames + length c.0;
            bridge = push_each c.0 p.bridge;
          }))
unfolding take_frame
take_frame-IsCut samples plane p pos =
    let pending = p.pending ++ take (samples * bytes_per_sample) plane in
    (
      cut (length pending) p.frame_bytes pending,
      cut-IsCut (length pending) p.frame_bytes pending pos (omega arith),
      rw ((==_iff p.clock_rate p.clock_rate).1 refl) refl,
    )
