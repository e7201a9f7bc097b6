-- ===== src/Media/Audio/G711/RoundTrip.antt =====
-- g711.py: folding what an A-law byte expands to gives the byte back.
use Prim.Native.Nat.{bit_xor}
use urmet_ha.Prelude.{
  ℕ, suc, zero, ◌+◌, ◌-◌, ◌*◌, ◌/◌, ◌%◌, ◌^◌, ◌<◌, ◌≤◌, ◌≡◌, refl, ap, Bool, true, List, [], ◌∷◌,
  ◌++◌, ◌&&◌, leb, ◌==◌, arith, if◌then◌else◌, length,
}
use urmet_ha.Media.Audio.G711.{fold_sample, to_alaw}

-- The expansion of an A-law byte by the recommendation G.711, as the 16 bit pattern of the linear
-- sample: the even bits are inverted, the top bit is set for a positive sample, and each segment's
-- step doubles from the second on. It is the specification that the fold is measured by.
magnitude : ℕ → ℕ
magnitude b =
    let segment = (b / 16) % 8 in
    if segment == 0 then (b % 16) * 16 + 8 else ((b % 16) * 16 + 0x108) * 2 ^ (segment - 1)

pub expanded : ℕ → ℕ
unfolding magnitude
expanded byte = let b = bit_xor byte 0x55 in if leb 128 b then magnitude b else 65536 - magnitude b

-- The function leaves each number below the bound as it is.
fixes_below : (ℕ → ℕ) → ℕ → Bool
fixes_below f zero = true
fixes_below f (suc bound) = f bound == bound && fixes_below f bound

fixes_below-fixed : (f : ℕ → ℕ) (bound i : ℕ) → i < bound → fixes_below f bound ≡ true → f i ≡ i
unfolding fixes_below
fixes_below-fixed f zero i below all = absurd (omega arith)
fixes_below-fixed f (suc bound) i below all = ground (arith, fixes_below-fixed f bound i)

folds_back : fixes_below (λ byte. fold_sample (expanded byte)) 256 ≡ true
unfolding fixes_below fold_sample expanded
folds_back = refl

-- Every one of the 256 bytes.
fold_sample-expanded : (b : ℕ) → b < 256 → fold_sample (expanded b) ≡ b
fold_sample-expanded b h = fixes_below-fixed _ 256 b h folds_back

-- The two bytes of a sample, the low one first.
pub wire_bytes : ℕ → List ℕ
wire_bytes pattern = pattern % 256 ∷ pattern / 256 ∷ []

pub expand : List ℕ → List ℕ
expand [] = []
expand (b ∷ bs) = wire_bytes (expanded b) ++ expand bs

abbrev pub AllBytes : List ℕ → Type 0
AllBytes [] = Unit {0}
AllBytes (b ∷ bs) = (b < 256) × AllBytes bs

-- The fold is exact on what the panel's bytes expand to: it gives back the bytes, and a trailing odd
-- byte changes nothing.
pub to_alaw-expand :
    (bs tail : List ℕ) → AllBytes bs → length tail ≤ 1 → to_alaw (expand bs ++ tail) ≡ bs
unfolding to_alaw expand wire_bytes
to_alaw-expand [] [] all h = refl
to_alaw-expand [] (t ∷ []) all h = refl
to_alaw-expand [] (t ∷ u ∷ ts) all h = absurd (omega arith)
to_alaw-expand (b ∷ bs) tail all h =
    let e : expanded b % 256 + 256 * (expanded b / 256) ≡ expanded b = omega arith in
    cc (ap fold_sample e, fold_sample-expanded b all.0, to_alaw-expand bs tail all.1 h)

-- One byte for each whole sample, whatever the samples are.
pub length-to_alaw : (pcm : List ℕ) → length (to_alaw pcm) ≡ length pcm / 2
unfolding to_alaw
length-to_alaw [] = refl
length-to_alaw (a ∷ []) = refl
length-to_alaw (a ∷ b ∷ pcm) = omega (arith, length-to_alaw pcm)
