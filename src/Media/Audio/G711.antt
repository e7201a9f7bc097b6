-- ===== src/Media/Audio/G711.antt =====
-- addon/urmet-gateway/urmet_gateway/media/audio/g711.py: the fold of linear samples to A-law. A byte
-- is a number below 256; a sample of the host is two of them, the low one first.
pub mod RoundTrip
use Prim.Native.Nat.{bit_xor}
use urmet_ha.Prelude.{
  ℕ, suc, zero, ◌+◌, ◌-◌, ◌*◌, ◌/◌, ◌%◌, ◌^◌, Bool, true, false, List, [], ◌∷◌, ltb, leb,
  if◌then◌else◌, length,
}

abbrev pub segment_ends : List ℕ
segment_ends = 0x1F ∷ 0x3F ∷ 0x7F ∷ 0xFF ∷ 0x1FF ∷ 0x3FF ∷ 0x7FF ∷ 0xFFF ∷ []

-- The first segment whose end is not below the value, or their number.
first_segment : ℕ → List ℕ → ℕ
first_segment v [] = 0
first_segment v (e ∷ es) = let rest = suc (first_segment v es) in if leb v e then 0 else rest

abbrev pub table_size : ℕ
table_size = 8192

abbrev pub sign_split : ℕ
sign_split = 4096

-- `_companded`, of the magnitude that it works with and the sign's mask.
companded_magnitude : ℕ → ℕ → ℕ
unfolding first_segment
companded_magnitude value mask =
    let segment = first_segment value segment_ends in
    if leb 8 segment
    then bit_xor 0x7F mask
    else bit_xor
        (segment * 16 + (if ltb segment 2 then (value / 2) % 16 else (value / 2 ^ segment) % 16))
        mask

-- The table's entry: an index from the split on is the negative number `i - 8192`, whose magnitude
-- is `-(i - 8192) - 1`.
unfoldable pub alaw_entry : ℕ → ℕ
unfolding companded_magnitude
alaw_entry i =
    if leb sign_split i
    then companded_magnitude (table_size - i - 1) 0x55
    else companded_magnitude i 0xD5

-- One sample, as the 16 bit pattern of its two bytes.
unfoldable pub fold_sample : ℕ → ℕ
unfolding alaw_entry
fold_sample pattern = alaw_entry ((pattern / 8) % 8192)

-- `to_alaw`: whole samples, the trailing odd byte dropped.
unfoldable pub to_alaw : List ℕ → List ℕ
unfolding fold_sample
to_alaw [] = []
to_alaw (low ∷ []) = []
to_alaw (low ∷ high ∷ pcm) = fold_sample (low + 256 * high) ∷ to_alaw pcm
