-- ===== src/Media/Examples.antt =====
-- The queue of track.py and the fold of g711.py on short inputs.
use urmet_ha.Prelude.{◌≡◌, [], ◌∷◌, ◌++◌, arith}
use urmet_ha.Media.Audio.G711.{to_alaw}
use urmet_ha.Media.Audio.G711.RoundTrip.{expand, to_alaw-expand}

-- Three bytes and an odd one.
to_alaw-expand_example : to_alaw (expand (0 ∷ 85 ∷ 213 ∷ []) ++ 17 ∷ []) ≡ 0 ∷ 85 ∷ 213 ∷ []
to_alaw-expand_example =
    to_alaw-expand (0 ∷ 85 ∷ 213 ∷ []) (17 ∷ []) (omega arith, (omega arith, (omega arith, tt)))
      (omega arith)
