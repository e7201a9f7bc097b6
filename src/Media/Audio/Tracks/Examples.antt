-- ===== src/Media/Audio/Tracks/Examples.antt =====
-- audio/tracks.py on a short call.
use urmet_ha.Prelude.{true, some, none, List, [], ◌∷◌}
use urmet_ha.Media.Audio.Bridge.{audio_bridge, backlog_frames}
use urmet_ha.Media.Audio.Tracks.{AudioTrack, Awaited, answers, Pump}
use urmet_ha.Media.Audio.Tracks.Timeline.{recv_all, IsGapless, recv_all-IsGapless}

abbrev fresh : AudioTrack
fresh = record { live = true; timestamp = 0; bridge = audio_bridge backlog_frames }

-- Two samples; an odd byte alone and then a sample; the end.
abbrev call : List (List Awaited)
call =
    (answers (λ b. b) (some (1 ∷ 0 ∷ 2 ∷ 0 ∷ [])) ∷ [])
    ∷ (answers (λ b. b) (some (7 ∷ [])) ∷ answers (λ b. b) (some (3 ∷ 0 ∷ [])) ∷ [])
    ∷ (answers (λ b. b) none ∷ [])
    ∷ []

recv_all-IsGapless_example : IsGapless fresh.timestamp (recv_all call fresh)
recv_all-IsGapless_example = recv_all-IsGapless call fresh

abbrev pump : Pump
pump = record {
  clock_rate = 8000;
  frame_bytes = 4;
  pending = 9 ∷ [];
  frames = 0;
  bridge = audio_bridge backlog_frames;
}
