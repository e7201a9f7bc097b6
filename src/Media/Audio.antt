-- ===== src/Media/Audio.antt =====
-- addon/urmet-gateway/urmet_gateway/media/audio: the voice.
pub mod Bridge
pub mod G711
pub mod Tracks
