-- ===== src/Media.antt =====
-- addon/urmet-gateway/urmet_gateway/media: one call's voice and picture on their way to a browser.
pub mod Queue
pub mod Audio
pub mod Video
pub mod Session
mod Examples
