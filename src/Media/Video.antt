-- ===== src/Media/Video.antt =====
-- addon/urmet-gateway/urmet_gateway/media: the picture.
pub mod Track
pub mod Pipeline
pub mod Watchdog
pub mod PictureWait
pub mod Encoder
mod Examples
