-- ===== src/Sip.antt =====
-- addon/urmet-gateway/urmet_gateway/sip: the crossings between the SDK and the loop.
pub mod Holder
pub mod Hop
pub mod Worker
pub mod Supervisor
mod Examples
