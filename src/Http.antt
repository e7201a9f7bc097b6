-- ===== src/Http.antt =====
-- addon/urmet-gateway/urmet_gateway/http: what a browser is answered.
pub mod Errors
pub mod Rest
pub mod EventStream
mod Examples
