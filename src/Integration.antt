-- ===== src/Integration.antt =====
-- custom_components/urmet: the Home Assistant integration that mirrors the gateway.
pub mod Json
pub mod Models
pub mod Events
pub mod Client
pub mod Coordinator
pub mod Repairs
pub mod Sensors
pub mod Doorbell
pub mod Commands
pub mod Services
pub mod Card
pub mod Examples
