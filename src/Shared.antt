-- ===== src/Shared.antt =====
-- shared/src/shared: what every service uses.
pub mod Errors
pub mod Values
pub mod Config
pub mod Models
pub mod World
pub mod Broker
pub mod Rows
pub mod Message
pub mod Storage
pub mod Webhook
pub mod Redis
pub mod Quiet
pub mod Consumer
