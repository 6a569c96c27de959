-- ===== src/Tests.antt =====
-- Scenarios: the theorems at concrete inputs.
pub mod Broker
pub mod Gateway
pub mod Dispatcher
pub mod AuthService
pub mod Api
pub mod Storage
pub mod Scanner
pub mod Images
pub mod Logger
pub mod ClamAv
pub mod Migrations
pub mod Pipeline
pub mod Workers
