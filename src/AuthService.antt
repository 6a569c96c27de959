-- ===== src/AuthService.antt =====
-- auth_service: developers, their refresh tokens, API keys and webhook configurations.
pub mod Models
pub mod Session
pub mod Utils
pub mod Tokens
pub mod Services
pub mod ApiKeys
pub mod ApiKeyLaws
pub mod Registration
pub mod WebhookLaws
pub mod Servicer
pub mod Rotation
pub mod Logout
pub mod Process
