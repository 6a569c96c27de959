-- ===== src/Gateway.antt =====
-- gateway: the public HTTP gateway. It finds out who calls, limits the rate of each API key in
-- Redis, and passes the request on to an internal service.
pub mod Config
pub mod Security
pub mod Headers
pub mod ApiKeyRepo
pub mod AuthClient
pub mod Handlers
pub mod Proxy
pub mod Lifespan
pub mod BearerLaws
pub mod HeaderLaws
pub mod RateLimit
pub mod CacheLaws
pub mod ProxyLaws
