-- ===== src/Gateway.antt =====
-- The gateway's own core (internal/), apart from its management server.
pub mod Cgi
pub mod CgiParams
pub mod Deploy
pub mod FastCgi
pub mod FilePath
pub mod Forwarded
pub mod Path
pub mod Policy
pub mod RateLimit
pub mod Resolver
pub mod Router
pub mod Watchdog
