-- ===== src/Web.antt =====
-- What stands before the services.
pub mod RateLimit
pub mod Access
pub mod Routes
pub mod Queries
pub mod RequestId
pub mod Config
pub mod Errors
pub mod Http
pub mod Handlers
pub mod Server
