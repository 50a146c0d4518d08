-- ===== src/Middleware.antt =====
-- internal/middleware: what stands between the router of HTTP requests and the handlers.
pub mod Idempotency
pub mod RateLimit
pub mod RealIp
pub mod Headers
pub mod Logging
pub mod Auth
