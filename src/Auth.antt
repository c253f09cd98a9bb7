-- ===== src/Auth.antt =====
-- internal/auth: credentials, grants, rate limits and the middleware in front of the handlers.
pub mod Token
pub mod Authorize
pub mod Window
pub mod RateLimit
pub mod Middleware
mod Tests
