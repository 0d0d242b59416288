-- ===== src/Middleware.antt =====
-- server/internal/middleware: what every request passes on its way to a handler.
pub mod RateLimit
pub mod Cors
mod Examples
