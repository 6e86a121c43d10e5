-- ===== src/Edge.antt =====
-- What stands at the edge of the API: packages/middlewares/authentication and
-- packages/plugins/error-handler, and packages/plugins/readiness.
pub mod RateLimit
pub mod Redis
pub mod ErrorHandler
pub mod Readiness
