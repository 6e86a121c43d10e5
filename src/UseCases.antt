-- ===== src/UseCases.antt =====
-- packages/useCases: the login, the renewal of a session, and the registry of jobs.
pub mod World
pub mod Authenticate
pub mod Login
pub mod Refresh
