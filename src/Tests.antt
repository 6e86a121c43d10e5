-- ===== src/Tests.antt =====
-- Concrete inputs on which the theorems are applied: parameters that compute, a small database and
-- the tokens of one session.
pub mod Data
pub mod Sessions
pub mod Codec
pub mod Tokens
pub mod Edge
pub mod Login
pub mod Renewal
pub mod Opening
pub mod Common
mod Config
mod Logging
mod Directory
mod Queues
