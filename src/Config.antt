-- ===== src/Config.antt =====
-- packages/config/validation.ts: the configuration of the applications, read from the environment.
pub mod Shapes
pub mod Hosts
pub mod Readers
pub mod Environments
pub mod Blame
pub mod Refusal
pub mod Manager
pub mod Accepted
