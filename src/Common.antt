-- ===== src/Common.antt =====
-- packages/common: the values, rules and errors that the other packages share.
pub mod Errors
pub mod AuthSessions
pub mod Authentication
pub mod Organizations
pub mod Units
