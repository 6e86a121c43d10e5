-- ===== src/Services.antt =====
-- packages/services: the tokens, the password hashes and what they rest on.
pub mod Dates
pub mod Jose
pub mod AccessToken
pub mod RefreshToken
pub mod Separation
pub mod Password
