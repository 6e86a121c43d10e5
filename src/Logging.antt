-- ===== src/Logging.antt =====
-- packages/plugins/logging: what may be written to the logs, and the identifiers of a request.
pub mod Patterns
pub mod Keys
pub mod Sanitization
pub mod Fits
pub mod Shape
pub mod Spelling
pub mod Correlation
pub mod Entered
pub mod Cycles
pub mod Once
