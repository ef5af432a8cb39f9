-- ===== src/Checks.antt =====
-- What the validators of src/proposal/validation.ts and src/persistence/events.ts share.
pub mod Patterns
pub mod Guards
pub mod Errors
