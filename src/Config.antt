-- ===== src/Config.antt =====
-- internal/config/config.go: the configuration and what is accepted of it.
pub mod Text
pub mod Types
pub mod Env
pub mod Validate
pub mod Validity
pub mod Words
pub mod Primary
pub mod Checks
pub mod Consistent
pub mod Overrides
mod Tests
