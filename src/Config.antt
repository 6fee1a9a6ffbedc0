-- ===== src/Config.antt =====
-- internal/config/config.go: the configuration, its defaults and its validation.
pub mod Services
pub mod Sections
pub mod Checks
pub mod General
pub mod Deployment
pub mod Storage
pub mod Validity
pub mod Consequences
pub mod Defaults
mod Runs
