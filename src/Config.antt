-- ===== src/Config.antt =====
-- The configuration: config/config.go, config/module.go, config/listen.go.
pub mod Types
pub mod Modules
pub mod Files
pub mod LogLevel
pub mod Validate
mod Tests
mod LoadTests
