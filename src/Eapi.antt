-- ===== src/Eapi.antt =====
-- The eAPI client: internal/eapi.
pub mod Types
pub mod Error
pub mod Methods
pub mod Tls
pub mod Debug
pub mod Stats
pub mod Transport
pub mod Client
mod Tests
