-- ===== src/Metrics/Render.antt =====
-- Rendering: what internal/metrics/collector.go sends for one switch, by component.
pub mod System
pub mod Environment
pub mod Interfaces
pub mod Overlay
pub mod Optics
pub mod Switch
pub mod Described
mod Staleness
mod Filter
mod Partition
mod Fixtures
mod Tests
