-- ===== src/Collector.antt =====
-- The collector: internal/collector/collector.go and repeat.go.
pub mod Commands
pub mod Repeat
pub mod Output
pub mod Data
pub mod Schedule
pub mod Poll
pub mod Collect
pub mod Loop
pub mod Stagger
pub mod Fixtures
mod Tests
