-- ===== src/Metrics/Render/Described.antt =====
-- Every sample of the renderers of internal/metrics/collector.go is of a described family.
mod System
mod Hardware
mod Overlay
mod Optics
pub mod Switch
pub mod Scrape
pub use System.*
pub use Hardware.*
pub use Overlay.*
pub use Optics.*
