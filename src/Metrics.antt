-- ===== src/Metrics.antt =====
-- What of internal/metrics/ is modelled: how a scrape request selects what it is answered with.
pub mod Targets
pub mod Requests
pub mod Catalogue
pub mod Emit
pub mod Render
pub mod Serve
mod Tests
