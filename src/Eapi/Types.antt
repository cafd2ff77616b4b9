-- ===== src/Eapi/Types.antt =====
-- The JSON documents of eAPI: internal/eapi/types.go, overlay.go and optics.go.
pub mod System
pub mod Environment
pub mod Interfaces
pub mod Overlay
pub mod Optics
