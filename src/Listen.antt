-- ===== src/Listen.antt =====
-- The HTTP server's own side, internal/listen/: who may scrape, and the server's certificate.
pub mod Auth
pub mod Certificate
