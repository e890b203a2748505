-- ===== src/Cleanup.antt =====
-- Cleanups in the background: internal/cleanup and the janitors of internal/serverapp.
pub mod Runner
pub mod Janitors
