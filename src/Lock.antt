-- ===== src/Lock.antt =====
-- Advisory locks: internal/lock and the gRPC service over it.
pub mod Manager
pub mod Service
