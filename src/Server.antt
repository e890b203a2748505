-- ===== src/Server.antt =====
-- internal/server: the gRPC services over the files and their versions.
pub mod Mutations
pub mod Conflicts
pub mod Copies
pub mod Sync
pub mod PathLocker
pub mod VersionService
pub mod Reads
pub mod Builds
pub mod Ranges
pub mod Core
pub mod Tree
mod Examples
