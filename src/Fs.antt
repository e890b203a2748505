-- ===== src/Fs.antt =====
-- internal/fs: project paths, the files below the root, and the names that scans leave out.
pub mod RelPath
pub mod Root
pub mod Disk
pub mod Ignore
