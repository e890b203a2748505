-- ===== src/Db.antt =====
-- internal/db: the file tables and the transactions over them.
pub mod Tables
pub mod Tx
pub mod Metas
pub mod Versions
pub mod Renames
