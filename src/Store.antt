-- ===== src/Store.antt =====
-- internal/store/sqlite/store.go
pub mod Db
pub mod Acls
pub mod Directories
pub mod Configs
pub mod Tree
pub mod Atomic
pub mod Reads
pub mod Frames
pub mod Integrity
pub mod Numbers
pub mod Migrations
