-- ===== src/Fs.antt =====
-- The FUSE file system of internal/fs/fs.go.
pub mod Bytes
pub mod Index
pub mod Snapshot
pub mod Nodes
pub mod MountPoint
pub mod Inodes
