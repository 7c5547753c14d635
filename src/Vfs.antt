-- ===== src/Vfs.antt =====
-- libs/vfs: the virtual file system.
pub mod HandleTable
