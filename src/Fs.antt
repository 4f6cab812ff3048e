-- ===== src/Fs.antt =====
-- kernel/fs: paths, and the virtual file system.
pub mod Path
pub mod Vfs
