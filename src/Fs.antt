-- ===== src/Fs.antt =====
-- src/fs: the read-only archive that is the root file system.
pub mod Tar
