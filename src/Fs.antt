-- ===== src/Fs.antt =====
-- File systems, kernel/src/fs: the mounts and the walk along a path, and the archive of the ramdisk.
pub mod Vfs
pub mod Tmpfs
mod Tests
