-- ===== src/Fs.antt =====
-- kernel/fs: the MINIX file system on a disk of sectors.
pub mod Disk
pub mod Minix
pub mod Vfs
