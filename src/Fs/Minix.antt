-- ===== src/Fs/Minix.antt =====
-- kernel/fs/minix: the bitmaps, inodes, directories and files.
pub mod Bitmaps
pub mod Inodes
pub mod Alloc
pub mod Layout
pub mod Path
pub mod Entries
pub mod Edit
pub mod RootNames
pub mod Lookup
pub mod Files
pub mod Create
pub mod CreateFile
pub mod Delete
pub mod DeleteFile
pub mod Written
pub mod WriteRead
pub mod Parts
pub mod Walk
pub mod Dirs
pub mod Moves
pub mod Rename
pub mod Super
pub mod Mount
