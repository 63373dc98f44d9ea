-- ===== src/Fs.antt =====
-- The FAT file system of fs/msdos/fs.c and include/fs/fs.h.
pub mod Layout
pub mod Entry
pub mod Volume
pub mod Directory
pub mod Mount
pub mod Frame
