-- ===== src/Inode.antt =====
-- inode.c: inodes in memory (Cache), their blocks (Blocks) and their contents (Data).
pub mod Cache
pub mod Blocks
pub mod Data
