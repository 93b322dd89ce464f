-- ===== src/Super.antt =====
-- super.c: the free maps and block allocation (Freemap), the making, mounting and closing of a
-- file system (Mount), and checkfs (Check).
pub mod Freemap
pub mod Mount
pub mod Mounted
pub mod Empty
pub mod Check
