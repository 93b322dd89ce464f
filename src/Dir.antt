-- ===== src/Dir.antt =====
-- dir.c: entries read (Entry), written and removed (Change), paths and cd (Path), create, mkdir and
-- rm (Create), and pwd, ls, lsr and stat (Listing).
pub mod Entry
pub mod Change
pub mod Path
pub mod Create
pub mod Listing
pub mod Contents
