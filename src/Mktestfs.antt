-- ===== src/Mktestfs.antt =====
-- mktestfs.c: an image made, mounted, and given a root directory.
pub mod Laws
pub mod Image
use klee_testfs.Common.{ℤ, pos, not, is_zero, if◌then◌else◌}
use klee_testfs.Machine.{M, exited, pure, ◌>>=◌, ◌>>◌, abort}
use klee_testfs.Super.Mount.{
  make_super_block, make_inode_freemap, make_block_freemap, make_csum_table, make_inode_blocks,
  close_super_block, init_super_block,
}
use klee_testfs.Dir.Create.{make_root_dir}

-- The calls up to the mount: an image with nothing in it.
unfoldable pub make_image : M ℤ
make_image = do
  make_super_block
  make_inode_freemap
  make_block_freemap
  make_csum_table
  make_inode_blocks
  close_super_block
  init_super_block

-- main, with the one argument that it wants.
unfoldable pub mktestfs : M ℤ
mktestfs = do
  ret ← make_image
  if not (is_zero ret) then abort exited else do _ ← make_root_dir; close_super_block; pure (pos 0)
