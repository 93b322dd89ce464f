-- ===== src/Super/Freemap.antt =====
-- super.c: inode and block numbers from the two free maps, each change written through to disk.
pub mod Laws
pub mod Alloc
pub mod Free
use klee_testfs.Common.{
  ℕ, zero, suc, ◌+◌, ◌*◌, ◌/◌, Bool, true, false, Option, none, some, List, [], ◌∷◌, ℤ, pos, negsuc,
  ◌+ℤ◌, ◌-ℤ◌, minus, slice,
}
use klee_testfs.Bytes.{Bytes}
use klee_testfs.Bitmap.{Bitmap, bits_per_word, Allocation, allocated, no_space, asserted}
use klee_testfs.Bitmap
use klee_testfs.Machine.{
  Machine, SuperBlock, M, ok, undefined, assertion, pure, ◌>>=◌, ◌>>◌, abort, get, put, assert,
  expect, block_size, enospc,
}
use klee_testfs.Block.{write_blocks, zero_blocks, zero_block}

-- The one block of a free map that holds the bit `index`.
unfoldable pub write_freemap : Bitmap → ℤ → ℕ → M (Unit {0})
write_freemap freemap start index =
    let nr = index / (block_size * bits_per_word) in
    write_blocks (slice (nr * block_size) block_size freemap.v) (start +ℤ pos nr) 1

unfoldable pub write_inode_freemap : ℕ → M (Unit {0})
write_inode_freemap inode_nr = do
  m ← get
  freemap ← expect assertion m.sb.inode_freemap
  write_freemap freemap m.sb.dsb.inode_freemap_start inode_nr

unfoldable pub write_block_freemap : ℕ → M (Unit {0})
write_block_freemap block_nr = do
  m ← get
  freemap ← expect assertion m.sb.block_freemap
  write_freemap freemap m.sb.dsb.block_freemap_start block_nr

abbrev pub set_inode_freemap : Bitmap → M (Unit {0})
set_inode_freemap b m = ok tt (record m { sb = record (m.sb) { inode_freemap = some b } })

abbrev pub set_block_freemap : Bitmap → M (Unit {0})
set_block_freemap b m = ok tt (record m { sb = record (m.sb) { block_freemap = some b } })

-- What follows bitmap_alloc: the new map kept and written, or the error, or its assertion.
unfoldable pub take_block : Allocation → M ℤ
take_block (allocated index b) = do set_block_freemap b; write_block_freemap index; pure (pos index)
take_block no_space = pure (minus enospc)
take_block asserted = abort assertion

unfoldable pub get_block_freemap : M ℤ
get_block_freemap = do
  m ← get
  freemap ← expect assertion m.sb.block_freemap
  take_block (Bitmap.alloc freemap)

-- u_int32_t index: callers have checked that it is not negative.
unfoldable pub put_block_freemap : ℕ → M (Unit {0})
put_block_freemap block_nr = do
  m ← get
  freemap ← expect assertion m.sb.block_freemap
  freemap ← expect assertion (Bitmap.unmark freemap block_nr)
  set_block_freemap freemap
  write_block_freemap block_nr

unfoldable pub take_inode : Allocation → M ℤ
take_inode (allocated index b) = do set_inode_freemap b; write_inode_freemap index; pure (pos index)
take_inode no_space = pure (minus enospc)
take_inode asserted = abort assertion

unfoldable pub get_inode_freemap : M ℤ
get_inode_freemap = do
  m ← get
  freemap ← expect assertion m.sb.inode_freemap
  take_inode (Bitmap.alloc freemap)

unfoldable pub put_inode_freemap : ℕ → M (Unit {0})
put_inode_freemap inode_nr = do
  m ← get
  freemap ← expect assertion m.sb.inode_freemap
  freemap ← expect assertion (Bitmap.unmark freemap inode_nr)
  set_inode_freemap freemap
  write_inode_freemap inode_nr

-- The number of the new block and the caller's buffer, which is zeroed if there is one.
unfoldable pub alloc_block : M (ℤ × Bytes)
alloc_block = do
  m ← get
  phy_block_nr ← get_block_freemap
  pure (elim phy_block_nr [
    | pos n ↦ (m.sb.dsb.data_blocks_start +ℤ pos n, zero_block)
    | negsuc n ↦ (negsuc n, [])
  ])

-- assert(z >= 0)
abbrev pub natural : ℤ → M ℕ
natural (pos n) = pure n
natural (negsuc n) = abort assertion

unfoldable pub free_block : ℤ → M ℤ
free_block block_nr = do
  zero_blocks block_nr 1
  m ← get
  index ← natural (block_nr -ℤ m.sb.dsb.data_blocks_start)
  put_block_freemap index
  pure (pos 0)
