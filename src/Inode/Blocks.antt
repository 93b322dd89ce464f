-- ===== src/Inode/Blocks.antt =====
-- inode.c: the blocks of an inode, four direct ones and sixteen through an indirect block.
pub mod Laws
use klee_testfs.Common.{
  ℕ, zero, suc, ◌+◌, ◌-◌, ◌*◌, ◌/◌, ◌%◌, Bool, true, false, not, ◌&&◌, List, [], ◌∷◌, ℤ, pos,
  negsuc, ◌+ℤ◌, ◌-ℤ◌, is_neg, is_zero, is_pos, minus, get_or, set, ltb, leb, ◌==◌, if◌then◌else◌,
}
use klee_testfs.Bytes.{Bytes, get_int, set_int}
use klee_testfs.Bitmap.{Bitmap}
use klee_testfs.Bitmap
use klee_testfs.Machine.{
  Machine, SuperBlock, Dinode, Inode, Ptr, M, ok, assertion, pure, ◌>>=◌, ◌>>◌, abort, get, put,
  assert, expect, fetch, store, block_size, efbig,
}
use klee_testfs.Block.{write_blocks, read_blocks}
use klee_testfs.Csum.{verify_csum}
use klee_testfs.Super.Freemap.{alloc_block, free_block, natural}

abbrev pub nr_direct_blocks : ℕ
nr_direct_blocks = 4

-- BLOCK_SIZE / sizeof(int)
abbrev pub nr_indirect_blocks : ℕ
nr_indirect_blocks = block_size / 4

-- The label read_block: the physical number, and the block itself if there is one.
unfoldable pub read_block : ℤ → M (ℤ × Bytes)
read_block phy_block_nr =
    if is_pos phy_block_nr
    then (do block ← read_blocks phy_block_nr 1; pure (phy_block_nr, block))
    else pure (phy_block_nr, [])

-- Past the direct blocks; the number counts from there.
unfoldable pub get_indirect_block : Inode → ℕ → M (ℤ × Bytes)
get_indirect_block i log_block_nr =
    if leb nr_indirect_blocks log_block_nr
    then pure (minus efbig, [])
    else if is_zero i.din.i_indirect
    then pure (pos 0, [])
    else (do block ← read_blocks i.din.i_indirect 1; read_block (get_int block log_block_nr))

unfoldable pub get_block : Ptr → ℕ → M (ℤ × Bytes)
get_block p log_block_nr = do
  i ← fetch p
  if ltb log_block_nr nr_direct_blocks
      then read_block (get_or i.din.i_block_nr log_block_nr (pos 0))
      else get_indirect_block i (log_block_nr - nr_direct_blocks)

-- in->in.i_block_nr[log] = phy, and the inode is dirty.
abbrev pub with_direct : Inode → ℕ → ℤ → Inode
with_direct i log phy = record i {
  dirty = true;
  din = record (i.din) { i_block_nr = set i.din.i_block_nr log phy };
}

abbrev pub with_indirect : Inode → ℤ → Inode
with_indirect i phy = record i { dirty = true; din = record (i.din) { i_indirect = phy } }

unfoldable pub allocate_direct : Ptr → ℕ → M (ℤ × Bytes)
allocate_direct p log_block_nr = do
  (phy_block_nr, block) ← alloc_block
  if is_neg phy_block_nr then pure (phy_block_nr, block) else do
    i ← fetch p
    store p (with_direct i log_block_nr phy_block_nr)
    pure (phy_block_nr, block)

-- The indirect block of the inode, new or read: a negative number is an error.
unfoldable pub indirect_of : Ptr → M (ℤ × Bytes)
indirect_of p = do
  i ← fetch p
  if is_zero i.din.i_indirect
      then (do
        (phy_block_nr, indirect) ← alloc_block
        if is_neg phy_block_nr then pure (phy_block_nr, indirect) else do
          i ← fetch p
          store p (with_indirect i phy_block_nr)
          pure (phy_block_nr, indirect))
      else (do indirect ← read_blocks i.din.i_indirect 1; pure (pos 0, indirect))

-- Past the direct blocks; the number counts from there.
unfoldable pub allocate_indirect : Ptr → ℕ → M (ℤ × Bytes)
allocate_indirect p log_block_nr = do
  assert (ltb log_block_nr nr_indirect_blocks)
  (found, indirect) ← indirect_of p
  if is_neg found then pure (found, []) else do
    (phy_block_nr, block) ← alloc_block
    i ← fetch p
    write_blocks
        (if is_pos phy_block_nr then set_int indirect log_block_nr phy_block_nr else indirect)
        i.din.i_indirect 1
    pure (phy_block_nr, block)

unfoldable pub allocate_block : Ptr → ℕ → M (ℤ × Bytes)
allocate_block p log_block_nr = do
  (phy_block_nr, block) ← get_block p log_block_nr
  if not (is_zero phy_block_nr)
      then pure (phy_block_nr, block)
      else if ltb log_block_nr nr_direct_blocks
      then allocate_direct p log_block_nr
      else allocate_indirect p (log_block_nr - nr_direct_blocks)

-- bitmap_mark(b_freemap, block_nr - data_blocks_start); a negative index fails its assertion too.
unfoldable pub mark_block : ℤ → Bitmap → M Bitmap
mark_block block_nr b_freemap = do
  m ← get
  index ← natural (block_nr -ℤ m.sb.dsb.data_blocks_start)
  expect assertion (Bitmap.mark b_freemap index)

-- The loop of testfs_check_inode over the indirect block, with `left` rounds to go.
unfoldable pub check_indirect : ℕ → ℕ → Bytes → ℕ → Bitmap → M (ℕ × Bitmap)
check_indirect zero i block size b_freemap = pure (size, b_freemap)
check_indirect (suc left) i block size b_freemap =
    if is_zero (get_int block i) then pure (size, b_freemap) else do
      b_freemap ← mark_block (get_int block i) b_freemap
      check_indirect left (i + 1) block (size + block_size) b_freemap

unfoldable pub check_past_direct : Dinode → ℕ → Bitmap → M (ℕ × Bitmap)
check_past_direct d size b_freemap = if is_zero d.i_indirect then pure (size, b_freemap) else do
  b_freemap ← mark_block d.i_indirect b_freemap
  block ← read_blocks d.i_indirect 1
  check_indirect nr_indirect_blocks 0 block size b_freemap

-- The loop over the direct blocks, with `left` rounds to go, and what follows it.
unfoldable pub check_direct : ℕ → ℕ → Dinode → ℕ → Bitmap → M (ℕ × Bitmap)
check_direct zero i d size b_freemap = check_past_direct d size b_freemap
check_direct (suc left) i d size b_freemap =
    if is_zero (get_or d.i_block_nr i (pos 0)) then pure (size, b_freemap) else do
      _ ← verify_csum (get_or d.i_block_nr i (pos 0))
      b_freemap ← mark_block (get_or d.i_block_nr i (pos 0)) b_freemap
      check_direct left (i + 1) d (size + block_size) b_freemap

-- The size that is returned, and the map as it is marked.
unfoldable pub check_inode : Bitmap → Ptr → M (ℕ × Bitmap)
check_inode b_freemap p = do i ← fetch p; check_direct nr_direct_blocks 0 i.din 0 b_freemap
