-- ===== src/Inode/Data/Read.antt =====
-- testfs_read_data within one block of a file.
use klee_testfs.Common.{
  ℕ, suc, ◌+◌, ◌-◌, ◌/◌, ◌%◌, ◌^◌, ◌≤◌, ◌<◌, ◌≡◌, ap, ◌∙◌, true, some, [], ◌++◌, ℤ, pos, is_neg,
  is_pos, le_int, get_elem?, get_or, slice, leb, le→leb, lt→leb, lt→ltb, if◌then◌else◌, arith,
}
use klee_testfs.Bytes.{Bytes}
use klee_testfs.Machine.{Machine, Inode, Ptr, M, ok, pure, abort, undefined, assert, ◌>>=◌, ◌>>◌}
use klee_testfs.Machine.Run.{then_ok, assert_then}
use klee_testfs.Inode.Cache.Laws.{Holds, fetch-ok}
use klee_testfs.Inode.Blocks.{get_block, read_block}
use klee_testfs.Inode.Blocks.Laws.{get_block-direct, read_block-ok}
use klee_testfs.Inode.Data.{read_loop, read_data}

module _ (m : Machine) (p : Ptr) {i : Inode} (holds : Holds m p i) (start size k : ℕ)
    (block : Bytes) where
  abbrev last_round : ℕ → M (ℤ × Bytes)
  last_round nr = do
    (block_nr, block) ← get_block p nr
    if is_neg block_nr then pure (block_nr, []) else do
      assert (is_pos block_nr)
      if leb size (64 - start % 64)
          then pure (pos 0, [] ++ slice (start % 64) size block)
          else read_loop size p start 0 ([] ++ slice (start % 64) (64 - start % 64) block)
              (size - (64 - start % 64))

  -- testfs_read_data of a range that lies within the file and within one of its direct blocks, which
  -- is allocated and on the image, fills the buffer with those bytes of the block, returns 0 and
  -- changes nothing.
  pub read_data_lem :
      start / 64 < 4
      → start % 64 + size ≤ 64
      → le_int (pos (start + size)) i.din.i_size ≡ true
      → get_or i.din.i_block_nr (start / 64) (pos 0) ≡ pos (192 + k)
      → get_elem? m.dev.blocks (192 + k) ≡ some block
      → read_data p start size m ≡ ok (pos 0, slice (start % 64) size block) m
  unfolding read_data read_loop
  read_data_lem direct within inside allocated there =
      then_ok _ (fetch-ok m p holds)
      ∙ ap (λ c. (if c then abort undefined else checked) m)
          (lt→leb (2 ^ 31) (start + size) (omega (arith, direct, within)))
      ∙ assert_then _ m inside
      ∙ ap (λ f. read_loop f p start (start % 64) [] size m) one_more
      ∙ ap (λ n. last_round (n / 64) m) no_more
      ∙ then_ok _ found
      ∙ assert_then _ m (lt→ltb 0 (192 + k) (omega arith))
      ∙ ap (λ c. (if c then pure (pos 0, slice (start % 64) size block) else going_on) m)
          (le→leb size (64 - start % 64) (omega (arith, within)))
    where
      checked : M (ℤ × Bytes)
      checked = do
        assert (le_int (pos (start + size)) i.din.i_size)
        read_loop (size + 1) p start (start % 64) [] size

      going_on : M (ℤ × Bytes)
      going_on =
          read_loop size p start 0 (slice (start % 64) (64 - start % 64) block)
            (size - (64 - start % 64))

      one_more : size + 1 ≡ suc size
      one_more = omega arith

      no_more : start + 0 ≡ start
      no_more = omega arith

      found : get_block p (start / 64) m ≡ ok (pos (192 + k), block) m
      found =
          get_block-direct m p holds (start / 64) direct
          ∙ ap (λ z. read_block z m) allocated
          ∙ read_block-ok k m block there
