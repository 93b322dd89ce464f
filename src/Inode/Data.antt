-- ===== src/Inode/Data.antt =====
-- inode.c: the contents of an inode read, written and cut, and inodes created and removed.
-- Offsets and sizes are natural numbers. A sum of them that leaves the range of int is undefined
-- behaviour.
pub mod Laws
pub mod Read
pub mod Memory
pub mod Write
use klee_testfs.Common.{
  ℕ, zero, suc, ◌+◌, ◌-◌, ◌*◌, ◌/◌, ◌%◌, ◌^◌, min, Bool, true, false, not, ◌&&◌, Option, none, some,
  List, [], ◌∷◌, ◌++◌, ℤ, pos, negsuc, ◌+ℤ◌, ◌-ℤ◌, is_neg, is_zero, is_pos, le_int, minus, get_or,
  set, length, slice, splice, ltb, leb, ◌==◌, if◌then◌else◌,
}
use klee_testfs.Bytes.{Bytes, get_int, set_int}
use klee_testfs.Machine.{
  Machine, SuperBlock, Dinode, Inode, Ptr, M, ok, assertion, undefined, out_of_fuel, pure, ◌>>=◌,
  ◌>>◌, abort, get, put, assert, expect, fetch, store, block_size,
}
use klee_testfs.Block.{write_blocks, read_blocks}
use klee_testfs.Csum.{calculate_csum, put_csum}
use klee_testfs.Super.Freemap.{free_block, get_inode_freemap, put_inode_freemap}
use klee_testfs.Inode.Cache.{get_inode, sync_inode, put_inode, zero_dinode}
use klee_testfs.Inode.Blocks.{
  nr_direct_blocks, nr_indirect_blocks, get_block, allocate_block, with_direct, with_indirect,
}

-- DIVROUNDUP(n, BLOCK_SIZE), where n + BLOCK_SIZE may overflow.
abbrev pub blocks_of : ℕ → M ℕ
blocks_of n =
    if leb (2 ^ 31) (n + block_size)
    then abort undefined
    else pure ((n + block_size - 1) / block_size)

-- How much of the `left` bytes one round copies, from `b_offset` in its block.
abbrev pub copy_size : ℕ → ℕ → ℕ
copy_size b_offset left = if leb left (block_size - b_offset) then left else block_size - b_offset

-- The do-while loop of testfs_read_data: `buf` holds what is read, `left` counts what is wanted.
-- Each round but the last copies at least one byte, so `left + 1` rounds are enough.
unfoldable pub read_loop : ℕ → Ptr → ℕ → ℕ → Bytes → ℕ → M (ℤ × Bytes)
read_loop zero p start b_offset buf left = abort out_of_fuel
read_loop (suc fuel) p start b_offset buf left = do
  (block_nr, block) ← get_block p ((start + length buf) / block_size)
  if is_neg block_nr then pure (block_nr, buf) else do
    assert (is_pos block_nr)
    if leb left (block_size - b_offset)
        then pure (pos 0, buf ++ slice b_offset left block)
        else read_loop fuel p start 0 (buf ++ slice b_offset (block_size - b_offset) block)
            (left - (block_size - b_offset))

-- The value that is returned, and what is in the buffer then.
unfoldable pub read_data : Ptr → ℕ → ℕ → M (ℤ × Bytes)
read_data p start size = do
  i ← fetch p
  if leb (2 ^ 31) (start + size) then abort undefined else do
    assert (le_int (pos (start + size)) i.din.i_size)
    read_loop (size + 1) p start (start % block_size) [] size

-- The loop over the direct blocks from `i` on, with `left` rounds to go.
unfoldable pub remove_direct : ℕ → ℕ → Ptr → M (Unit {0})
remove_direct zero i p = pure tt
remove_direct (suc left) i p = do
  inode ← fetch p
  assert (is_pos (get_or inode.din.i_block_nr i (pos 0)))
  _ ← free_block (get_or inode.din.i_block_nr i (pos 0))
  inode ← fetch p
  store p (with_direct inode i (pos 0))
  remove_direct left (i + 1) p

-- The loop over the indirect block, which it returns.
unfoldable pub remove_indirect : ℕ → ℕ → Bytes → M Bytes
remove_indirect zero i block = pure block
remove_indirect (suc left) i block = do
  assert (is_pos (get_int block i))
  _ ← free_block (get_int block i)
  remove_indirect left (i + 1) (set_int block i (pos 0))

-- The part behind the direct blocks, whose numbers count from there.
unfoldable pub truncate_indirect : Ptr → ℕ → ℕ → M (Unit {0})
truncate_indirect p s_block_nr e_block_nr = do
  inode ← fetch p
  assert (is_pos inode.din.i_indirect)
  block ← read_blocks inode.din.i_indirect 1
  block ← remove_indirect (min e_block_nr nr_indirect_blocks - s_block_nr) s_block_nr block
  if s_block_nr == 0
      then (do
        _ ← free_block inode.din.i_indirect
        inode ← fetch p
        store p (with_indirect inode (pos 0)))
      else write_blocks block inode.din.i_indirect 1

abbrev pub with_size : Inode → ℤ → Inode
with_size i n = record i { dirty = true; din = record (i.din) { i_size = n } }

unfoldable pub truncate_from : Ptr → ℕ → ℕ → M (Unit {0})
truncate_from p old size = do
  s_block_nr ← blocks_of size
  e_block_nr ← blocks_of old
  remove_direct (min e_block_nr nr_direct_blocks - s_block_nr) s_block_nr p
  if ltb nr_direct_blocks e_block_nr
      then truncate_indirect p (s_block_nr - nr_direct_blocks) (e_block_nr - nr_direct_blocks)
      else (do inode ← fetch p; assert (is_zero inode.din.i_indirect))
  inode ← fetch p
  store p (with_size inode (pos size))

unfoldable pub truncate_data : Ptr → ℕ → M (Unit {0})
truncate_data p size = do
  i ← fetch p
  elim i.din.i_size [
    | pos old ↦ if leb old size then pure tt else truncate_from p old size
    | negsuc n ↦ pure tt
  ]

-- MAX(a, b)
abbrev pub max_int : ℤ → ℤ → ℤ
max_int a b = if le_int b a then a else b

-- The error path of testfs_write_data, with `done` bytes written. The old size is not negative,
-- since `start <= i_size` holds.
unfoldable pub write_failed : Ptr → ℕ → ℕ → M (Unit {0})
write_failed p start done = do
  i ← fetch p
  store p (with_size i (max_int i.din.i_size (pos (start + done))))
  elim i.din.i_size [ pos old ↦ truncate_data p old | negsuc n ↦ abort assertion ]

-- One round's block with the bytes copied in, written with its checksum.
unfoldable pub write_block : ℤ → Bytes → M (Unit {0})
write_block block_nr block = do
  csum ← calculate_csum block block_size
  write_blocks block block_nr 1
  put_csum block_nr csum

-- The do-while loop of testfs_write_data: `done` bytes are written, `rest` is left of the buffer.
unfoldable pub write_loop : ℕ → Ptr → ℕ → ℕ → ℕ → Bytes → M ℤ
write_loop zero p start b_offset done rest = abort out_of_fuel
write_loop (suc fuel) p start b_offset done rest = do
  (block_nr, block) ← allocate_block p ((start + done) / block_size)
  if is_neg block_nr then write_failed p start done >> pure block_nr else do
    assert (is_pos block_nr)
    let n = copy_size b_offset (length rest)
    write_block block_nr (splice b_offset (slice 0 n rest) block)
    if leb (length rest) (block_size - b_offset)
        then pure (pos 0)
        else write_loop fuel p start 0 (done + n) (slice n (length rest - n) rest)

unfoldable pub write_data : Ptr → ℕ → Bytes → M ℤ
write_data p start buf = do
  i ← fetch p
  assert (le_int (pos start) i.din.i_size)
  ret ← write_loop (length buf + 1) p start (start % block_size) 0 buf
  if is_neg ret then pure ret else do
    i ← fetch p
    store p (with_size i (max_int i.din.i_size (pos (start + length buf))))
    pure (pos 0)

-- The value that is returned, and what is stored through `inp`.
unfoldable pub create_inode : ℕ → M (ℤ × Option Ptr)
create_inode type = do
  inode_nr ← get_inode_freemap
  elim inode_nr [
    | negsuc e ↦ pure (negsuc e, none)
    | pos nr ↦ do
      p ← get_inode nr
      i ← fetch p
      store p (record i { dirty = true; din = record (i.din) { i_type = type } })
      pure (pos 0, some p)
  ]

unfoldable pub remove_inode : Ptr → M (Unit {0})
remove_inode p = do
  truncate_data p 0
  i ← fetch p
  store p (record i { dirty = true; din = zero_dinode })
  put_inode_freemap i.i_nr
  sync_inode p
  put_inode p
