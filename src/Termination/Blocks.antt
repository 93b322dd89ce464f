-- ===== src/Termination/Blocks.antt =====
-- inode.c: testfs_check_inode follows the block numbers of an inode and changes nothing.
use klee_testfs.Common.{ℕ, zero, suc, ◌+◌, ℤ, pos, negsuc, is_zero, get_or}
use klee_testfs.Bitmap.{Bitmap}
use klee_testfs.Machine.{Ptr, Dinode}
use klee_testfs.Machine.Runs.{Runs, reading, runs_rules, Runs-bind, Runs-fetch, Runs-pure, Runs-if}
use klee_testfs.Inode.Blocks.{
  mark_block, check_indirect, check_past_direct, check_direct, check_inode,
}
use klee_testfs.Termination.Reads.{read_blocks-Runs}
use klee_testfs.Termination.Disk.{verify_csum-Runs}
use klee_testfs.Super.Freemap.{natural}
use klee_testfs.Bytes.{Bytes, get_int}

natural-Runs : (z : ℤ) → Runs reading (natural z)
natural-Runs (pos n) = search runs_rules
natural-Runs (negsuc n) = search runs_rules

mark_block-Runs : (nr : ℤ) (b : Bitmap) → Runs reading (mark_block nr b)
unfolding mark_block
mark_block-Runs nr b = search (runs_rules, natural-Runs) depth 8

check_indirect-Runs :
    (left i : ℕ) (block : Bytes) (size : ℕ) (b : Bitmap)
    → Runs reading (check_indirect left i block size b)
unfolding check_indirect
check_indirect-Runs zero i block size b = Runs-pure _
check_indirect-Runs (suc left) i block size b =
    Runs-if (is_zero (get_int block i)) _ _ (λ _. Runs-pure _)
      (λ _. Runs-bind _ _ (mark_block-Runs _ b) (λ b. check_indirect-Runs left (i + 1) block _ b))

check_past_direct-Runs :
    (d : Dinode) (size : ℕ) (b : Bitmap) → Runs reading (check_past_direct d size b)
unfolding check_past_direct
check_past_direct-Runs d size b =
    search (runs_rules, mark_block-Runs, read_blocks-Runs, check_indirect-Runs) depth 8

check_direct-Runs :
    (left i : ℕ) (d : Dinode) (size : ℕ) (b : Bitmap) → Runs reading (check_direct left i d size b)
unfolding check_direct
check_direct-Runs zero i d size b = check_past_direct-Runs d size b
check_direct-Runs (suc left) i d size b =
    Runs-if (is_zero (get_or d.i_block_nr i (pos 0))) _ _ (λ _. Runs-pure _)
      (λ _.
        Runs-bind _ _ (verify_csum-Runs _)
          (λ _. Runs-bind _ _ (mark_block-Runs _ b) (λ b. check_direct-Runs left (i + 1) d _ b)))

pub check_inode-Runs : (b : Bitmap) (p : Ptr) → Runs reading (check_inode b p)
unfolding check_inode
check_inode-Runs b p = Runs-bind _ _ (Runs-fetch p) (λ i. check_direct-Runs _ 0 i.din 0 b)
