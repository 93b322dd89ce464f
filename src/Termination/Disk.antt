-- ===== src/Termination/Disk.antt =====
-- block.c, csum.c and super.c: the commands that change the disk, the checksums and the free maps
-- end by themselves and keep the transaction and the layout of the image.
use klee_testfs.Common.{ℕ, zero, suc, ◌+◌, ◌≡◌, refl, sym, ◌∙◌, List, ℤ, pos, negsuc, ◌+ℤ◌}
use klee_testfs.Bytes.{Bytes}
use klee_testfs.Bitmap.{Bitmap, Allocation, allocated, no_space, asserted}
use klee_testfs.Machine.{Machine, put, malloc, printf, Output, store, free_inode, Inode, Ptr}
use klee_testfs.Machine.Runs.{
  Runs, reading, mounting, runs_rules, Runs-mounting, since, Runs-since, Runs-with, Runs-malloc,
  Runs-printf, Runs-bind,
}
use klee_testfs.Block.{fwrite_block, fwrite_from, write_blocks, zero_blocks}
use klee_testfs.Csum.{csum_index, put_csum, write_csum, calculate_csum, compare_csum, verify_csum}
use klee_testfs.Super.Freemap.{
  write_freemap, write_inode_freemap, write_block_freemap, set_inode_freemap, set_block_freemap,
  take_block, take_inode, get_block_freemap, put_block_freemap, get_inode_freemap,
  put_inode_freemap, alloc_block, natural, free_block,
}
use klee_testfs.Termination.Reads.{ftell-Runs, fseek-Runs, read_blocks-Runs}

pub store-Runs : (p : Ptr) (i : Inode) → Runs mounting (store p i)
unfolding store mounting
store-Runs p i = record { at = λ m _. record { dsb = refl; tx_in_progress = refl } }

pub free_inode-Runs : (p : Ptr) → Runs mounting (free_inode p)
unfolding free_inode mounting
free_inode-Runs p = record { at = λ m _. record { dsb = refl; tx_in_progress = refl } }

-- A state in place of the one that was read.
pub put-Runs :
    (m n : Machine)
    → n.sb.dsb ≡ m.sb.dsb
    → n.sb.tx_in_progress ≡ m.sb.tx_in_progress
    → Runs (since mounting m) (put n)
unfolding mounting since
put-Runs m n same_dsb same_tx = record {
  at = λ o h. record {
    dsb = same_dsb ∙ sym h.0.dsb;
    tx_in_progress = same_tx ∙ sym h.0.tx_in_progress;
  };
}

pub malloc-Runs : Runs mounting malloc
malloc-Runs = Runs-mounting malloc Runs-malloc

pub printf-Runs : (out : List Output) → Runs mounting (printf out)
printf-Runs out = Runs-mounting (printf out) (Runs-printf out)

fwrite_block-Runs : (b : Bytes) → Runs mounting (fwrite_block b)
unfolding fwrite_block mounting
fwrite_block-Runs b = record { at = λ m _. record { dsb = refl; tx_in_progress = refl } }

fwrite_from-Runs : (buf : Bytes) (i nr : ℕ) → Runs mounting (fwrite_from buf i nr)
unfolding fwrite_from
fwrite_from-Runs buf i zero = search runs_rules
fwrite_from-Runs buf i (suc nr) =
    Runs-bind _ _ (fwrite_block-Runs _) (λ _. fwrite_from-Runs buf (i + 1) nr)

pub write_blocks-Runs :
    (blocks : Bytes) (start : ℤ) (nr : ℕ) → Runs mounting (write_blocks blocks start nr)
unfolding write_blocks
write_blocks-Runs blocks start nr =
    search (runs_rules, fwrite_from-Runs, Runs-mounting, ftell-Runs, fseek-Runs) depth 8

pub zero_blocks-Runs : (start : ℤ) (nr : ℕ) → Runs mounting (zero_blocks start nr)
unfolding zero_blocks
zero_blocks-Runs start zero = search runs_rules
zero_blocks-Runs start (suc nr) =
    Runs-bind _ _ (write_blocks-Runs _ _ _) (λ _. zero_blocks-Runs (start +ℤ pos 1) nr)

csum_index-Runs : (z : ℤ) → Runs reading (csum_index z)
csum_index-Runs (pos n) = search runs_rules
csum_index-Runs (negsuc n) = search runs_rules

pub calculate_csum-Runs : (buf : Bytes) (size : ℕ) → Runs reading (calculate_csum buf size)
unfolding calculate_csum
calculate_csum-Runs buf size = search runs_rules

compare_csum-Runs : (nr : ℤ) (csum stored : ℕ) → Runs reading (compare_csum nr csum stored)
unfolding compare_csum
compare_csum-Runs nr csum stored = search (runs_rules, Runs-printf)

pub verify_csum-Runs : (nr : ℤ) → Runs reading (verify_csum nr)
unfolding verify_csum
verify_csum-Runs nr =
    search (runs_rules, csum_index-Runs, read_blocks-Runs, calculate_csum-Runs, compare_csum-Runs)
      depth 9

write_csum-Runs : (nr : ℕ) → Runs mounting (write_csum nr)
unfolding write_csum
write_csum-Runs nr = search (runs_rules, write_blocks-Runs)

pub put_csum-Runs : (nr : ℤ) (csum : ℕ) → Runs mounting (put_csum nr csum)
unfolding put_csum
put_csum-Runs nr csum =
    search
      (Runs-with, runs_rules, put-Runs, Runs-since, Runs-mounting, csum_index-Runs, write_csum-Runs)
      depth 10

write_inode_freemap-Runs : (nr : ℕ) → Runs mounting (write_inode_freemap nr)
unfolding write_inode_freemap write_freemap
write_inode_freemap-Runs nr = search (runs_rules, write_blocks-Runs)

write_block_freemap-Runs : (nr : ℕ) → Runs mounting (write_block_freemap nr)
unfolding write_block_freemap write_freemap
write_block_freemap-Runs nr = search (runs_rules, write_blocks-Runs)

set_inode_freemap-Runs : (b : Bitmap) → Runs mounting (set_inode_freemap b)
unfolding mounting
set_inode_freemap-Runs b = record { at = λ m _. record { dsb = refl; tx_in_progress = refl } }

set_block_freemap-Runs : (b : Bitmap) → Runs mounting (set_block_freemap b)
unfolding mounting
set_block_freemap-Runs b = record { at = λ m _. record { dsb = refl; tx_in_progress = refl } }

ruleset freemap_rules = (
  runs_rules, write_inode_freemap-Runs, write_block_freemap-Runs, set_inode_freemap-Runs,
  set_block_freemap-Runs,
)

take_block-Runs : (a : Allocation) → Runs mounting (take_block a)
unfolding take_block
take_block-Runs (allocated index b) = search freemap_rules
take_block-Runs no_space = search freemap_rules
take_block-Runs asserted = search freemap_rules

take_inode-Runs : (a : Allocation) → Runs mounting (take_inode a)
unfolding take_inode
take_inode-Runs (allocated index b) = search freemap_rules
take_inode-Runs no_space = search freemap_rules
take_inode-Runs asserted = search freemap_rules

get_block_freemap-Runs : Runs mounting get_block_freemap
unfolding get_block_freemap
get_block_freemap-Runs = search (runs_rules, take_block-Runs)

pub get_inode_freemap-Runs : Runs mounting get_inode_freemap
unfolding get_inode_freemap
get_inode_freemap-Runs = search (runs_rules, take_inode-Runs)

put_block_freemap-Runs : (nr : ℕ) → Runs mounting (put_block_freemap nr)
unfolding put_block_freemap
put_block_freemap-Runs nr = search freemap_rules depth 8

pub put_inode_freemap-Runs : (nr : ℕ) → Runs mounting (put_inode_freemap nr)
unfolding put_inode_freemap
put_inode_freemap-Runs nr = search freemap_rules depth 8

pub alloc_block-Runs : Runs mounting alloc_block
unfolding alloc_block
alloc_block-Runs = search (runs_rules, get_block_freemap-Runs)

natural-Runs : (z : ℤ) → Runs mounting (natural z)
natural-Runs (pos n) = search runs_rules
natural-Runs (negsuc n) = search runs_rules

pub free_block-Runs : (nr : ℤ) → Runs mounting (free_block nr)
unfolding free_block
free_block-Runs nr =
    search (runs_rules, zero_blocks-Runs, natural-Runs, put_block_freemap-Runs) depth 8
