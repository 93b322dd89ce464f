-- ===== src/Termination/Inodes.antt =====
-- inode.c: the commands on inodes end by themselves and keep the transaction and the layout of the
-- image.
use klee_testfs.Common.{
  ℕ, zero, suc, ◌+◌, ◌-◌, ◌<◌, ◌≡◌, false, if◌then◌else◌, List, [], ◌∷◌, ℤ, pos, negsuc, slice, leb,
  length, arith,
}
use klee_testfs.Common.{length-slice}
use klee_testfs.Bytes.{Bytes}
use klee_testfs.Machine.{pure, assertion, Ptr, block_size}
use klee_testfs.Machine.Runs.{
  Runs, reading, mounting, runs_rules, Runs-mounting, Runs-with, Runs-bind, Runs-pure, Runs-fetch,
  Runs-option, Runs-int, Runs-assert, Runs-abort,
}
use klee_testfs.Inode.Cache.{
  chain_of, set_chain, find_in, inode_hash_find, inode_hash_insert, inode_hash_remove,
  inode_to_block_nr, read_inode_block, write_inode_block, new_inode, load_inode, get_inode,
  sync_inode, put_inode,
}
use klee_testfs.Inode.Blocks.{allocate_direct, indirect_of, allocate_indirect, allocate_block}
use klee_testfs.Inode.Data.{
  copy_size, remove_direct, remove_indirect, truncate_indirect, truncate_from, truncate_data,
  write_failed, write_block, write_loop, write_data, create_inode, remove_inode,
}
use klee_testfs.Termination.Reads.{
  zero_in_block, in_block, enough, read_blocks-Runs, get_block-Runs,
}
use klee_testfs.Termination.Disk.{
  put-Runs, store-Runs, free_inode-Runs, malloc-Runs, write_blocks-Runs, put_csum-Runs,
  calculate_csum-Runs, get_inode_freemap-Runs, put_inode_freemap-Runs, alloc_block-Runs,
  free_block-Runs,
}

chain_of-Runs : (nr : ℕ) → Runs mounting (chain_of nr)
unfolding chain_of
chain_of-Runs nr = search runs_rules

set_chain-Runs : (nr : ℕ) (chain : List Ptr) → Runs mounting (set_chain nr chain)
unfolding set_chain
set_chain-Runs nr chain = search (Runs-with, runs_rules, put-Runs) depth 8

find_in-Runs : (chain : List Ptr) (nr : ℕ) → Runs mounting (find_in chain nr)
unfolding find_in
find_in-Runs [] nr = search runs_rules
find_in-Runs (p ∷ chain) nr =
    Runs-bind _ _ (Runs-fetch p) (λ i. search (runs_rules, find_in-Runs chain nr))

inode_hash_find-Runs : (nr : ℕ) → Runs mounting (inode_hash_find nr)
unfolding inode_hash_find
inode_hash_find-Runs nr = search (runs_rules, chain_of-Runs, find_in-Runs)

inode_hash_insert-Runs : (p : Ptr) (nr : ℕ) → Runs mounting (inode_hash_insert p nr)
unfolding inode_hash_insert
inode_hash_insert-Runs p nr = search (runs_rules, chain_of-Runs, set_chain-Runs)

inode_hash_remove-Runs : (p : Ptr) (nr : ℕ) → Runs mounting (inode_hash_remove p nr)
unfolding inode_hash_remove
inode_hash_remove-Runs p nr = search (runs_rules, chain_of-Runs, set_chain-Runs)

inode_to_block_nr-Runs : (nr : ℕ) → Runs reading (inode_to_block_nr nr)
unfolding inode_to_block_nr
inode_to_block_nr-Runs nr = search runs_rules

pub read_inode_block-Runs : (nr : ℕ) → Runs reading (read_inode_block nr)
unfolding read_inode_block
read_inode_block-Runs nr = search (runs_rules, inode_to_block_nr-Runs, read_blocks-Runs)

write_inode_block-Runs : (nr : ℕ) (block : Bytes) → Runs mounting (write_inode_block nr block)
unfolding write_inode_block
write_inode_block-Runs nr block =
    search (runs_rules, write_blocks-Runs, Runs-mounting, inode_to_block_nr-Runs) depth 8

new_inode-Runs : (nr : ℕ) → Runs mounting (new_inode nr)
unfolding new_inode
new_inode-Runs nr = search (Runs-with, runs_rules, malloc-Runs, put-Runs) depth 10

load_inode-Runs : (nr : ℕ) → Runs mounting (load_inode nr)
unfolding load_inode
load_inode-Runs nr =
    search
      (
        runs_rules, new_inode-Runs, store-Runs, inode_hash_insert-Runs, Runs-mounting,
        read_inode_block-Runs,
      )
      depth 10

pub get_inode-Runs : (nr : ℕ) → Runs mounting (get_inode nr)
unfolding get_inode
get_inode-Runs nr =
    Runs-bind _ _ (inode_hash_find-Runs nr)
      (λ found. Runs-option found _ _ (load_inode-Runs nr) (λ p. search (runs_rules, store-Runs)))

pub sync_inode-Runs : (p : Ptr) → Runs mounting (sync_inode p)
unfolding sync_inode
sync_inode-Runs p =
    search (runs_rules, store-Runs, write_inode_block-Runs, Runs-mounting, read_inode_block-Runs)
      depth 10

pub put_inode-Runs : (p : Ptr) → Runs mounting (put_inode p)
unfolding put_inode
put_inode-Runs p = search (runs_rules, store-Runs, inode_hash_remove-Runs, free_inode-Runs) depth 10

ruleset block_rules =
    (runs_rules, store-Runs, alloc_block-Runs, write_blocks-Runs, Runs-mounting, read_blocks-Runs)

allocate_direct-Runs : (p : Ptr) (nr : ℕ) → Runs mounting (allocate_direct p nr)
unfolding allocate_direct
allocate_direct-Runs p nr = search block_rules depth 10

indirect_of-Runs : (p : Ptr) → Runs mounting (indirect_of p)
unfolding indirect_of
indirect_of-Runs p = search block_rules depth 12

allocate_indirect-Runs : (p : Ptr) (nr : ℕ) → Runs mounting (allocate_indirect p nr)
unfolding allocate_indirect
allocate_indirect-Runs p nr = search (block_rules, indirect_of-Runs) depth 12

pub allocate_block-Runs : (p : Ptr) (nr : ℕ) → Runs mounting (allocate_block p nr)
unfolding allocate_block
allocate_block-Runs p nr =
    search (runs_rules, allocate_direct-Runs, allocate_indirect-Runs, Runs-mounting, get_block-Runs)
      depth 10

pub write_block-Runs : (nr : ℤ) (block : Bytes) → Runs mounting (write_block nr block)
unfolding write_block
write_block-Runs nr block =
    search (runs_rules, write_blocks-Runs, put_csum-Runs, Runs-mounting, calculate_csum-Runs) depth
      8

remove_direct-Runs : (left i : ℕ) (p : Ptr) → Runs mounting (remove_direct left i p)
unfolding remove_direct
remove_direct-Runs zero i p = search runs_rules
remove_direct-Runs (suc left) i p = Runs-bind _ _ (Runs-fetch p) (λ inode.
    Runs-bind _ _ (Runs-assert _) (λ _. Runs-bind _ _ (free_block-Runs _) (λ _.
      Runs-bind _ _ (Runs-fetch p)
        (λ inode. Runs-bind _ _ (store-Runs p _) (λ _. remove_direct-Runs left (i + 1) p)))))

remove_indirect-Runs : (left i : ℕ) (block : Bytes) → Runs mounting (remove_indirect left i block)
unfolding remove_indirect
remove_indirect-Runs zero i block = search runs_rules
remove_indirect-Runs (suc left) i block =
    Runs-bind _ _ (Runs-assert _)
      (λ _. Runs-bind _ _ (free_block-Runs _) (λ _. remove_indirect-Runs left (i + 1) _))

truncate_indirect-Runs : (p : Ptr) (s e : ℕ) → Runs mounting (truncate_indirect p s e)
unfolding truncate_indirect
truncate_indirect-Runs p s e = search (block_rules, free_block-Runs, remove_indirect-Runs) depth 14

truncate_from-Runs : (p : Ptr) (old size : ℕ) → Runs mounting (truncate_from p old size)
unfolding truncate_from
truncate_from-Runs p old size =
    search (runs_rules, remove_direct-Runs, truncate_indirect-Runs, store-Runs) depth 12

truncate_size-Runs :
    (p : Ptr) (size : ℕ) (z : ℤ)
    → Runs mounting (elim z [
      | pos old ↦ if leb old size then pure tt else truncate_from p old size
      | negsuc n ↦ pure tt
    ])
truncate_size-Runs p size (pos old) = search (runs_rules, truncate_from-Runs)
truncate_size-Runs p size (negsuc n) = search runs_rules

pub truncate_data-Runs : (p : Ptr) (size : ℕ) → Runs mounting (truncate_data p size)
unfolding truncate_data
truncate_data-Runs p size =
    Runs-bind _ _ (Runs-fetch p) (λ i. truncate_size-Runs p size i.din.i_size)

write_failed-Runs : (p : Ptr) (start done : ℕ) → Runs mounting (write_failed p start done)
unfolding write_failed
write_failed-Runs p start done = Runs-bind _ _ (Runs-fetch p) (λ i.
    Runs-bind _ _ (store-Runs p _)
      (λ _. Runs-int i.din.i_size _ _ (λ n. truncate_data-Runs p n) (λ n. Runs-abort assertion tt)))

write_left_after :
    (fuel b_offset : ℕ) (rest : Bytes)
    → leb (length rest) (block_size - b_offset) ≡ false
    → length rest < suc fuel
    → b_offset < block_size
    → length (
        slice
          (copy_size b_offset (length rest))
          (length rest - copy_size b_offset (length rest))
          rest)
      < fuel
write_left_after fuel b_offset rest long h hb = ground (
  arith,
  length-slice (copy_size b_offset (length rest)) (length rest - copy_size b_offset (length rest))
      rest,
)

write_loop-Runs :
    (fuel : ℕ) (p : Ptr) (start b_offset done : ℕ) (rest : Bytes)
    → length rest < fuel
    → b_offset < block_size
    → Runs mounting (write_loop fuel p start b_offset done rest)
unfolding write_loop
write_loop-Runs zero p start b_offset done rest h hb = ground arith
write_loop-Runs (suc fuel) p start b_offset done rest h hb =
    search
      (
        runs_rules,
        allocate_block-Runs,
        write_failed-Runs,
        write_block-Runs,
        write_loop-Runs fuel,
        write_left_after,
        zero_in_block,
      )
      depth 12

pub write_data-Runs : (p : Ptr) (start : ℕ) (buf : Bytes) → Runs mounting (write_data p start buf)
unfolding write_data
write_data-Runs p start buf =
    search (runs_rules, write_loop-Runs, store-Runs, enough, in_block) depth 12

pub create_inode-Runs : (type : ℕ) → Runs mounting (create_inode type)
unfolding create_inode
create_inode-Runs type = Runs-bind _ _ get_inode_freemap-Runs (λ inode_nr.
    Runs-int inode_nr _ _ (λ nr. search (runs_rules, get_inode-Runs, store-Runs) depth 8)
      (λ e. Runs-pure _))

pub remove_inode-Runs : (p : Ptr) → Runs mounting (remove_inode p)
unfolding remove_inode
remove_inode-Runs p =
    search
      (
        runs_rules, truncate_data-Runs, store-Runs, put_inode_freemap-Runs, sync_inode-Runs,
        put_inode-Runs,
      )
      depth 12
