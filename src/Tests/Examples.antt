-- ===== src/Tests/Examples.antt =====
-- The theorems at concrete inputs: the small file system of Mounted, and single values.
use Prim.Native.Nat.{max}
use klee_testfs.Common.{
  none, ◌∷◌, ℕ, ◌+◌, ◌≤◌, ◌<◌, ◌≡◌, ◌≢◌, ◌⊎◌, ◌↔◌, refl, true, false, some, [], pos, minus,
  replicate, length, get_elem?, slice, if◌then◌else◌, ◌==◌, arith,
}
use klee_testfs.Bytes.{Bytes, get_word}
use klee_testfs.Bitmap.{Bitmap, create, mark, unmark, isset, equal, alloc, nr_allocated}
use klee_testfs.Bitmap.Laws.{IsValid, mark_lem, unmark_lem, unmark-mark}
use klee_testfs.Bitmap.Alloc.{Allocates, alloc-Allocates, nr_allocated-alloc}
use klee_testfs.Bitmap.Create.{create_lem, equal_lem}
use klee_testfs.Machine.{
  exited, Machine, ok, stop, assertion, ◌>>◌, enospc, einval, tx_write, tx_rm,
}
use klee_testfs.Block.{zero_block, read_blocks, write_blocks, zero_blocks}
use klee_testfs.Block.Laws.{read-write, zero_blocks-zero}
use klee_testfs.Tx.{tx_start, tx_commit}
use klee_testfs.Tx.Laws.{tx_start-tx_commit}
use klee_testfs.Csum.{put_csum, verify_csum}
use klee_testfs.Csum.Laws.{verify_csum-damaged, complained}
use klee_testfs.Csum.Put.{put_csum_lem}
use klee_testfs.Super.Freemap.{alloc_block, free_block, get_inode_freemap}
use klee_testfs.Super.Freemap.Alloc.{NewBlock, alloc_block_lem, get_inode_freemap_lem}
use klee_testfs.Super.Freemap.Free.{free_block_lem, alloc_block-free_block}
use klee_testfs.Super.Mounted.{Mounted}
use klee_testfs.Inode.Cache.{
  decode_dinode, get_inode, put_inode, sync_inode, read_inode_block, inode_to_block_offset,
}
use klee_testfs.Inode.Cache.Laws.{put_inode-get_inode, Holds, with_inode}
use klee_testfs.Inode.Cache.Sync.{sync_inode_lem}
use klee_testfs.Inode.Blocks.{get_block, allocate_block, with_direct}
use klee_testfs.Inode.Blocks.Laws.{allocate_block_lem}
use klee_testfs.Inode.Data.{write_block, read_data, write_data, with_size, max_int}
use klee_testfs.Bytes.Laws.{IsBytes-zeros}
use klee_testfs.Inode.Data.Write.{write_data-read_data}
use klee_testfs.Inode.Data.Read.{read_data_lem}
use klee_testfs.Inode.Data.Laws.{write_block_lem}
use klee_testfs.Tests.Mounted.{
  inode_map, block_map, table, file_dinode, dirty_file, short_file, mounted, five, five_used,
  five-IsValid, five_used-IsValid, five_next, damaged, damaged_block, damaged-Mounted,
  damaged_there, stored_zero, first_word_differs, other_words_same, first_used, second_clear,
  block_of_sevens-IsBytes, file_dinode-IsDinode, clean_file_found, block_map-IsValid,
  mounted-Mounted,
}

alloc_block_example :
    ((k : ℕ) × (n : Machine) × (alloc_block mounted ≡ ok (pos (192 + k), zero_block) n)
      × NewBlock mounted-Mounted k n)
    ⊎ ((alloc_block mounted ≡ ok (minus enospc, []) mounted)
        × ((j : ℕ) → j < 1024 → isset block_map j ≡ true))
alloc_block_example = alloc_block_lem mounted-Mounted

get_inode_freemap_example :
    ((k : ℕ) × (n : Machine) × (b : Bitmap) × (get_inode_freemap mounted ≡ ok (pos k) n)
      × (k < 512)
      × (isset inode_map k ≡ false)
      × ((j : ℕ) → j < k → isset inode_map j ≡ true)
      × Mounted n b block_map table
      × ((j : ℕ) → isset b j ≡ (if k == j then true else isset inode_map j)))
    ⊎ ((get_inode_freemap mounted ≡ ok (minus enospc) mounted)
        × ((j : ℕ) → j < 512 → isset inode_map j ≡ true))
get_inode_freemap_example = get_inode_freemap_lem mounted-Mounted

free_block_example :
    (n : Machine) × (b : Bitmap) × (free_block (pos (192 + 0)) mounted ≡ ok (pos 0) n)
    × Mounted n inode_map b table
    × ((j : ℕ) → isset b j ≡ (if 0 == j then false else isset block_map j))
    × (get_elem? n.dev.blocks (192 + 0) ≡ some zero_block)
    × ((j : ℕ)
        → 64 ≤ j
        → 192 + 0 ≢ j
        → j < length mounted.dev.blocks
        → get_elem? n.dev.blocks j ≡ get_elem? mounted.dev.blocks j)
free_block_example = free_block_lem mounted-Mounted 0 (omega arith) first_used

alloc_block-free_block_example :
    (k : ℕ) × (n : Machine) × (o : Machine) × (alloc_block mounted
      ≡ ok (pos (192 + k), zero_block) n)
    × (free_block (pos (192 + k)) n ≡ ok (pos 0) o)
    × Mounted o inode_map block_map table
alloc_block-free_block_example = alloc_block-free_block mounted-Mounted 1 (omega arith) second_clear

put_csum_example :
    (n : Machine) × (t : Bytes) × (put_csum (pos (192 + 3)) 5 mounted ≡ ok tt n)
    × Mounted n inode_map block_map t
    × (get_word t 3 ≡ 5)
    × ((j : ℕ) → j ≢ 3 → get_word t j ≡ get_word table j)
    × ((j : ℕ)
        → 64 ≤ j
        → j < length mounted.dev.blocks
        → get_elem? n.dev.blocks j ≡ get_elem? mounted.dev.blocks j)
    × (n.heap ≡ mounted.heap)
put_csum_example = put_csum_lem mounted-Mounted 3 5 (omega arith) (omega arith)

verify_csum-damaged_example :
    verify_csum (pos (192 + 0)) damaged ≡ ok (minus einval) (complained damaged (192 + 0))
verify_csum-damaged_example =
    verify_csum-damaged damaged-Mounted 0 damaged_block zero_block 0 (omega arith) damaged_there
      stored_zero (omega arith) first_word_differs other_words_same

write_block_example :
    (n : Machine) × (t : Bytes) × (write_block (pos (192 + 2)) (replicate 64 7) mounted ≡ ok tt n)
    × Mounted n inode_map block_map t
    × (verify_csum (pos (192 + 2)) n ≡ ok (pos 0) n)
    × (read_blocks (pos (192 + 2)) 1 n ≡ ok (replicate 64 7) n)
    × ((j : ℕ) → j ≢ 2 → get_word t j ≡ get_word table j)
    × ((j : ℕ)
        → 64 ≤ j
        → j < length mounted.dev.blocks
        → j ≢ 192 + 2
        → get_elem? n.dev.blocks j ≡ get_elem? mounted.dev.blocks j)
    × (get_elem? n.dev.blocks (192 + 2) ≡ some (replicate 64 7))
    × (n.heap ≡ mounted.heap)
write_block_example =
    write_block_lem mounted-Mounted 2 (omega arith) (replicate 64 7) refl block_of_sevens-IsBytes

allocate_block_example :
    ((k : ℕ) × (n : Machine) × (o : Machine) × NewBlock mounted-Mounted k n
      × (allocate_block 0 2 mounted ≡ ok (pos (192 + k), zero_block) o)
      × (o ≡ with_inode n 0 (with_direct dirty_file 2 (pos (192 + k))))
      × ((b : Bytes)
          → get_elem? o.dev.blocks (192 + k) ≡ some b
          → get_block 0 2 o ≡ ok (pos (192 + k), b) o)
      × (get_elem? o.dev.blocks (192 + k) ≡ none → get_block 0 2 o ≡ stop exited))
    ⊎ ((allocate_block 0 2 mounted ≡ ok (minus enospc, []) mounted)
        × ((j : ℕ) → j < 1024 → isset block_map j ≡ true))
allocate_block_example = allocate_block_lem mounted-Mounted 0 refl 2 (omega arith) refl refl

sync_inode_example :
    (n : Machine) × (c : Bytes) × (sync_inode 0 mounted ≡ ok tt n)
    × Holds n 0 (record dirty_file { dirty = false })
    × (read_inode_block 0 n ≡ ok c n)
    × (decode_dinode (slice (inode_to_block_offset 0) 32 c) ≡ file_dinode)
sync_inode_example =
    sync_inode_lem mounted-Mounted 0 refl (omega arith) refl file_dinode-IsDinode refl

put_inode-get_inode_example :
    (n : Machine) × (get_inode 1 mounted ≡ ok 1 n) × (put_inode 1 n ≡ ok tt mounted)
put_inode-get_inode_example = put_inode-get_inode 1 clean_file_found refl refl (omega arith)

tx_start-tx_commit_example :
    ((tx_start tx_write >> tx_commit tx_rm) mounted ≡ stop assertion)
    × ((tx_start tx_write >> tx_start tx_rm) mounted ≡ stop assertion)
tx_start-tx_commit_example =
    tx_start-tx_commit mounted refl tx_write tx_rm (λ e. absurd (cc)) (λ e. absurd (cc))

alloc-Allocates_example : Allocates block_map (alloc block_map)
alloc-Allocates_example = alloc-Allocates block_map-IsValid

nr_allocated-alloc_example : nr_allocated five_used ≡ nr_allocated five + 1
nr_allocated-alloc_example = nr_allocated-alloc 1 five_used five-IsValid five_next

create_lem_example :
    (b : Bitmap) × (create 13 ≡ some b)
    × (b.nbits ≡ 13)
    × IsValid b
    × ((i : ℕ) → i < 13 → isset b i ≡ false)
create_lem_example = create_lem 13 (omega arith)

equal_lem_example :
    (equal five five_used ≡ true)
    ↔ ((five.nbits ≡ five_used.nbits) × ((j : ℕ) → j < 8 → isset five j ≡ isset five_used j))
equal_lem_example = equal_lem five-IsValid five_used-IsValid

mark_lem_example :
    (b' : Bitmap) × (mark block_map 1 ≡ some b')
    × (b'.nbits ≡ 1024)
    × IsValid b'
    × ((j : ℕ) → isset b' j ≡ (if 1 == j then true else isset block_map j))
mark_lem_example = mark_lem block_map-IsValid 1 (omega arith) second_clear

unmark_lem_example :
    (b' : Bitmap) × (unmark block_map 0 ≡ some b')
    × (b'.nbits ≡ 1024)
    × IsValid b'
    × ((j : ℕ) → isset b' j ≡ (if 0 == j then false else isset block_map j))
unmark_lem_example = unmark_lem block_map-IsValid 0 (omega arith) first_used

unmark-mark_example : (b' : Bitmap) × (mark block_map 1 ≡ some b') × (unmark b' 1 ≡ some block_map)
unmark-mark_example = unmark-mark block_map-IsValid 1 (omega arith) second_clear

read-write_example :
    (n : Machine) × (write_blocks damaged_block (pos 3) 1 mounted ≡ ok tt n)
    × (n.dev.position ≡ 0)
    × (read_blocks (pos 3) 1 n ≡ ok damaged_block n)
    × (get_elem? n.dev.blocks 2 ≡ get_elem? mounted.dev.blocks 2)
read-write_example = read-write damaged_block 3 2 mounted refl (omega arith) (omega arith)

zero_blocks-zero_example :
    (n : Machine) × (zero_blocks (pos 2) 3 mounted ≡ ok tt n)
    × ((j : ℕ) → 2 ≤ j → j < 5 → get_elem? n.dev.blocks j ≡ some zero_block)
    × ((j : ℕ)
        → (j < 2) ⊎ (5 ≤ j)
        → j < length mounted.dev.blocks
        → get_elem? n.dev.blocks j ≡ get_elem? mounted.dev.blocks j)
    × (length n.dev.blocks ≤ max (length mounted.dev.blocks) 5)
zero_blocks-zero_example = zero_blocks-zero 2 3 mounted

read_data_example : read_data 2 3 5 mounted ≡ ok (pos 0, slice 3 5 zero_block) mounted
read_data_example =
    read_data_lem mounted 2 refl 3 5 0 zero_block (omega arith) (omega arith) refl refl refl

write_data-read_data_example :
    (n : Machine) × (t : Bytes) × (o : Machine) × Mounted n inode_map block_map t
    × (write_data 2 9 (7 ∷ 8 ∷ []) mounted ≡ ok (pos 0) o)
    × (o ≡ with_inode n 2 (with_size short_file (max_int (pos 10) (pos 11))))
    × (read_data 2 9 2 o ≡ ok (pos 0, 7 ∷ 8 ∷ []) o)
write_data-read_data_example =
    write_data-read_data mounted-Mounted 2 refl 9 0 (7 ∷ 8 ∷ []) zero_block (omega arith)
      (omega arith) refl refl (omega arith) refl (omega arith, (omega arith, tt)) (IsBytes-zeros 64)
