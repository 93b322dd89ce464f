-- ===== src/Super/Freemap/Free.antt =====
-- testfs_free_block on a mounted file system, and the allocation that it undoes.
use klee_testfs.Common.{
  Bool-cases, leb, leb→le, ℕ, ◌+◌, ◌/◌, ◌≤◌, ◌<◌, ◌≡◌, ◌≢◌, ◌⊎◌, inl, inr, refl, ap, subst, ◌∙◌,
  true, false, some, [], ℤ, pos, ◌-ℤ◌, minus, get_elem?, length, arith, if◌then◌else◌, ◌==◌, sub_ℕ,
}
use klee_testfs.Bytes.{Bytes}
use klee_testfs.Bitmap.{Bitmap, isset}
use klee_testfs.Bitmap.Laws.{
  marked, unmarked, unmark-eq, unmarked-IsValid, isset-clear_bit, index_inside, unmarked-marked,
}
use klee_testfs.Machine.{Machine, M, ok, and_then, pure, ◌>>◌, assertion, enospc}
use klee_testfs.Machine.Run.{then_ok, expect_then}
use klee_testfs.Block.{zero_block}
use klee_testfs.Block.Laws.{
  written, zero_one, get_elem?-put_block_self, get_elem?-put_block_ne, length-put_block_le,
  length-put_block,
}
use klee_testfs.Super.Freemap.{put_block_freemap, alloc_block, free_block, natural}
use klee_testfs.Super.Freemap.Laws.{
  slice-put_byte, blocks_stored, write_block_freemap-ok, data-Mounted, blocks_stored-Mounted,
}
use klee_testfs.Super.Freemap.Alloc.{NewBlock, alloc_block_lem}
use klee_testfs.Super.Mounted.{Mounted}

pub sub_ℕ-add : (s n : ℕ) → sub_ℕ (s + n) s ≡ pos n
sub_ℕ-add s n = ground arith

-- The number of a data block within the maps.
pub data_index : (z : ℤ) (n : ℕ) → z ≡ pos 192 → (pos (192 + n) -ℤ z) ≡ pos n
data_index z n e = ap (λ i. pos (192 + n) -ℤ i) e ∙ sub_ℕ-add 192 n

-- Where the writes of a free go: the block itself, and the block of the map.
abbrev freed : Machine → Bitmap → ℕ → Machine
freed m b k = blocks_stored (written m (192 + k) zero_block) b k

-- What follows the assertion on the index.
abbrev give_back : ℕ → M ℤ
give_back index = put_block_freemap index >> pure (pos 0)

module _ {m : Machine} {inodes blocks : Bitmap} {table : Bytes} (is : Mounted m inodes blocks table)
    (k : ℕ) (inside : k < 1024) where
  in_map : k < blocks.nbits
  in_map = omega (arith, is.nr_blocks)

  length-unmarked : length (unmarked blocks k).v ≡ 128
  length-unmarked =
      let v = unmarked-IsValid is.blocks_valid k in_map in omega (arith, v.words, is.nr_blocks)

  zeroed : Mounted (written m (192 + k) zero_block) inodes blocks table
  zeroed = data-Mounted is (192 + k) zero_block (omega arith) refl

  freed-Mounted : Mounted (freed m (unmarked blocks k) k) inodes (unmarked blocks k) table
  freed-Mounted =
      blocks_stored-Mounted zeroed (unmarked blocks k) k inside
        (unmarked-IsValid is.blocks_valid k in_map) is.nr_blocks
        (λ j ne. slice-put_byte blocks k j _ ne)

  put_block_freemap-ok :
      isset blocks k ≡ true
      → put_block_freemap k (written m (192 + k) zero_block) ≡ ok tt (freed m (unmarked blocks k) k)
  unfolding put_block_freemap
  put_block_freemap-ok used =
      expect_then assertion _ _ is.block_freemap
      ∙ expect_then assertion _ _ (unmark-eq is.blocks_valid k in_map used)
      ∙ write_block_freemap-ok zeroed (unmarked blocks k) k inside length-unmarked

  pub free_block-ok :
      isset blocks k ≡ true
      → free_block (pos (192 + k)) m ≡ ok (pos 0) (freed m (unmarked blocks k) k)
  unfolding free_block
  free_block-ok used =
      then_ok _ (zero_one (192 + k) m)
      ∙ ap (λ z. and_then (natural z (written m (192 + k) zero_block)) give_back)
          (data_index _ k is.data_blocks_start)
      ∙ then_ok (λ _. pure (pos 0)) (put_block_freemap-ok used)

  -- testfs_free_block of a block in use on a mounted file system returns 0: it zeroes the block,
  -- clears its bit in memory and on disk, and changes no other bit and no other block past the
  -- tables.
  pub free_block_lem :
      isset blocks k ≡ true
      → (n : Machine) × (b : Bitmap) × (free_block (pos (192 + k)) m ≡ ok (pos 0) n)
        × Mounted n inodes b table
        × ((j : ℕ) → isset b j ≡ (if k == j then false else isset blocks j))
        × (get_elem? n.dev.blocks (192 + k) ≡ some zero_block)
        × ((j : ℕ)
            → 64 ≤ j
            → 192 + k ≢ j
            → j < length m.dev.blocks
            → get_elem? n.dev.blocks j ≡ get_elem? m.dev.blocks j)
  free_block_lem used = (
    freed m (unmarked blocks k) k,
    unmarked blocks k,
    free_block-ok used,
    freed-Mounted,
    isset-clear_bit blocks is.blocks_valid.bytes k (index_inside is.blocks_valid k in_map),
    map_write (192 + k) (omega arith) (length-put_block m.dev.blocks (192 + k) zero_block)
        ∙ get_elem?-put_block_self m.dev.blocks (192 + k) zero_block,
    λ j lo ne hj.
        map_write j lo (omega (arith, length-put_block_le m.dev.blocks (192 + k) zero_block))
        ∙ get_elem?-put_block_ne m.dev.blocks (192 + k) j zero_block ne hj,
  )
    where
      map_write :
          (j : ℕ)
          → 64 ≤ j
          → j < length (written m (192 + k) zero_block).dev.blocks
          → get_elem? (freed m (unmarked blocks k) k).dev.blocks j
            ≡ get_elem? (written m (192 + k) zero_block).dev.blocks j
      map_write j lo hj =
          get_elem?-put_block_ne (written m (192 + k) zero_block).dev.blocks (2 + k / 512) j _
            (λ e. omega arith) hj

free-NewBlock :
    {m : Machine} {inodes blocks : Bitmap} {table : Bytes} (is : Mounted m inodes blocks table)
    (k : ℕ) (n : Machine)
    → alloc_block m ≡ ok (pos (192 + k), zero_block) n
    → NewBlock is k n
    → (o : Machine) × (free_block (pos (192 + k)) n ≡ ok (pos 0) o) × Mounted o inodes blocks table
free-NewBlock {inodes} {blocks} {table} is k n run (inside, clear, before, new, bits, same, heap) =
    let used : isset (marked blocks k) k ≡ true = ground (arith, bits k) in
    (
      freed n (unmarked (marked blocks k) k) k,
      free_block-ok new k inside used,
      subst (λ b. Mounted (freed n (unmarked (marked blocks k) k) k) inodes b table)
          (unmarked-marked is.blocks_valid k (omega (arith, is.nr_blocks)) clear)
          (freed-Mounted new k inside),
    )

-- On a mounted file system with a clear bit in its map, testfs_alloc_block hands out a block, and
-- testfs_free_block of that block succeeds and restores the map, in memory and on disk.
pub alloc_block-free_block :
    {m : Machine} {inodes blocks : Bitmap} {table : Bytes} (is : Mounted m inodes blocks table)
    (j : ℕ)
    → j < 1024
    → isset blocks j ≡ false
    → (k : ℕ) × (n : Machine) × (o : Machine) × (alloc_block m ≡ ok (pos (192 + k), zero_block) n)
      × (free_block (pos (192 + k)) n ≡ ok (pos 0) o)
      × Mounted o inodes blocks table
alloc_block-free_block {m} {inodes} {blocks} {table} is j inside clear =
    by_cases (alloc_block_lem is)
  where
    by_cases :
        ((k : ℕ) × (n : Machine) × (alloc_block m ≡ ok (pos (192 + k), zero_block) n)
            × NewBlock is k n)
          ⊎ ((alloc_block m ≡ ok (minus enospc, []) m)
              × ((i : ℕ) → i < 1024 → isset blocks i ≡ true))
        → (k : ℕ) × (n : Machine) × (o : Machine) × (alloc_block m
            ≡ ok (pos (192 + k), zero_block) n)
          × (free_block (pos (192 + k)) n ≡ ok (pos 0) o)
          × Mounted o inodes blocks table
    by_cases (inl (k, n, run, new)) =
        let (o, back, mounted) = free-NewBlock is k n run new in (k, n, o, run, back, mounted)
    by_cases (inr (run, full)) = absurd (cc (full j inside, clear))

-- A block that is given back can be taken again: after testfs_free_block of a block in use on a
-- mounted file system, testfs_alloc_block does not fail; it hands out a zeroed block whose index is
-- at most that of the freed one, and the file system stays mounted.
pub alloc_block_freed :
    {m : Machine} {inodes blocks : Bitmap} {table : Bytes} (is : Mounted m inodes blocks table)
    (k : ℕ)
    → k < 1024
    → isset blocks k ≡ true
    → (n : Machine) × (j : ℕ) × (o : Machine) × (b : Bitmap) × (free_block (pos (192 + k)) m
        ≡ ok (pos 0) n)
      × (alloc_block n ≡ ok (pos (192 + j), zero_block) o)
      × (j ≤ k)
      × Mounted o inodes b table
alloc_block_freed {m} {inodes} {blocks} {table} is k inside used =
    let (n, b, freeing, now, bits, zeroed, others) = free_block_lem is k inside used in
    let clear : isset b k ≡ false = ground (arith, bits k) in
    by_result n b freeing now clear (alloc_block_lem now)
  where
    at_most :
        (j : ℕ) (b : Bitmap) → isset b k ≡ false → ((i : ℕ) → i < j → isset b i ≡ true) → j ≤ k
    at_most j b clear below = by_order (Bool-cases (leb j k))
      where
        by_order : (leb j k ≡ true) ⊎ (leb j k ≡ false) → j ≤ k
        by_order (inl le) = leb→le j k le
        by_order (inr gt) = cc (below k (ground arith), clear)

    by_result :
        (n : Machine) (b : Bitmap)
        → free_block (pos (192 + k)) m ≡ ok (pos 0) n
        → (now : Mounted n inodes b table) → isset b k ≡ false
        → ((j : ℕ) × (o : Machine) × (alloc_block n ≡ ok (pos (192 + j), zero_block) o)
            × NewBlock now j o)
          ⊎ ((alloc_block n ≡ ok (minus enospc, []) n) × ((j : ℕ) → j < 1024 → isset b j ≡ true))
        → (n : Machine) × (j : ℕ) × (o : Machine) × (c : Bitmap) × (free_block (pos (192 + k)) m
            ≡ ok (pos 0) n)
          × (alloc_block n ≡ ok (pos (192 + j), zero_block) o)
          × (j ≤ k)
          × Mounted o inodes c table
    by_result n b freeing now clear
          (inl (j, o, run, (within, free, below, new, marks, same, heap))) =
        (n, j, o, marked b j, freeing, run, at_most j b clear below, new)
    by_result n b freeing now clear (inr (run, full)) = cc (full k inside, clear)
