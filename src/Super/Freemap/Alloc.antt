-- ===== src/Super/Freemap/Alloc.antt =====
-- testfs_alloc_block, testfs_get_inode_freemap, testfs_free_block and testfs_put_inode_freemap on a
-- mounted file system.
use klee_testfs.Common.{
  ℕ, ◌+◌, ◌/◌, ◌≤◌, ◌<◌, ◌≡◌, ◌⊎◌, inl, inr, refl, ap, subst, ◌∙◌, true, false, [], pos, ◌+ℤ◌,
  minus, get_elem?, length, arith, if◌then◌else◌, ◌==◌,
}
use klee_testfs.Bytes.{Bytes}
use klee_testfs.Bitmap.{
  Bitmap, Allocation, allocated, no_space, asserted, isset, set_bit, clear_bit,
}
use klee_testfs.Bitmap
use klee_testfs.Bitmap.Laws.{IsValid, marked, mark-eq, marked-IsValid, isset-set_bit, index_inside}
use klee_testfs.Bitmap.Alloc.{Allocates, alloc-Allocates}
use klee_testfs.Machine.{Machine, ok, pure, assertion, enospc}
use klee_testfs.Machine.Run.{then_ok, expect_then}
use klee_testfs.Block.{zero_block}
use klee_testfs.Block.Laws.{get_elem?-put_block_ne}
use klee_testfs.Super.Freemap.{
  take_block, get_block_freemap, take_inode, get_inode_freemap, alloc_block,
}
use klee_testfs.Super.Freemap.Laws.{
  slice-put_byte, blocks_stored, inodes_stored, write_block_freemap-ok, write_inode_freemap-ok,
  blocks_stored-Mounted, inodes_stored-Mounted,
}
use klee_testfs.Super.Mounted.{Mounted}

module _ {m : Machine} {inodes blocks : Bitmap} {table : Bytes}
    (is : Mounted m inodes blocks table) where
  -- What a new block comes with: the lowest free number, and everything beyond the tables as it was.
  abbrev pub NewBlock : ℕ → Machine → Type 0
  NewBlock k n =
      (k < 1024)
      × (isset blocks k ≡ false)
      × ((j : ℕ) → j < k → isset blocks j ≡ true)
      × Mounted n inodes (marked blocks k) table
      × ((j : ℕ) → isset (marked blocks k) j ≡ (if k == j then true else isset blocks j))
      × ((j : ℕ)
          → 64 ≤ j
          → j < length m.dev.blocks
          → get_elem? n.dev.blocks j ≡ get_elem? m.dev.blocks j)
      × (n.heap ≡ m.heap)

  get_block_freemap-eq : get_block_freemap m ≡ take_block (Bitmap.alloc blocks) m
  unfolding get_block_freemap
  get_block_freemap-eq = expect_then assertion (λ f. take_block (Bitmap.alloc f)) m is.block_freemap

  marked-Mounted :
      (k : ℕ)
      → k < 1024
      → Mounted (blocks_stored m (marked blocks k) k) inodes (marked blocks k) table
  marked-Mounted k h =
      blocks_stored-Mounted is (marked blocks k) k h
        (marked-IsValid is.blocks_valid k (omega (arith, is.nr_blocks))) is.nr_blocks
        (λ j ne. slice-put_byte blocks k j _ ne)

  length-marked : (k : ℕ) → k < 1024 → length (marked blocks k).v ≡ 128
  length-marked k h =
      let v = marked-IsValid is.blocks_valid k (omega (arith, is.nr_blocks)) in
      omega (arith, v.words, is.nr_blocks)

  new_block :
      (k : ℕ) (b : Bitmap)
      → Allocates blocks (allocated k b)
      → Bitmap.alloc blocks ≡ allocated k b
      → NewBlock k (blocks_stored m (marked blocks k) k)
        × (alloc_block m ≡ ok (pos (192 + k), zero_block) (blocks_stored m (marked blocks k) k))
  unfolding alloc_block take_block
  new_block k b (inside, clear, before, marks) e = (
    (
      in_map,
      clear,
      before,
      marked-Mounted k in_map,
      isset-set_bit blocks is.blocks_valid.bytes k (index_inside is.blocks_valid k inside),
      λ j lo hj. get_elem?-put_block_ne m.dev.blocks (2 + k / 512) j _ (λ e. omega arith) hj,
      refl,
    ),
    run,
  )
    where
      in_map : k < 1024
      in_map = omega (arith, is.nr_blocks)

      same : b ≡ marked blocks k
      same = cc (marks, mark-eq is.blocks_valid k inside clear)

      take : get_block_freemap m ≡ ok (pos k) (blocks_stored m (marked blocks k) k)
      take =
          get_block_freemap-eq
          ∙ ap (λ r. take_block r m) (e ∙ ap (allocated k) same)
          ∙ then_ok (λ _. pure (pos k))
              (write_block_freemap-ok is (marked blocks k) k in_map (length-marked k in_map))

      run : alloc_block m ≡ ok (pos (192 + k), zero_block) (blocks_stored m (marked blocks k) k)
      run =
          then_ok _ take
          ∙ ap (λ z. ok (z +ℤ pos k, zero_block) (blocks_stored m (marked blocks k) k))
              is.data_blocks_start

  no_block : Bitmap.alloc blocks ≡ no_space → alloc_block m ≡ ok (minus enospc, []) m
  unfolding alloc_block take_block
  no_block e = then_ok _ (get_block_freemap-eq ∙ ap (λ r. take_block r m) e)

  -- testfs_alloc_block on a mounted file system returns either the lowest block whose bit is clear,
  -- with a zeroed buffer for it, that bit set in memory and on disk, and no block past the tables and no
  -- inode in memory changed, or -ENOSPC
  -- with nothing changed, and then every bit of the map is set.
  pub alloc_block_lem :
      ((k : ℕ) × (n : Machine) × (alloc_block m ≡ ok (pos (192 + k), zero_block) n) × NewBlock k n)
      ⊎ ((alloc_block m ≡ ok (minus enospc, []) m) × ((j : ℕ) → j < 1024 → isset blocks j ≡ true))
  alloc_block_lem = by_result (Bitmap.alloc blocks) refl
    where
      by_result :
          (r : Allocation)
          → Bitmap.alloc blocks ≡ r
          → ((k : ℕ) × (n : Machine) × (alloc_block m ≡ ok (pos (192 + k), zero_block) n)
              × NewBlock k n)
            ⊎ ((alloc_block m ≡ ok (minus enospc, []) m)
                × ((j : ℕ) → j < 1024 → isset blocks j ≡ true))
      by_result (allocated k b) e =
          let (new, run) =
            new_block k b (subst (Allocates blocks) e (alloc-Allocates is.blocks_valid)) e in
          inl (k, blocks_stored m (marked blocks k) k, run, new)
      by_result no_space e = inr (
        no_block e,
        λ j h.
            subst (Allocates blocks) e (alloc-Allocates is.blocks_valid) j
              (omega (arith, is.nr_blocks)),
      )
      by_result asserted e = absurd (subst (Allocates blocks) e (alloc-Allocates is.blocks_valid))

  get_inode_freemap-eq : get_inode_freemap m ≡ take_inode (Bitmap.alloc inodes) m
  unfolding get_inode_freemap
  get_inode_freemap-eq = expect_then assertion (λ f. take_inode (Bitmap.alloc f)) m is.inode_freemap

  new_inode :
      (k : ℕ) (b : Bitmap)
      → Allocates inodes (allocated k b)
      → Bitmap.alloc inodes ≡ allocated k b
      → (k < 512)
        × Mounted (inodes_stored m (marked inodes k) k) (marked inodes k) blocks table
        × (get_inode_freemap m ≡ ok (pos k) (inodes_stored m (marked inodes k) k))
  unfolding take_inode
  new_inode k b (inside, clear, before, marks) e = (
    in_map,
    inodes_stored-Mounted is (marked inodes k) k in_map valid is.nr_inodes,
    get_inode_freemap-eq
        ∙ ap (λ r. take_inode r m) (e ∙ ap (allocated k) same)
        ∙ then_ok (λ _. pure (pos k))
            (write_inode_freemap-ok is (marked inodes k) k in_map
              (omega (arith, valid.words, is.nr_inodes))),
  )
    where
      in_map : k < 512
      in_map = omega (arith, is.nr_inodes)

      valid : IsValid (marked inodes k)
      valid = marked-IsValid is.inodes_valid k inside

      same : b ≡ marked inodes k
      same = cc (marks, mark-eq is.inodes_valid k inside clear)

  -- testfs_get_inode_freemap on a mounted file system returns either the lowest inode number whose
  -- bit is clear, with that bit alone set in memory and on disk, or -ENOSPC with nothing changed, and
  -- then every bit of the map is set.
  pub get_inode_freemap_lem :
      ((k : ℕ) × (n : Machine) × (b : Bitmap) × (get_inode_freemap m ≡ ok (pos k) n)
        × (k < 512)
        × (isset inodes k ≡ false)
        × ((j : ℕ) → j < k → isset inodes j ≡ true)
        × Mounted n b blocks table
        × ((j : ℕ) → isset b j ≡ (if k == j then true else isset inodes j)))
      ⊎ ((get_inode_freemap m ≡ ok (minus enospc) m) × ((j : ℕ) → j < 512 → isset inodes j ≡ true))
  unfolding take_inode
  get_inode_freemap_lem = by_result (Bitmap.alloc inodes) refl
    where
      by_result :
          (r : Allocation)
          → Bitmap.alloc inodes ≡ r
          → ((k : ℕ) × (n : Machine) × (b : Bitmap) × (get_inode_freemap m ≡ ok (pos k) n)
              × (k < 512)
              × (isset inodes k ≡ false)
              × ((j : ℕ) → j < k → isset inodes j ≡ true)
              × Mounted n b blocks table
              × ((j : ℕ) → isset b j ≡ (if k == j then true else isset inodes j)))
            ⊎ ((get_inode_freemap m ≡ ok (minus enospc) m)
                × ((j : ℕ) → j < 512 → isset inodes j ≡ true))
      by_result (allocated k b) e =
          let promise = subst (Allocates inodes) e (alloc-Allocates is.inodes_valid) in
          let (inside, mounted, run) = new_inode k b promise e in
          inl (
            k,
            inodes_stored m (marked inodes k) k,
            marked inodes k,
            run,
            inside,
            promise.1,
            promise.2,
            mounted,
            isset-set_bit inodes is.inodes_valid.bytes k (index_inside is.inodes_valid k promise.0),
          )
      by_result no_space e = inr (
        get_inode_freemap-eq ∙ ap (λ r. take_inode r m) e,
        λ j h.
            subst (Allocates inodes) e (alloc-Allocates is.inodes_valid) j
              (omega (arith, is.nr_inodes)),
      )
      by_result asserted e = absurd (subst (Allocates inodes) e (alloc-Allocates is.inodes_valid))
