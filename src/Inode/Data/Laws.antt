-- ===== src/Inode/Data/Laws.antt =====
-- One round of testfs_write_data: a block written together with its checksum.
use klee_testfs.Common.{◌+◌, ◌≤◌, ◌<◌, ◌≡◌, ◌≢◌, ℕ, sym, ◌∙◌, some, pos, get_elem?, length, arith}
use klee_testfs.Bytes.{Bytes, IsBytes, get_word}
use klee_testfs.Bitmap.{Bitmap}
use klee_testfs.Machine.{Machine, ok}
use klee_testfs.Machine.Run.{then_ok}
use klee_testfs.Block.{put_block, read_blocks}
use klee_testfs.Block.Laws.{
  written, write_one, read_one, length-put_block, length-put_block_le, get_elem?-put_block_self,
  get_elem?-put_block_ne,
}
use klee_testfs.Csum.{verify_csum, put_csum}
use klee_testfs.Csum.Laws.{csum_of, csum_of-lt, calculate_csum-ok, verify_csum_lem}
use klee_testfs.Csum.Put.{put_csum_lem}
use klee_testfs.Super.Mounted.{Mounted, written-Mounted}
use klee_testfs.Inode.Data.{write_block}

module _ {m : Machine} {inodes blocks : Bitmap} {table : Bytes} (is : Mounted m inodes blocks table)
    (k : ℕ) (inside : k < 960) (block : Bytes) (size : length block ≡ 64) where
  -- One round of testfs_write_data on a mounted file system, for one of the first 960 data blocks: the
  -- block and its checksum are written, so that afterwards testfs_verify_csum of the block returns 0,
  -- reading it gives the bytes written, the checksums of the other blocks and the other data blocks
  -- and the inodes in memory are as before, and the file system is mounted still.
  pub write_block_lem :
      IsBytes block
      → (n : Machine) × (t : Bytes) × (write_block (pos (192 + k)) block m ≡ ok tt n)
        × Mounted n inodes blocks t
        × (verify_csum (pos (192 + k)) n ≡ ok (pos 0) n)
        × (read_blocks (pos (192 + k)) 1 n ≡ ok block n)
        × ((j : ℕ) → j ≢ k → get_word t j ≡ get_word table j)
        × ((j : ℕ)
            → 64 ≤ j
            → j < length m.dev.blocks
            → j ≢ 192 + k
            → get_elem? n.dev.blocks j ≡ get_elem? m.dev.blocks j)
        × (get_elem? n.dev.blocks (192 + k) ≡ some block)
        × (n.heap ≡ m.heap)
  unfolding write_block
  write_block_lem bytes = from_put (
      put_csum_lem (written-Mounted is (192 + k) block (omega arith) size) k (csum_of block) inside
        (csum_of-lt block bytes))
    where
      from_put :
          (n : Machine) × (t : Bytes) × (put_csum
                (pos (192 + k))
                (csum_of block)
                (written m (192 + k) block)
              ≡ ok tt n)
            × Mounted n inodes blocks t
            × (get_word t k ≡ csum_of block)
            × ((j : ℕ) → j ≢ k → get_word t j ≡ get_word table j)
            × ((j : ℕ)
                → 64 ≤ j
                → j < length (put_block m.dev.blocks (192 + k) block)
                → get_elem? n.dev.blocks j ≡ get_elem? (put_block m.dev.blocks (192 + k) block) j)
            × (n.heap ≡ m.heap)
          → (n : Machine) × (t : Bytes) × (write_block (pos (192 + k)) block m ≡ ok tt n)
            × Mounted n inodes blocks t
            × (verify_csum (pos (192 + k)) n ≡ ok (pos 0) n)
            × (read_blocks (pos (192 + k)) 1 n ≡ ok block n)
            × ((j : ℕ) → j ≢ k → get_word t j ≡ get_word table j)
            × ((j : ℕ)
                → 64 ≤ j
                → j < length m.dev.blocks
                → j ≢ 192 + k
                → get_elem? n.dev.blocks j ≡ get_elem? m.dev.blocks j)
            × (get_elem? n.dev.blocks (192 + k) ≡ some block)
            × (n.heap ≡ m.heap)
      from_put (n, t, run, mounted, summed, sums, same, heap) =
          let there : get_elem? n.dev.blocks (192 + k) ≡ some block =
            same (192 + k) (omega arith) (length-put_block m.dev.blocks (192 + k) block)
            ∙ get_elem?-put_block_self m.dev.blocks (192 + k) block in
          (
            n,
            t,
            then_ok _ (calculate_csum-ok block m)
                ∙ then_ok _ (write_one block (192 + k) m size)
                ∙ run,
            mounted,
            verify_csum_lem mounted k block inside there summed,
            read_one (192 + k) n block there,
            sums,
            λ j lo hj ne.
                same j lo (omega (arith, length-put_block_le m.dev.blocks (192 + k) block))
                ∙ get_elem?-put_block_ne m.dev.blocks (192 + k) j block (λ e. ne (sym e)) hj,
            there,
            heap,
          )
