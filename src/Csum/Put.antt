-- ===== src/Csum/Put.antt =====
-- testfs_put_csum on a mounted file system: one entry of the table changes, in memory and on disk.
use klee_testfs.Common.{
  ℕ, ◌+◌, ◌*◌, ◌/◌, ◌^◌, ◌≤◌, ◌<◌, ◌≡◌, ◌≢◌, refl, ap, sym, ◌∙◌, some, pos, ◌+ℤ◌, get_elem?, length,
  slice, arith, lt→ltb, length-slice,
}
use native.Mathlib.Decide.{ℕ_discrete}
use klee_testfs.Bytes.{Bytes, get_word, set_word}
use klee_testfs.Bytes.Laws.{
  length-set_word, get_word-set_word_self, get_word-set_word_ne, slice-set_word,
}
use klee_testfs.Bitmap.{Bitmap}
use klee_testfs.Machine.{Machine, M, ok, and_then, pure, put, ◌>>◌, assertion}
use klee_testfs.Machine.Run.{expect_then}
use klee_testfs.Block.Laws.{
  written, write_one_at, put_block-IsImage, get_elem?-put_block_self, get_elem?-put_block_ne,
  length-put_block_le,
}
use klee_testfs.Csum.{write_csum, csum_index, put_csum}
use klee_testfs.Super.Freemap.Free.{data_index}
use klee_testfs.Super.Mounted.{Mounted}

abbrev with_table : Machine → Bytes → Machine
with_table m t = record m { sb = record (m.sb) { csum_table = some t } }

-- The state with a new table, of which the block of the entry `k` is written.
abbrev pub table_stored : Machine → Bytes → ℕ → Machine
table_stored m t k = written (with_table m t) (4 + k * 4 / 64) (slice (k * 4 / 64 * 64) 64 t)

-- What follows the assertion on the index, with the table in hand.
abbrev store_csum : Machine → ℕ → Bytes → ℕ → M (Unit {0})
store_csum m csum t nr = do
  put (record m { sb = record (m.sb) { csum_table = some (set_word t nr csum) } })
  write_csum nr

module _ {m : Machine} {inodes blocks : Bitmap} {table : Bytes} (is : Mounted m inodes blocks table)
    (k csum : ℕ) (inside : k < 960) where
  new_table : Bytes
  new_table = set_word table k csum

  length_new : length new_table ≡ 3840
  unfolding new_table
  length_new = length-set_word table k csum ∙ is.length_table

  whole : length (slice (k * 4 / 64 * 64) 64 new_table) ≡ 64
  whole = length-slice (k * 4 / 64 * 64) 64 new_table (omega (arith, length_new))

  write_csum-ok : write_csum k (with_table m new_table) ≡ ok tt (table_stored m new_table k)
  unfolding write_csum
  write_csum-ok =
      write_one_at (4 + k * 4 / 64) (with_table m new_table)
        (ap (λ z. z +ℤ pos (k * 4 / 64)) is.csum_table_start) (slice (k * 4 / 64 * 64) 64 new_table)
        whole

  pub put_csum-ok :
      put_csum (pos (192 + k)) csum m ≡ ok tt (table_stored m (set_word table k csum) k)
  unfolding put_csum new_table
  put_csum-ok =
      expect_then assertion _ m is.csum_table
      ∙ ap (λ z. and_then (csum_index z m) (store_csum m csum table))
          (data_index m.sb.dsb.data_blocks_start k is.data_blocks_start)
      ∙ ap (λ t. and_then (t m) (store_csum m csum table)) index
      ∙ write_csum-ok
    where
      index : csum_index (pos k) ≡ pure k
      index = rw (lt→ltb k 960 inside)

  table_stored-Mounted : Mounted (table_stored m new_table k) inodes blocks new_table
  unfolding new_table
  table_stored-Mounted = record {
    inode_freemap_start = is.inode_freemap_start;
    block_freemap_start = is.block_freemap_start;
    csum_table_start = is.csum_table_start;
    inode_blocks_start = is.inode_blocks_start;
    data_blocks_start = is.data_blocks_start;
    inode_freemap = is.inode_freemap;
    block_freemap = is.block_freemap;
    csum_table = refl;
    inodes_valid = is.inodes_valid;
    blocks_valid = is.blocks_valid;
    nr_inodes = is.nr_inodes;
    nr_blocks = is.nr_blocks;
    length_table = length_new;
    image = put_block-IsImage m.dev.blocks (4 + k * 4 / 64) new is.image whole;
    fits = omega (arith, is.fits, length-put_block_le m.dev.blocks (4 + k * 4 / 64) new);
    inode_map = other 1 (omega arith) (λ e. omega arith) ∙ is.inode_map;
    block_map = λ j hj. other (2 + j) (omega arith) (λ e. omega arith) ∙ is.block_map j hj;
    csums = λ j hj. elim (ℕ_discrete (k * 4 / 64) j) [
      | yes e ↦ here j e
      | no ne ↦
          other (4 + j) (omega arith) (λ e. ne (omega arith))
          ∙ is.csums j hj
          ∙ ap some (
              sym (
                slice-set_word table j k csum (omega (arith, is.length_table))
                  (λ e. ne (omega arith))))
    ];
  }
    where
      new : Bytes
      new = slice (k * 4 / 64 * 64) 64 (set_word table k csum)

      other :
          (j : ℕ)
          → j < 64
          → 4 + k * 4 / 64 ≢ j
          → get_elem? (table_stored m (set_word table k csum) k).dev.blocks j
            ≡ get_elem? m.dev.blocks j
      other j hj ne =
          get_elem?-put_block_ne m.dev.blocks (4 + k * 4 / 64) j new ne (omega (arith, is.fits))

      here :
          (j : ℕ)
          → k * 4 / 64 ≡ j
          → get_elem? (table_stored m (set_word table k csum) k).dev.blocks (4 + j)
            ≡ some (slice (j * 64) 64 (set_word table k csum))
      here j e = rw (← e) (get_elem?-put_block_self m.dev.blocks (4 + k * 4 / 64) new)

  -- testfs_put_csum of a 32-bit checksum for one of the first 960 data blocks of a mounted file
  -- system succeeds: that entry of the table changes and no other, the table on disk stays that in
  -- memory, and no block past the tables and no inode in memory changes.
  pub put_csum_lem :
      csum < 2 ^ 32
      → (n : Machine) × (t : Bytes) × (put_csum (pos (192 + k)) csum m ≡ ok tt n)
        × Mounted n inodes blocks t
        × (get_word t k ≡ csum)
        × ((j : ℕ) → j ≢ k → get_word t j ≡ get_word table j)
        × ((j : ℕ)
            → 64 ≤ j
            → j < length m.dev.blocks
            → get_elem? n.dev.blocks j ≡ get_elem? m.dev.blocks j)
        × (n.heap ≡ m.heap)
  unfolding new_table
  put_csum_lem word = (
    table_stored m (set_word table k csum) k,
    set_word table k csum,
    put_csum-ok,
    table_stored-Mounted,
    get_word-set_word_self table k csum (omega (arith, is.length_table)) word,
    λ j ne. get_word-set_word_ne table k j csum (λ e. ne (sym e)),
    λ j lo hj. get_elem?-put_block_ne m.dev.blocks (4 + k * 4 / 64) j _ (λ e. omega arith) hj,
    refl,
  )
