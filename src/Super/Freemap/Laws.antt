-- ===== src/Super/Freemap/Laws.antt =====
-- Allocation of blocks and inodes on a mounted file system: the maps change in memory and on disk
-- together.
use klee_testfs.Common.{
  ℕ, ◌+◌, ◌*◌, ◌/◌, ◌≤◌, ◌<◌, ◌≡◌, ◌≢◌, refl, ap, sym, ◌∙◌, some, pos, ◌+ℤ◌, get_elem?, length,
  slice, arith, slice-set_after, slice-set_before, length-slice,
}
use native.Mathlib.Decide.{ℕ_discrete, dec_lt}
use klee_testfs.Bytes.{Bytes}
use klee_testfs.Bitmap.{Bitmap}
use klee_testfs.Bitmap.Laws.{IsValid, put_byte}
use klee_testfs.Machine.{Machine, ok}
use klee_testfs.Block.Laws.{
  written, write_one_at, put_block-IsImage, get_elem?-put_block_self, get_elem?-put_block_ne,
  length-put_block_le,
}
use klee_testfs.Super.Freemap.{write_freemap, write_inode_freemap, write_block_freemap}
use klee_testfs.Super.Mounted.{Mounted}

-- The slice of 64 bytes that a changed byte is not in.
pub slice-put_byte :
    (b : Bitmap) (k j w : ℕ)
    → j ≢ k / 512
    → slice (j * 64) 64 (put_byte b (k / 8) w).v ≡ slice (j * 64) 64 b.v
slice-put_byte b k j w ne = elim (dec_lt j (k / 512)) [
  | yes below ↦ slice-set_after (j * 64) 64 b.v (k / 8) w (omega arith)
  | no above ↦ slice-set_before (j * 64) 64 b.v (k / 8) w (omega arith)
]

abbrev pub with_blocks : Machine → Bitmap → Machine
with_blocks m b = record m { sb = record (m.sb) { block_freemap = some b } }

abbrev pub with_inodes : Machine → Bitmap → Machine
with_inodes m b = record m { sb = record (m.sb) { inode_freemap = some b } }

-- The state after the bit `k` of a map has changed, with its block written.
abbrev pub blocks_stored : Machine → Bitmap → ℕ → Machine
blocks_stored m b k = written (with_blocks m b) (2 + k / 512) (slice (k / 512 * 64) 64 b.v)

abbrev pub inodes_stored : Machine → Bitmap → ℕ → Machine
inodes_stored m b k = written (with_inodes m b) (1 + k / 512) (slice (k / 512 * 64) 64 b.v)

module _ {m : Machine} {inodes blocks : Bitmap} {table : Bytes}
    (is : Mounted m inodes blocks table) where
  pub write_block_freemap-ok :
      (b : Bitmap) (k : ℕ)
      → k < 1024
      → length b.v ≡ 128
      → write_block_freemap k (with_blocks m b) ≡ ok tt (blocks_stored m b k)
  unfolding write_block_freemap write_freemap
  write_block_freemap-ok b k h size =
      write_one_at (2 + k / 512) (with_blocks m b)
        (ap (λ z. z +ℤ pos (k / 512)) is.block_freemap_start) (slice (k / 512 * 64) 64 b.v)
        (length-slice (k / 512 * 64) 64 b.v (omega arith))

  pub write_inode_freemap-ok :
      (b : Bitmap) (k : ℕ)
      → k < 512
      → length b.v ≡ 64
      → write_inode_freemap k (with_inodes m b) ≡ ok tt (inodes_stored m b k)
  unfolding write_inode_freemap write_freemap
  write_inode_freemap-ok b k h size =
      write_one_at (1 + k / 512) (with_inodes m b)
        (ap (λ z. z +ℤ pos (k / 512)) is.inode_freemap_start) (slice (k / 512 * 64) 64 b.v)
        (length-slice (k / 512 * 64) 64 b.v (omega arith))

  -- A write beyond the tables keeps everything that they say.
  pub data-Mounted :
      (k : ℕ) (c : Bytes) → 64 ≤ k → length c ≡ 64 → Mounted (written m k c) inodes blocks table
  data-Mounted k c h size = record {
    inode_freemap_start = is.inode_freemap_start;
    block_freemap_start = is.block_freemap_start;
    csum_table_start = is.csum_table_start;
    inode_blocks_start = is.inode_blocks_start;
    data_blocks_start = is.data_blocks_start;
    inode_freemap = is.inode_freemap;
    block_freemap = is.block_freemap;
    csum_table = is.csum_table;
    inodes_valid = is.inodes_valid;
    blocks_valid = is.blocks_valid;
    nr_inodes = is.nr_inodes;
    nr_blocks = is.nr_blocks;
    length_table = is.length_table;
    image = put_block-IsImage m.dev.blocks k c is.image size;
    fits = omega (arith, is.fits, length-put_block_le m.dev.blocks k c);
    inode_map = other 1 (omega arith) ∙ is.inode_map;
    block_map = λ j hj. other (2 + j) (omega arith) ∙ is.block_map j hj;
    csums = λ j hj. other (4 + j) (omega arith) ∙ is.csums j hj;
  }
    where
      other : (j : ℕ) → j < 64 → get_elem? (written m k c).dev.blocks j ≡ get_elem? m.dev.blocks j
      other j hj =
          get_elem?-put_block_ne m.dev.blocks k j c (λ e. omega arith) (omega (arith, is.fits))

  pub blocks_stored-Mounted :
      (b : Bitmap) (k : ℕ)
      → k < 1024
      → IsValid b
      → b.nbits ≡ 1024
      → ((j : ℕ) → j ≢ k / 512 → slice (j * 64) 64 b.v ≡ slice (j * 64) 64 blocks.v)
      → Mounted (blocks_stored m b k) inodes b table
  blocks_stored-Mounted b k h valid size same = record {
    inode_freemap_start = is.inode_freemap_start;
    block_freemap_start = is.block_freemap_start;
    csum_table_start = is.csum_table_start;
    inode_blocks_start = is.inode_blocks_start;
    data_blocks_start = is.data_blocks_start;
    inode_freemap = is.inode_freemap;
    block_freemap = refl;
    csum_table = is.csum_table;
    inodes_valid = is.inodes_valid;
    blocks_valid = valid;
    nr_inodes = is.nr_inodes;
    nr_blocks = size;
    length_table = is.length_table;
    image = put_block-IsImage m.dev.blocks (2 + k / 512) new is.image whole;
    fits = omega (arith, is.fits, length-put_block_le m.dev.blocks (2 + k / 512) new);
    inode_map = other 1 (omega arith) (λ e. omega arith) ∙ is.inode_map;
    block_map = λ j hj. elim (ℕ_discrete (k / 512) j) [
      | yes e ↦ here j e
      | no ne ↦
          other (2 + j) (omega arith) (λ e. ne (omega arith))
          ∙ is.block_map j hj
          ∙ ap some (sym (same j (λ e. ne (sym e))))
    ];
    csums = λ j hj. other (4 + j) (omega arith) (λ e. omega arith) ∙ is.csums j hj;
  }
    where
      new : Bytes
      new = slice (k / 512 * 64) 64 b.v

      whole : length new ≡ 64
      whole = length-slice (k / 512 * 64) 64 b.v (omega (arith, valid.words))

      other :
          (j : ℕ)
          → j < 64
          → 2 + k / 512 ≢ j
          → get_elem? (blocks_stored m b k).dev.blocks j ≡ get_elem? m.dev.blocks j
      other j hj ne =
          get_elem?-put_block_ne m.dev.blocks (2 + k / 512) j new ne (omega (arith, is.fits))

      here :
          (j : ℕ)
          → k / 512 ≡ j
          → get_elem? (blocks_stored m b k).dev.blocks (2 + j) ≡ some (slice (j * 64) 64 b.v)
      here j e = rw (← e) (get_elem?-put_block_self m.dev.blocks (2 + k / 512) new)

  pub inodes_stored-Mounted :
      (b : Bitmap) (k : ℕ)
      → k < 512
      → IsValid b
      → b.nbits ≡ 512
      → Mounted (inodes_stored m b k) b blocks table
  inodes_stored-Mounted b k h valid size = record {
    inode_freemap_start = is.inode_freemap_start;
    block_freemap_start = is.block_freemap_start;
    csum_table_start = is.csum_table_start;
    inode_blocks_start = is.inode_blocks_start;
    data_blocks_start = is.data_blocks_start;
    inode_freemap = refl;
    block_freemap = is.block_freemap;
    csum_table = is.csum_table;
    inodes_valid = valid;
    blocks_valid = is.blocks_valid;
    nr_inodes = size;
    nr_blocks = is.nr_blocks;
    length_table = is.length_table;
    image = put_block-IsImage m.dev.blocks (1 + k / 512) new is.image whole;
    fits = omega (arith, is.fits, length-put_block_le m.dev.blocks (1 + k / 512) new);
    inode_map = here 0 (omega arith);
    block_map = λ j hj. other (2 + j) (omega arith) (λ e. omega arith) ∙ is.block_map j hj;
    csums = λ j hj. other (4 + j) (omega arith) (λ e. omega arith) ∙ is.csums j hj;
  }
    where
      new : Bytes
      new = slice (k / 512 * 64) 64 b.v

      whole : length new ≡ 64
      whole = length-slice (k / 512 * 64) 64 b.v (omega (arith, valid.words))

      other :
          (j : ℕ)
          → j < 64
          → 1 + k / 512 ≢ j
          → get_elem? (inodes_stored m b k).dev.blocks j ≡ get_elem? m.dev.blocks j
      other j hj ne =
          get_elem?-put_block_ne m.dev.blocks (1 + k / 512) j new ne (omega (arith, is.fits))

      here :
          (j : ℕ)
          → k / 512 ≡ j
          → get_elem? (inodes_stored m b k).dev.blocks (1 + j) ≡ some (slice (j * 64) 64 b.v)
      here j e = rw (← e) (get_elem?-put_block_self m.dev.blocks (1 + k / 512) new)
