-- ===== src/Super/Mounted.antt =====
-- What holds of a mounted file system: the layout of mktestfs, and every table written through, so
-- that the image agrees with the maps and checksums in memory.
use klee_testfs.Common.{
  ℕ, List, Option, ◌+◌, ◌*◌, ◌≤◌, ◌<◌, ◌≡◌, ◌≢◌, some, pos, get_elem?, length, slice, ◌∙◌, arith,
}
use klee_testfs.Bytes.{Bytes}
use klee_testfs.Bitmap.{Bitmap}
use klee_testfs.Bitmap.Laws.{IsValid}
use klee_testfs.Machine.{TxType, Machine, Inode}
use klee_testfs.Block.{put_block}
use klee_testfs.Block.Laws.{
  IsImage, written, put_block-IsImage, length-put_block_le, get_elem?-put_block_ne,
}

-- The free maps of inodes and blocks and the checksum table, with their copies on disk.
pub record Mounted (m : Machine) (inodes blocks : Bitmap) (table : Bytes) : Type 0 where
  pub inode_freemap_start : m.sb.dsb.inode_freemap_start ≡ pos 1
  pub block_freemap_start : m.sb.dsb.block_freemap_start ≡ pos 2
  pub csum_table_start : m.sb.dsb.csum_table_start ≡ pos 4
  pub inode_blocks_start : m.sb.dsb.inode_blocks_start ≡ pos 64
  pub data_blocks_start : m.sb.dsb.data_blocks_start ≡ pos 192
  pub inode_freemap : m.sb.inode_freemap ≡ some inodes
  pub block_freemap : m.sb.block_freemap ≡ some blocks
  pub csum_table : m.sb.csum_table ≡ some table
  pub inodes_valid : IsValid inodes
  pub blocks_valid : IsValid blocks
  pub nr_inodes : inodes.nbits ≡ 512
  pub nr_blocks : blocks.nbits ≡ 1024
  pub length_table : length table ≡ 3840
  pub image : IsImage m.dev.blocks
  pub fits : 192 ≤ length m.dev.blocks
  pub inode_map : get_elem? m.dev.blocks 1 ≡ some (slice 0 64 inodes.v)
  pub block_map :
      (j : ℕ) → j < 2 → get_elem? m.dev.blocks (2 + j) ≡ some (slice (j * 64) 64 blocks.v)
  pub csums : (j : ℕ) → j < 60 → get_elem? m.dev.blocks (4 + j) ≡ some (slice (j * 64) 64 table)

-- A write outside of the tables leaves the file system mounted.
pub outside-Mounted :
    {m : Machine} {inodes blocks : Bitmap} {table : Bytes} (is : Mounted m inodes blocks table)
    (k : ℕ) (b : Bytes)
    → ((j : ℕ) → 0 < j → j < 64 → k ≢ j)
    → length b ≡ 64
    → Mounted (written m k b) inodes blocks table
outside-Mounted {m} is k b past size = record {
  inode_freemap_start = is.inode_freemap_start;
  block_freemap_start = is.block_freemap_start;
  csum_table_start = is.csum_table_start;
  inode_blocks_start = is.inode_blocks_start;
  data_blocks_start = is.data_blocks_start;
  inode_freemap = is.inode_freemap;
  block_freemap = is.block_freemap;
  csum_table = is.csum_table;
  inodes_valid = is.inodes_valid;
  blocks_valid = is.blocks_valid;
  nr_inodes = is.nr_inodes;
  nr_blocks = is.nr_blocks;
  length_table = is.length_table;
  image = put_block-IsImage m.dev.blocks k b is.image size;
  fits = omega (arith, is.fits, length-put_block_le m.dev.blocks k b);
  inode_map = other 1 (omega arith) (omega arith) ∙ is.inode_map;
  block_map = λ j h. other (2 + j) (omega arith) (omega arith) ∙ is.block_map j h;
  csums = λ j h. other (4 + j) (omega arith) (omega arith) ∙ is.csums j h;
}
  where
    other :
        (j : ℕ)
        → 0 < j
        → j < 64
        → get_elem? (put_block m.dev.blocks k b) j ≡ get_elem? m.dev.blocks j
    other j low h =
        get_elem?-put_block_ne m.dev.blocks k j b (past j low h) (omega (arith, is.fits))

-- So does one past them.
pub written-Mounted :
    {m : Machine} {inodes blocks : Bitmap} {table : Bytes} (is : Mounted m inodes blocks table)
    (k : ℕ) (b : Bytes)
    → 64 ≤ k
    → length b ≡ 64
    → Mounted (written m k b) inodes blocks table
written-Mounted is k b past size = outside-Mounted is k b (λ j low h e. omega arith) size

-- So does any change of the inodes in memory.
pub heap-Mounted :
    {m : Machine} {inodes blocks : Bitmap} {table : Bytes} (h : List (Option Inode))
    → Mounted m inodes blocks table
    → Mounted (record m { heap = h }) inodes blocks table
heap-Mounted {m} h is = record {
  inode_freemap_start = is.inode_freemap_start;
  block_freemap_start = is.block_freemap_start;
  csum_table_start = is.csum_table_start;
  inode_blocks_start = is.inode_blocks_start;
  data_blocks_start = is.data_blocks_start;
  inode_freemap = is.inode_freemap;
  block_freemap = is.block_freemap;
  csum_table = is.csum_table;
  inodes_valid = is.inodes_valid;
  blocks_valid = is.blocks_valid;
  nr_inodes = is.nr_inodes;
  nr_blocks = is.nr_blocks;
  length_table = is.length_table;
  image = is.image;
  fits = is.fits;
  inode_map = is.inode_map;
  block_map = is.block_map;
  csums = is.csums;
}

-- So does the start or the end of a transaction.
pub tx-Mounted :
    {m : Machine} {inodes blocks : Bitmap} {table : Bytes} (t : TxType)
    → Mounted m inodes blocks table
    → Mounted (record m { sb = record (m.sb) { tx_in_progress = t } }) inodes blocks table
tx-Mounted {m} t is = record {
  inode_freemap_start = is.inode_freemap_start;
  block_freemap_start = is.block_freemap_start;
  csum_table_start = is.csum_table_start;
  inode_blocks_start = is.inode_blocks_start;
  data_blocks_start = is.data_blocks_start;
  inode_freemap = is.inode_freemap;
  block_freemap = is.block_freemap;
  csum_table = is.csum_table;
  inodes_valid = is.inodes_valid;
  blocks_valid = is.blocks_valid;
  nr_inodes = is.nr_inodes;
  nr_blocks = is.nr_blocks;
  length_table = is.length_table;
  image = is.image;
  fits = is.fits;
  inode_map = is.inode_map;
  block_map = is.block_map;
  csums = is.csums;
}
