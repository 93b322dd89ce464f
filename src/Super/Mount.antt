-- ===== src/Super/Mount.antt =====
-- super.c: mktestfs's making of the parts of an image, and the superblock read and written back.
pub mod Laws
pub mod Restart
use klee_testfs.Common.{
  ℕ, zero, suc, ◌+◌, ◌-◌, ◌*◌, ◌/◌, ◌%◌, ◌^◌, Bool, true, false, not, Option, none, some, List, [],
  ◌∷◌, ◌++◌, ℤ, pos, negsuc, ◌+ℤ◌, minus, u32_of_int, int_of_u32, slice, replicate, ltb, leb, ◌==◌,
  if◌then◌else◌,
}
use klee_testfs.Bytes.{Bytes, bytes_of, get_word, get_int}
use klee_testfs.Bitmap.{Bitmap, bits_per_word}
use klee_testfs.Bitmap
use klee_testfs.Machine.{
  Machine, SuperBlock, DsuperBlock, tx_none, tx_umount, M, ok, undefined, assertion, exited, pure,
  ◌>>=◌, ◌>>◌, abort, get, put, assert, expect, malloc, block_size, super_block_size,
  inode_freemap_size, block_freemap_size, csum_table_size, nr_inode_blocks, nr_data_blocks, enomem,
}
use klee_testfs.Block.{write_blocks, zero_blocks, read_blocks, zero_block}
use klee_testfs.Tx.{tx_start, tx_commit}
use klee_testfs.Csum.{max_nr_csums}
use klee_testfs.Inode.Cache.{inode_hash_init, inode_hash_destroy, dinode_size}

-- The packed struct dsuper_block: five ints and an 8-byte time_t.
unfoldable pub encode_dsuper : DsuperBlock → Bytes
encode_dsuper d =
    bytes_of (u32_of_int d.inode_freemap_start)
    ++ (bytes_of (u32_of_int d.block_freemap_start)
        ++ (bytes_of (u32_of_int d.csum_table_start)
            ++ (bytes_of (u32_of_int d.inode_blocks_start)
                ++ (bytes_of (u32_of_int d.data_blocks_start)
                    ++ (bytes_of (d.modification_time % 2 ^ 32)
                        ++ bytes_of (d.modification_time / 2 ^ 32 % 2 ^ 32))))))

unfoldable pub decode_dsuper : Bytes → DsuperBlock
decode_dsuper bs = record {
  inode_freemap_start = get_int bs 0;
  block_freemap_start = get_int bs 1;
  csum_table_start = get_int bs 2;
  inode_blocks_start = get_int bs 3;
  data_blocks_start = get_int bs 4;
  modification_time = get_word bs 5 + get_word bs 6 * 2 ^ 32;
}

abbrev pub dsuper_size : ℕ
dsuper_size = 28

unfoldable pub write_super_block : M (Unit {0})
write_super_block = do
  assert (leb dsuper_size block_size)
  m ← get
  let dsb = record (m.sb.dsb) { modification_time = m.time }
  put (record m { sb = record (m.sb) { dsb = dsb } })
  write_blocks (encode_dsuper dsb ++ replicate (block_size - dsuper_size) 0) (pos 0) 1

-- What calloc leaves, with the start of each part filled in.
abbrev pub layout : DsuperBlock
layout =
    let a = pos super_block_size in
    let b = a +ℤ pos inode_freemap_size in
    let c = b +ℤ pos block_freemap_size in
    let d = c +ℤ pos csum_table_size in
    record {
      inode_freemap_start = a;
      block_freemap_start = b;
      csum_table_start = c;
      inode_blocks_start = d;
      data_blocks_start = d +ℤ pos nr_inode_blocks;
      modification_time = 0;
    }

abbrev pub made_super_block : SuperBlock
made_super_block = record {
  dsb = layout;
  inode_freemap = none;
  block_freemap = none;
  tx_in_progress = tx_none;
  csum_table = none;
}

-- if (!p) EXIT
abbrev pub or_exit : Bool → M (Unit {0})
or_exit true = pure tt
or_exit false = abort exited

-- fopen(file, "w") truncates the image and is taken to succeed.
unfoldable pub make_super_block : M (Unit {0})
make_super_block = do
  granted ← malloc
  or_exit granted
  m ← get
  put (record m { dev = record { blocks = []; position = 0 }; sb = made_super_block })
  write_super_block
  inode_hash_init

unfoldable pub make_inode_freemap : M (Unit {0})
make_inode_freemap = do m ← get; zero_blocks m.sb.dsb.inode_freemap_start inode_freemap_size

unfoldable pub make_block_freemap : M (Unit {0})
make_block_freemap = do m ← get; zero_blocks m.sb.dsb.block_freemap_start block_freemap_size

unfoldable pub make_csum_table : M (Unit {0})
make_csum_table = do
  assert (ltb nr_data_blocks max_nr_csums)
  m ← get
  zero_blocks m.sb.dsb.csum_table_start csum_table_size

unfoldable pub make_inode_blocks : M (Unit {0})
make_inode_blocks = do
  assert (block_size % dinode_size == 0)
  m ← get
  zero_blocks m.sb.dsb.inode_blocks_start nr_inode_blocks

-- bitmap_create, with its allocations: `none` is -ENOMEM.
unfoldable pub bitmap_create : ℕ → M (Option Bitmap)
bitmap_create nbits = do
  first ← malloc
  if not first then pure none else do
    second ← malloc
    if not second then pure none else do b ← expect assertion (Bitmap.create nbits); pure (some b)

-- read_blocks into bitmap_getdata(b)
abbrev pub load_bitmap : Bitmap → ℤ → ℕ → M Bitmap
load_bitmap b start size = do v ← read_blocks start size; pure (record b { v = v })

-- The part of testfs_init_super_block that follows the free maps.
unfoldable pub init_csum_table : M ℤ
init_csum_table = do
  granted ← malloc
  if not granted then pure (minus enomem) else do
    m ← get
    table ← read_blocks m.sb.dsb.csum_table_start csum_table_size
    m ← get
    put (record m { sb = record (m.sb) { csum_table = some table; tx_in_progress = tx_none } })
    inode_hash_init
    pure (pos 0)

unfoldable pub init_block_freemap : M ℤ
init_block_freemap = do
  created ← bitmap_create (block_size * block_freemap_size * bits_per_word)
  elim created [
    | none ↦ pure (minus enomem)
    | some b ↦ do
      m ← get
      b ← load_bitmap b m.sb.dsb.block_freemap_start block_freemap_size
      m ← get
      put (record m { sb = record (m.sb) { block_freemap = some b } })
      init_csum_table
  ]

unfoldable pub init_inode_freemap : M ℤ
init_inode_freemap = do
  created ← bitmap_create (block_size * inode_freemap_size * bits_per_word)
  elim created [
    | none ↦ pure (minus enomem)
    | some b ↦ do
      m ← get
      b ← load_bitmap b m.sb.dsb.inode_freemap_start inode_freemap_size
      m ← get
      put (record m { sb = record (m.sb) { inode_freemap = some b } })
      init_block_freemap
  ]

-- testfs_init_super_block; opening the file is taken to succeed and starts at its beginning.
unfoldable pub init_super_block : M ℤ
init_super_block = do
  granted ← malloc
  if not granted then pure (minus enomem) else do
    m ← get
    put (record m { dev = record (m.dev) { position = 0 } })
    block ← read_blocks (pos 0) 1
    m ← get
    put (record m {
      sb = record made_super_block { dsb = decode_dsuper (slice 0 dsuper_size block) };
    })
    init_inode_freemap

-- Each map that is there is written whole and freed.
unfoldable pub close_inode_freemap : Option Bitmap → M (Unit {0})
close_inode_freemap none = pure tt
close_inode_freemap (some b) = do
  m ← get
  write_blocks b.v m.sb.dsb.inode_freemap_start inode_freemap_size
  m ← get
  put (record m { sb = record (m.sb) { inode_freemap = none } })

unfoldable pub close_block_freemap : Option Bitmap → M (Unit {0})
close_block_freemap none = pure tt
close_block_freemap (some b) = do
  m ← get
  write_blocks b.v m.sb.dsb.block_freemap_start block_freemap_size
  m ← get
  put (record m { sb = record (m.sb) { block_freemap = none } })

unfoldable pub close_super_block : M (Unit {0})
close_super_block = do
  tx_start tx_umount
  write_super_block
  inode_hash_destroy
  m ← get
  close_inode_freemap m.sb.inode_freemap
  m ← get
  close_block_freemap m.sb.block_freemap
  tx_commit tx_umount
