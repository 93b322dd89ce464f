-- ===== src/Super/Mount/Restart.antt =====
-- super.c: testfs_init_super_block on the image of a file system that was mounted.
use klee_testfs.Common.{
  ℕ, ◌+◌, ◌^◌, ◌<◌, ◌≡◌, refl, sym, ap, ◌∙◌, none, some, [], ◌++◌, ℤ, pos, replicate, get_elem?,
  slice, IsInt, subst, arith,
}
use klee_testfs.Bytes.{Bytes, get_int, get_word}
use klee_testfs.Bitmap.{Bitmap}
use klee_testfs.Bitmap.Create.{create_lem}
use klee_testfs.Machine.{Machine, SuperBlock, DsuperBlock, ok, pure, malloc, tx_none, assertion}
use klee_testfs.Machine.Run.{then_ok, expect_then}
use klee_testfs.Block.{read_blocks}
use klee_testfs.Block.Laws.{read_one, take-length}
use klee_testfs.Block.Reads.{read_slices}
use klee_testfs.Inode.Cache.{inode_hash_init}
use klee_testfs.Super.Mounted.{Mounted}
use klee_testfs.Super.Mount.{
  encode_dsuper, decode_dsuper, made_super_block, bitmap_create, init_csum_table,
  init_block_freemap, init_inode_freemap, init_super_block,
}
use klee_testfs.Super.Mount.Laws.{IsDsuper, decode_dsuper-encode_dsuper}

-- The program started again on the image of `m`: no inode is in memory, and no allocation fails.
abbrev pub restarted : Machine → SuperBlock → Machine
restarted m sb = record m {
  dev = record (m.dev) { position = 0 };
  sb = sb;
  heap = [];
  hash_table = none;
  mallocs = [];
}

same_bitmap : (b c : Bitmap) → b.nbits ≡ c.nbits → record b { v = c.v } ≡ c
same_bitmap b c h = λ i. record { nbits = h i; v = c.v }

decode-block :
    (d : DsuperBlock)
    → decode_dsuper (slice 0 28 (encode_dsuper d ++ replicate 36 0))
      ≡ decode_dsuper (encode_dsuper d ++ replicate 36 0)
unfolding decode_dsuper encode_dsuper get_int get_word slice
decode-block d = refl

module _ {m : Machine} {inodes blocks : Bitmap} {table : Bytes}
    (is : Mounted m inodes blocks table) where
  abbrev d : DsuperBlock
  d = m.sb.dsb

  abbrev with_dsb : SuperBlock
  with_dsb = record made_super_block { dsb = d }

  abbrev with_inodes : SuperBlock
  with_inodes = record with_dsb { inode_freemap = some inodes }

  abbrev with_blocks : SuperBlock
  with_blocks = record with_inodes { block_freemap = some blocks }

  abbrev with_table : SuperBlock
  with_table = record with_blocks { csum_table = some table; tx_in_progress = tx_none }

  abbrev mounted_again : Machine
  mounted_again = record (restarted m with_table) { hash_table = some (replicate 256 []) }

  bitmap_create-restarted :
      (sb : SuperBlock) (n : ℕ) (c : Bitmap)
      → n + 7 < 2 ^ 32
      → c.nbits ≡ n
      → (b : Bitmap) × (bitmap_create n (restarted m sb) ≡ ok (some b) (restarted m sb))
        × (record b { v = c.v } ≡ c)
  unfolding bitmap_create malloc
  bitmap_create-restarted sb n c small size =
      let (b, made, nbits, valid, clear) = create_lem n small in
      (
        b,
        expect_then assertion (λ b. pure (some b)) (restarted m sb) made,
        same_bitmap b c (nbits ∙ sym size),
      )

  read_table :
      read_blocks d.csum_table_start 60 (restarted m with_blocks)
      ≡ ok table (restarted m with_blocks)
  read_table =
      ap (λ z. read_blocks z 60 (restarted m with_blocks)) is.csum_table_start
      ∙ read_slices table 4 (restarted m with_blocks) 60 is.csums is.length_table

  read_block_map :
      read_blocks d.block_freemap_start 2 (restarted m with_inodes)
      ≡ ok blocks.v (restarted m with_inodes)
  read_block_map =
      ap (λ z. read_blocks z 2 (restarted m with_inodes)) is.block_freemap_start
      ∙ read_slices blocks.v 2 (restarted m with_inodes) 2 is.block_map
          (omega (arith, is.blocks_valid.words, is.nr_blocks))

  read_inode_map :
      read_blocks d.inode_freemap_start 1 (restarted m with_dsb)
      ≡ ok inodes.v (restarted m with_dsb)
  unfolding slice
  read_inode_map =
      ap (λ z. read_blocks z 1 (restarted m with_dsb)) is.inode_freemap_start
      ∙ read_one 1 (restarted m with_dsb) inodes.v (
          is.inode_map
          ∙ ap some (take-length 64 inodes.v (omega (arith, is.inodes_valid.words, is.nr_inodes))))

  init_csum_table-restarted : init_csum_table (restarted m with_blocks) ≡ ok (pos 0) mounted_again
  unfolding init_csum_table malloc inode_hash_init
  init_csum_table-restarted = then_ok _ read_table

  init_block_freemap-restarted :
      init_block_freemap (restarted m with_inodes) ≡ ok (pos 0) mounted_again
  unfolding init_block_freemap
  init_block_freemap-restarted =
      let (b, made, same) =
        bitmap_create-restarted with_inodes 1024 blocks (omega arith) is.nr_blocks in
      then_ok _ made
      ∙ then_ok _ (then_ok _ read_block_map)
      ∙ ap (λ c. init_csum_table (restarted m (record with_inodes { block_freemap = some c }))) same
      ∙ init_csum_table-restarted

  init_inode_freemap-restarted :
      init_inode_freemap (restarted m with_dsb) ≡ ok (pos 0) mounted_again
  unfolding init_inode_freemap
  init_inode_freemap-restarted =
      let (b, made, same) =
        bitmap_create-restarted with_dsb 512 inodes (omega arith) is.nr_inodes in
      then_ok _ made
      ∙ then_ok _ (then_ok _ read_inode_map)
      ∙ ap (λ c. init_block_freemap (restarted m (record with_dsb { inode_freemap = some c }))) same
      ∙ init_block_freemap-restarted

  dsb-IsDsuper : d.modification_time < 2 ^ 64 → IsDsuper d
  dsb-IsDsuper h = record {
    inode_freemap_fits = small is.inode_freemap_start (omega arith);
    block_freemap_fits = small is.block_freemap_start (omega arith);
    csum_table_fits = small is.csum_table_start (omega arith);
    inode_blocks_fits = small is.inode_blocks_start (omega arith);
    data_blocks_fits = small is.data_blocks_start (omega arith);
    time_fits = h;
  }
    where
      small : {z : ℤ} {n : ℕ} → z ≡ pos n → n < 2147483648 → IsInt z
      small e h = subst IsInt (sym e) h

  mounted_again-Mounted : Mounted mounted_again inodes blocks table
  mounted_again-Mounted = record {
    inode_freemap_start = is.inode_freemap_start;
    block_freemap_start = is.block_freemap_start;
    csum_table_start = is.csum_table_start;
    inode_blocks_start = is.inode_blocks_start;
    data_blocks_start = is.data_blocks_start;
    inode_freemap = refl;
    block_freemap = refl;
    csum_table = refl;
    inodes_valid = is.inodes_valid;
    blocks_valid = is.blocks_valid;
    nr_inodes = is.nr_inodes;
    nr_blocks = is.nr_blocks;
    length_table = is.length_table;
    image = is.image;
    fits = is.fits;
    inode_map = is.inode_map;
    block_map = is.block_map;
    csums = is.csums;
  }

  -- A mounted file system survives the end of the program: testfs_init_super_block, run anew on its
  -- image when the superblock there is the one in memory, with a time of 64 bits, and when no
  -- allocation fails, returns 0 and restores the free maps and the checksum table, in a state that
  -- is mounted again and has the same image.
  pub init_super_block-Mounted :
      (sb : SuperBlock)
      → d.modification_time < 2 ^ 64
      → get_elem? m.dev.blocks 0 ≡ some (encode_dsuper d ++ replicate 36 0)
      → (n : Machine) × (init_super_block (restarted m sb) ≡ ok (pos 0) n)
        × Mounted n inodes blocks table
        × (n.dev.blocks ≡ m.dev.blocks)
  unfolding init_super_block malloc
  init_super_block-Mounted sb time there = (
    mounted_again,
    then_ok _ (read_one 0 (restarted m sb) (encode_dsuper d ++ replicate 36 0) there)
        ∙ ap (λ e. init_inode_freemap (restarted m (record made_super_block { dsb = e })))
            (decode-block d ∙ decode_dsuper-encode_dsuper d (dsb-IsDsuper time))
        ∙ init_inode_freemap-restarted,
    mounted_again-Mounted,
    refl,
  )
