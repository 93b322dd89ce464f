-- ===== src/Mktestfs/Image.antt =====
-- mktestfs.c: the image that is made is that of an empty file system, and it can be mounted.
use klee_testfs.Common.{
  ℕ, zero, suc, ◌+◌, ◌*◌, ◌^◌, ◌<◌, ◌≡◌, refl, sym, ap, ◌∙◌, some, List, [], ◌∷◌, ◌++◌, pos,
  replicate, length, length-append, get_elem?, slice, arith,
}
use mathlib.Core.List.{append_assoc, append-nil}
use klee_testfs.Bytes.{Bytes}
use klee_testfs.Machine.{Machine, SuperBlock, DsuperBlock, ok, malloc}
use klee_testfs.Machine.Run.{then_ok}
use klee_testfs.Block.{zero_block, put_block, zero_blocks}
use klee_testfs.Block.Laws.{write_one}
use klee_testfs.Tx.{tx_start, tx_commit}
use klee_testfs.Inode.Cache.{inode_hash_init, inode_hash_destroy, all_empty}
use klee_testfs.Super.Mounted.{Mounted}
use klee_testfs.Super.Empty.{
  get_elem?-replicate, length-blocks, replicate-IsImage, length-replicate, slice-replicate,
  no_inodes, no_blocks, no_csums, no_inodes-IsValid, no_blocks-IsValid,
}
use klee_testfs.Super.Mount.{
  layout, made_super_block, encode_dsuper, write_super_block, make_super_block, make_inode_freemap,
  make_block_freemap, make_csum_table, make_inode_blocks, close_super_block, close_inode_freemap,
  close_block_freemap,
}
use klee_testfs.Super.Mount.Restart.{restarted, init_super_block-Mounted}
use klee_testfs.Mktestfs.{make_image}

-- The state with another image.
abbrev with_image : Machine → List Bytes → Machine
with_image m bs = record m { dev = record (m.dev) { blocks = bs } }

put_block-end : (bs : List Bytes) (b : Bytes) → put_block bs (length bs) b ≡ bs ++ b ∷ []
unfolding put_block
put_block-end [] b = refl
put_block-end (x ∷ bs) b = ap (λ r. x ∷ r) (put_block-end bs b)

-- Zeroing from the end of the image on makes it longer.
zero_blocks-end :
    (nr : ℕ) (bs : List Bytes) (m : Machine)
    → zero_blocks (pos (length bs)) nr (with_image m bs)
      ≡ ok tt (with_image m (bs ++ replicate nr zero_block))
unfolding zero_blocks
zero_blocks-end zero bs m = ap (λ r. ok tt (with_image m r)) (sym (append-nil bs))
zero_blocks-end (suc nr) bs m =
    then_ok _ (write_one zero_block (length bs) (with_image m bs) refl)
    ∙ ap (λ r. zero_blocks (pos (length bs + 1)) nr (with_image m r)) (put_block-end bs zero_block)
    ∙ ap (λ k. zero_blocks (pos k) nr (with_image m (bs ++ zero_block ∷ [])))
        (sym (length-append bs (zero_block ∷ [])))
    ∙ zero_blocks-end nr (bs ++ zero_block ∷ []) m
    ∙ ap (λ r. ok tt (with_image m r)) (append_assoc bs (zero_block ∷ []) (replicate nr zero_block))

module _ (m : Machine) (sb : SuperBlock) where
  abbrev dsb : DsuperBlock
  dsb = record layout { modification_time = m.time }

  abbrev first_block : Bytes
  first_block = encode_dsuper dsb ++ replicate 36 0

  abbrev with_inodes : List Bytes
  with_inodes = first_block ∷ [] ++ replicate 1 zero_block

  abbrev with_blocks : List Bytes
  with_blocks = with_inodes ++ replicate 2 zero_block

  abbrev with_table : List Bytes
  with_table = with_blocks ++ replicate 60 zero_block

  abbrev image : List Bytes
  image = with_table ++ replicate 128 zero_block

  -- The state while the image is made.
  abbrev making : Machine
  making = record (restarted m (record made_super_block { dsb = dsb })) {
    hash_table = some (replicate 256 []);
  }

  length-first_block : length first_block ≡ 64
  unfolding encode_dsuper
  length-first_block = refl

  make_super_block-restarted :
      make_super_block (restarted m sb) ≡ ok tt (with_image making (first_block ∷ []))
  unfolding make_super_block write_super_block malloc inode_hash_init put_block
  make_super_block-restarted = then_ok _ (write_one first_block 0 _ length-first_block)

  make_inode_freemap-image :
      make_inode_freemap (with_image making (first_block ∷ []))
      ≡ ok tt (with_image making with_inodes)
  unfolding make_inode_freemap
  make_inode_freemap-image = zero_blocks-end 1 (first_block ∷ []) making

  make_block_freemap-image :
      make_block_freemap (with_image making with_inodes) ≡ ok tt (with_image making with_blocks)
  unfolding make_block_freemap
  make_block_freemap-image = zero_blocks-end 2 with_inodes making

  make_csum_table-image :
      make_csum_table (with_image making with_blocks) ≡ ok tt (with_image making with_table)
  unfolding make_csum_table
  make_csum_table-image = zero_blocks-end 60 with_blocks making

  make_inode_blocks-image :
      make_inode_blocks (with_image making with_table) ≡ ok tt (with_image making image)
  unfolding make_inode_blocks
  make_inode_blocks-image = zero_blocks-end 128 with_table making

  -- The file system that the image stands for, mounted.
  abbrev made : Machine
  made =
      record (restarted m (record made_super_block {
        dsb = dsb;
        inode_freemap = some no_inodes;
        block_freemap = some no_blocks;
        csum_table = some no_csums;
      })) { dev = record { blocks = image; position = 0 } }

  close_super_block-image :
      close_super_block (with_image making image)
      ≡ ok tt (restarted made (record made_super_block { dsb = dsb }))
  unfolding close_super_block tx_start tx_commit write_super_block inode_hash_destroy all_empty
      close_inode_freemap close_block_freemap put_block
  close_super_block-image = then_ok _ (write_one first_block 0 _ length-first_block)

  tables : (j : ℕ) → j < 60 → get_elem? image (4 + j) ≡ some (slice (j * 64) 64 no_csums)
  tables j h =
      ap (get_elem? image) past_maps
      ∙ get_elem?-replicate 191 (j + 3) zero_block (omega arith)
      ∙ ap some (sym (slice-replicate (j * 64) 64 3840 0 (omega arith)))
    where
      past_maps : 4 + j ≡ suc (j + 3)
      past_maps = omega arith

  in_block_map : (j : ℕ) → j < 2 → get_elem? image (2 + j) ≡ some (slice (j * 64) 64 no_blocks.v)
  unfolding slice
  in_block_map zero h = refl
  in_block_map (suc zero) h = refl
  in_block_map (suc (suc j)) h = absurd (omega arith)

  made-Mounted : Mounted made no_inodes no_blocks no_csums
  unfolding slice
  made-Mounted = record {
    inode_freemap_start = refl;
    block_freemap_start = refl;
    csum_table_start = refl;
    inode_blocks_start = refl;
    data_blocks_start = refl;
    inode_freemap = refl;
    block_freemap = refl;
    csum_table = refl;
    inodes_valid = no_inodes-IsValid;
    blocks_valid = no_blocks-IsValid;
    nr_inodes = refl;
    nr_blocks = refl;
    length_table = length-replicate 3840 0;
    image = (length-first_block, replicate-IsImage 191);
    fits = omega (arith, length-blocks 191 zero_block);
    inode_map = refl;
    block_map = in_block_map;
    csums = tables;
  }

  -- mktestfs makes a file system that can be mounted: up to the root directory, run with no inode in
  -- memory, where no allocation fails and the time has 64 bits, it succeeds, and the state is then
  -- that of a mounted file system with every bit of both maps clear and every checksum zero.
  pub make_image-Mounted :
      m.time < 2 ^ 64
      → (n : Machine) × (make_image (restarted m sb) ≡ ok (pos 0) n)
        × Mounted n no_inodes no_blocks no_csums
  unfolding make_image
  make_image-Mounted time =
      let (n, run, mounted, same) =
        init_super_block-Mounted made-Mounted (record made_super_block { dsb = dsb }) time refl in
      (
        n,
        then_ok _ make_super_block-restarted
            ∙ then_ok _ make_inode_freemap-image
            ∙ then_ok _ make_block_freemap-image
            ∙ then_ok _ make_csum_table-image
            ∙ then_ok _ make_inode_blocks-image
            ∙ then_ok _ close_super_block-image
            ∙ run,
        mounted,
      )
