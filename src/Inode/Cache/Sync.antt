-- ===== src/Inode/Cache/Sync.antt =====
-- testfs_sync_inode of inode.c: an inode written to its place in the inode blocks.
use klee_testfs.Common.{
  ℕ, ◌+◌, ◌/◌, ◌≤◌, ◌<◌, ◌≡◌, ap, sym, ◌∙◌, true, false, some, pos, ◌+ℤ◌, get_elem?, length, slice,
  splice, lt→ltb, slice-splice, length-splice, arith,
}
use klee_testfs.Bytes.{Bytes}
use klee_testfs.Bitmap.{Bitmap}
use klee_testfs.Machine.{Machine, Inode, Dinode, Ptr, ok, store}
use klee_testfs.Machine.Run.{then_ok, assert_then}
use klee_testfs.Block.Laws.{
  written, IsImage-get_elem?, read_one_at, write_one_at, get_elem?-put_block_self,
}
use klee_testfs.Super.Mounted.{Mounted}
use klee_testfs.Inode.Cache.{
  encode_dinode, decode_dinode, inode_to_block_nr, inode_to_block_offset, read_inode_block,
  write_inode_block, sync_inode,
}
use klee_testfs.Inode.Cache.Laws.{
  IsDinode, length-encode_dinode, decode_dinode-encode_dinode, Holds, fetch-ok, with_inode,
  Holds-with_inode,
}

module _ (nr : ℕ) (m : Machine) (start : m.sb.dsb.inode_blocks_start ≡ pos 64)
    (inside : nr < 256) where
  read_inode_block-ok :
      (block : Bytes)
      → get_elem? m.dev.blocks (64 + nr / 2) ≡ some block
      → read_inode_block nr m ≡ ok block m
  unfolding read_inode_block inode_to_block_nr
  read_inode_block-ok block there =
      then_ok _ in_range
      ∙ read_one_at (64 + nr / 2) m (ap (λ z. z +ℤ pos (nr / 2)) start) block there
    where
      in_range : inode_to_block_nr nr m ≡ ok (nr / 2) m
      in_range = assert_then _ m (lt→ltb (nr / 2) 128 (omega arith))

  write_inode_block-ok :
      (block : Bytes)
      → length block ≡ 64
      → write_inode_block nr block m ≡ ok tt (written m (64 + nr / 2) block)
  unfolding write_inode_block inode_to_block_nr
  write_inode_block-ok block size =
      then_ok _ in_range
      ∙ write_one_at (64 + nr / 2) m (ap (λ z. z +ℤ pos (nr / 2)) start) block size
    where
      in_range : inode_to_block_nr nr m ≡ ok (nr / 2) m
      in_range = assert_then _ m (lt→ltb (nr / 2) 128 (omega arith))

-- A block of inodes with one of them replaced.
abbrev with_dinode : ℕ → Dinode → Bytes → Bytes
with_dinode nr d block = splice (inode_to_block_offset nr) (encode_dinode d) block

offset_fits : (nr : ℕ) → inode_to_block_offset nr + 32 ≤ 64
unfolding inode_to_block_offset
offset_fits nr = omega arith

module _ (nr : ℕ) (d : Dinode) (block : Bytes) (size : length block ≡ 64) where
  length-with_dinode : length (with_dinode nr d block) ≡ 64
  length-with_dinode =
      length-splice (inode_to_block_offset nr) (encode_dinode d) block
        (omega (arith, offset_fits nr, size, length-encode_dinode d))
      ∙ size

  slice-with_dinode : slice (inode_to_block_offset nr) 32 (with_dinode nr d block) ≡ encode_dinode d
  slice-with_dinode =
      ap (λ n. slice (inode_to_block_offset nr) n (with_dinode nr d block))
        (sym (length-encode_dinode d))
      ∙ slice-splice (inode_to_block_offset nr) (encode_dinode d) block
          (omega (arith, offset_fits nr, size))

module _ {m : Machine} {inodes blocks : Bitmap} {table : Bytes} (is : Mounted m inodes blocks table)
    (p : Ptr) {i : Inode} (holds : Holds m p i) (inside : i.i_nr < 256) {block : Bytes}
    (there : get_elem? m.dev.blocks (64 + i.i_nr / 2) ≡ some block) where
  abbrev pub stored_block : Bytes
  stored_block = with_dinode i.i_nr i.din block

  -- What testfs_sync_inode leaves: the inode's block written, and then the inode clean.
  abbrev pub synced : Machine
  synced = with_inode (written m (64 + i.i_nr / 2) stored_block) p (record i { dirty = false })

  size : length block ≡ 64
  size = IsImage-get_elem? m.dev.blocks (64 + i.i_nr / 2) block is.image there

  pub length-stored_block : length stored_block ≡ 64
  length-stored_block = length-with_dinode i.i_nr i.din block size

  pub sync_inode-ok : i.dirty ≡ true → sync_inode p m ≡ ok tt synced
  unfolding sync_inode store
  sync_inode-ok dirty =
      then_ok _ (fetch-ok m p holds)
      ∙ assert_then _ m dirty
      ∙ then_ok _ (read_inode_block-ok i.i_nr m is.inode_blocks_start inside block there)
      ∙ then_ok _ (
          write_inode_block-ok i.i_nr m is.inode_blocks_start inside stored_block
            length-stored_block)

  -- testfs_sync_inode of a dirty inode on a mounted file system, whose number is below the 256 that the
  -- inode blocks hold: it succeeds, the inode in memory is clean and otherwise as it was, and decoding
  -- its place in the inode block that is read back gives the inode's fields.
  pub sync_inode_lem :
      IsDinode i.din
      → i.dirty ≡ true
      → (n : Machine) × (c : Bytes) × (sync_inode p m ≡ ok tt n)
        × Holds n p (record i { dirty = false })
        × (read_inode_block i.i_nr n ≡ ok c n)
        × (decode_dinode (slice (inode_to_block_offset i.i_nr) 32 c) ≡ i.din)
  sync_inode_lem fits dirty = (
    synced,
    stored_block,
    sync_inode-ok dirty,
    Holds-with_inode (written m (64 + i.i_nr / 2) stored_block) p (record i { dirty = false })
        holds,
    read_inode_block-ok i.i_nr synced is.inode_blocks_start inside stored_block
        (get_elem?-put_block_self m.dev.blocks (64 + i.i_nr / 2) stored_block),
    ap decode_dinode (slice-with_dinode i.i_nr i.din block size)
        ∙ decode_dinode-encode_dinode i.din fits,
  )
