-- ===== src/Super/Check.antt =====
-- super.c: checkfs, which walks the tree from the root and compares the maps that it draws up with
-- those of the file system.
use klee_testfs.Common.{
  ℕ, zero, suc, ◌+◌, ◌-◌, ◌*◌, ◌/◌, Bool, true, false, not, ◌||◌, none, some, [], ◌∷◌, ℤ, pos,
  negsuc, eq_int, minus, ◌==◌, if◌then◌else◌,
}
use klee_testfs.Bitmap.{Bitmap, bits_per_word}
use klee_testfs.Bitmap
use klee_testfs.Text.{codes}
use klee_testfs.Bytes.{Bytes}
use klee_testfs.Machine.{
  Ptr, M, undefined, assertion, out_of_fuel, pure, ◌>>=◌, ◌>>◌, abort, get, assert, expect, fetch,
  printf, text, number, block_size, i_file, i_dir, inode_freemap_size, block_freemap_size, enomem,
  einval,
}
use klee_testfs.Inode.Cache.{get_inode, put_inode}
use klee_testfs.Inode.Blocks.{check_inode}
use klee_testfs.Inode.Data.{blocks_of}
use klee_testfs.Dir.Entry.{Dirent, next_dirent, rounds}
use klee_testfs.Dir.Change.{is_child}
use klee_testfs.Dir.Path.{Context}
use klee_testfs.Super.Mount.{bitmap_create}

-- The two maps as they are drawn up.
abbrev pub Maps : Type 0
Maps = Bitmap × Bitmap

-- The inode number of a child.
abbrev pub child_nr : Dirent → M ℕ
child_nr d = expect undefined (elim d.d_inode_nr [ pos n ↦ some n | negsuc n ↦ none ])

-- The loop over a directory; `visit` is the recursive call for a child.
unfoldable pub check_children : (ℕ → Maps → M Maps) → ℕ → Ptr → ℕ → Maps → M Maps
check_children visit zero p offset maps = abort out_of_fuel
check_children visit (suc fuel) p offset maps = do
  (d, offset) ← next_dirent p offset
  elim d [
    | none ↦ pure maps
    | some d ↦ do
      child ← is_child d
      if not child
          then check_children visit fuel p offset maps
          else do nr ← child_nr d; maps ← visit nr maps; check_children visit fuel p offset maps
  ]

-- ROUNDUP(size, BLOCK_SIZE). Division cuts towards zero: for the size -(n + 1) it is that of 62 - n.
abbrev pub round_up : ℤ → M ℤ
round_up (pos n) = do blocks ← blocks_of n; pure (pos (blocks * block_size))
round_up (negsuc n) = pure (minus ((n + 2 - block_size) / block_size * block_size))

-- testfs_checkfs; `depth` bounds the depth of the tree. Each inode is marked when it is visited, and
-- a second visit fails the assertion of bitmap_mark, so one round for each bit of the map and one
-- more are enough.
unfoldable pub checkfs : ℕ → ℕ → Maps → M Maps
checkfs zero inode_nr maps = abort out_of_fuel
checkfs (suc depth) inode_nr (i_freemap, b_freemap) = do
  p ← get_inode inode_nr
  i ← fetch p
  size_roundup ← round_up i.din.i_size
  assert ((i.din.i_type == i_file) || (i.din.i_type == i_dir))
  i_freemap ← expect assertion (Bitmap.mark i_freemap inode_nr)
  (i_freemap, b_freemap) ←
      (if i.din.i_type == i_dir
        then check_children (checkfs depth) (rounds i) p 0 (i_freemap, b_freemap)
        else pure (i_freemap, b_freemap))
  (size, b_freemap) ← check_inode b_freemap p
  assert (eq_int (pos size) size_roundup)
  put_inode p
  pure (i_freemap, b_freemap)

-- printf of a complaint, where the maps are not equal.
abbrev pub complain : Bool → Bytes → M (Unit {0})
complain true message = pure tt
complain false message = printf (text message ∷ [])

-- The comparisons and counts.
unfoldable pub report : Maps → M ℤ
report (i_freemap, b_freemap) = do
  m ← get
  inodes ← expect undefined m.sb.inode_freemap
  blocks ← expect undefined m.sb.block_freemap
  complain (Bitmap.equal inodes i_freemap) (codes "inode freemap is not consistent\n")
  complain (Bitmap.equal blocks b_freemap) (codes "block freemap is not consistent\n")
  printf (
      text (codes "nr of allocated inodes = ")
      ∷ number (pos (Bitmap.nr_allocated inodes))
      ∷ text (codes "\n")
      ∷ [])
  printf (
      text (codes "nr of allocated blocks = ")
      ∷ number (pos (Bitmap.nr_allocated blocks))
      ∷ text (codes "\n")
      ∷ [])
  pure (pos 0)

unfoldable pub cmd_checkfs : Context → M ℤ
cmd_checkfs c = if not (c.nargs == 1) then pure (minus einval) else do
  i_freemap ← bitmap_create (block_size * inode_freemap_size * bits_per_word)
  elim i_freemap [
    | none ↦ pure (minus enomem)
    | some i_freemap ↦ do
      b_freemap ← bitmap_create (block_size * block_freemap_size * bits_per_word)
      elim b_freemap [
        | none ↦ pure (minus enomem)
        | some b_freemap ↦ do
          maps ←
              checkfs (block_size * inode_freemap_size * bits_per_word + 1) 0 (i_freemap, b_freemap)
          report maps
      ]
  ]
