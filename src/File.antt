-- ===== src/File.antt =====
-- file.c: cat, write, owrite and oread. A command returns its result and the context, whose current
-- directory may stand at a new address. A buffer that testfs_read_data did not fill is printed
-- uninitialised there, which is undefined behaviour here. catr is in Catr.
pub mod Catr
pub mod Contents
pub mod Rounds
use klee_testfs.Common.{
  ℕ, zero, suc, ◌+◌, ◌-◌, not, none, some, [], ◌∷◌, ◌++◌, ℤ, pos, negsuc, is_neg, is_pos, is_zero,
  le_int, minus, length, ltb, leb, ◌==◌, if◌then◌else◌, u32_of_int, int_of_u32,
}
use klee_testfs.Bytes.{Bytes}
use klee_testfs.Machine.{
  Ptr, M, undefined, pure, ◌>>=◌, ◌>>◌, abort, assert, store, block_size, expect, malloc, printf,
  text, fetch, i_dir, enomem, einval, eisdir, tx_write,
}
use klee_testfs.Tx.{tx_start, tx_commit}
use klee_testfs.Inode.Cache.{get_inode, put_inode, sync_inode}
use klee_testfs.Inode.Blocks.{allocate_block}
use klee_testfs.Inode.Data.{with_size, read_data, write_data, truncate_data}
use klee_testfs.Text.{c_string, strtol}
use klee_testfs.Dir.Path.{Context, argument, resolve}

abbrev pub newline : Bytes
newline = 10 ∷ []

-- printf("%s\n", buf), with the zero that is put behind the data.
unfoldable pub print_buffer : ℤ × Bytes → M (Unit {0})
print_buffer (negsuc e, buf) = abort undefined
print_buffer (pos n, buf) = do
  s ← expect undefined (c_string (buf ++ 0 ∷ []))
  printf (text (s ++ newline) ∷ [])

-- The part of a round of cmd_cat in which the inode is held.
unfoldable pub cat_inode : Ptr → M ℤ
cat_inode p = do
  i ← fetch p
  if i.din.i_type == i_dir then pure (minus eisdir) else elim i.din.i_size [
    | negsuc n ↦ pure (pos 0)
    | pos sz ↦ if sz == 0 then pure (pos 0) else do
      granted ← malloc
      if not granted
          then pure (minus enomem)
          else do read ← read_data p 0 sz; print_buffer read; pure (pos 0)
  ]

-- testfs_put_inode(in) at the label `out`.
unfoldable pub released : Ptr → M ℤ → M ℤ
released p body = do ret ← body; put_inode p; pure ret

-- The loop over the arguments from `i` on, with `left` rounds to go.
unfoldable pub cat_from : ℕ → ℕ → Context → M (ℤ × Context)
cat_from zero i c = pure (pos 0, c)
cat_from (suc left) i c = do
  name ← argument c i
  (inode_nr, c) ← resolve c name
  elim inode_nr [
    | negsuc e ↦ pure (negsuc e, c)
    | pos nr ↦ do
      p ← get_inode nr
      ret ← released p (cat_inode p)
      if is_zero ret then cat_from left (i + 1) c else pure (ret, c)
  ]

unfoldable pub cmd_cat : Context → M (ℤ × Context)
cmd_cat c = if ltb c.nargs 2 then pure (minus einval, c) else cat_from (c.nargs - 1) 1 c

-- A value converted to int.
abbrev pub to_int : ℤ → ℤ
to_int z = int_of_u32 (u32_of_int z)

-- testfs_write_data at a negative offset -(n + 1), which only a long out of int's range gives: the
-- block's number is negative from -64 on; before that it is 0, and the copy is out of its bounds,
-- unless there is no such block. The size stays as it was then.
unfoldable pub write_before : Ptr → ℕ → M ℤ
write_before p n = do
  i ← fetch p
  assert (le_int (negsuc n) i.din.i_size)
  assert (ltb n (block_size - 1))
  (block_nr, block) ← allocate_block p 0
  if is_neg block_nr
      then (do i ← fetch p; store p (with_size i i.din.i_size); pure block_nr)
      else (do assert (is_pos block_nr); abort undefined)

-- testfs_write_data and testfs_truncate_data at an offset.
unfoldable pub write_at : Ptr → ℤ → Bytes → M ℤ
write_at p (negsuc n) content = write_before p n
write_at p (pos offset) content = do
  ret ← write_data p offset content
  if is_neg ret then pure ret else do truncate_data p (length content + offset); pure ret

-- The part of cmd_write and cmd_owrite in which the inode is held.
unfoldable pub write_inode : Ptr → ℤ → Bytes → M ℤ
write_inode p offset content = do
  i ← fetch p
  if i.din.i_type == i_dir then pure (minus eisdir) else do
    tx_start tx_write
    ret ← write_at p offset content
    sync_inode p
    tx_commit tx_write
    pure ret

-- Both commands from the lookup on.
unfoldable pub write_file : Context → Bytes → ℤ → Bytes → M (ℤ × Context)
write_file c filename offset content = do
  (inode_nr, c) ← resolve c filename
  elim inode_nr [
    | negsuc e ↦ pure (negsuc e, c)
    | pos nr ↦ do p ← get_inode nr; ret ← released p (write_inode p offset content); pure (ret, c)
  ]

unfoldable pub cmd_write : Context → M (ℤ × Context)
cmd_write c =
    if not (c.nargs == 3)
    then pure (minus einval, c)
    else do filename ← argument c 1; content ← argument c 2; write_file c filename (pos 0) content

unfoldable pub owrite_at : Context → Bytes → Bytes → ℤ → M (ℤ × Context)
owrite_at c filename content offset =
    if is_neg offset then pure (minus einval, c) else write_file c filename (to_int offset) content

unfoldable pub cmd_owrite : Context → M (ℤ × Context)
cmd_owrite c = if not (c.nargs == 4) then pure (minus einval, c) else do
  filename ← argument c 1
  content ← argument c 3
  offset ← argument c 2
  elim (strtol offset) [
    | none ↦ pure (minus einval, c)
    | some offset ↦ owrite_at c filename content offset
  ]

-- The part of cmd_oread in which the inode is held: the size cut to the file.
unfoldable pub oread_inode : Ptr → ℕ → ℕ → M ℤ
oread_inode p offset size = do
  i ← fetch p
  if i.din.i_type == i_dir then pure (minus eisdir) else elim i.din.i_size [
    | negsuc n ↦ pure (pos 0)
    | pos file_size ↦
        if file_size == 0
        then pure (pos 0)
        else if leb file_size offset
        then pure (minus einval)
        else do
          granted ← malloc
          if not granted then pure (minus enomem) else do
            read ←
                read_data p offset
                  (if ltb file_size (offset + size) then file_size - offset else size)
            print_buffer read
            pure (pos 0)
  ]

unfoldable pub oread_at : Context → Bytes → ℕ → ℕ → M (ℤ × Context)
oread_at c filename offset size = if size == 0 then pure (pos 0, c) else do
  (inode_nr, c) ← resolve c filename
  elim inode_nr [
    | negsuc e ↦ pure (negsuc e, c)
    | pos nr ↦ do p ← get_inode nr; ret ← released p (oread_inode p offset size); pure (ret, c)
  ]

-- Negative arguments are refused.
unfoldable pub oread_range : Context → Bytes → ℤ → ℤ → M (ℤ × Context)
oread_range c filename (negsuc n) size = pure (minus einval, c)
oread_range c filename (pos offset) (negsuc n) = pure (minus einval, c)
oread_range c filename (pos offset) (pos size) = oread_at c filename offset size

unfoldable pub cmd_oread : Context → M (ℤ × Context)
cmd_oread c = if not (c.nargs == 4) then pure (minus einval, c) else do
  filename ← argument c 1
  first ← argument c 2
  second ← argument c 3
  elim (strtol first) [
    | none ↦ pure (minus einval, c)
    | some offset ↦ elim (strtol second) [
      | none ↦ pure (minus einval, c)
      | some size ↦ oread_range c filename offset (to_int size)
    ]
  ]
