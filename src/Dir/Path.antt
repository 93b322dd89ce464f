-- ===== src/Dir/Path.antt =====
-- dir.c: the inode number that a path names, and cd.
use klee_testfs.Common.{
  ℕ, zero, suc, ◌+◌, not, ◌&&◌, Option, none, some, List, [], ◌∷◌, ℤ, pos, negsuc, minus, length,
  take, drop, get_elem?, ◌==◌, if◌then◌else◌,
}
use klee_testfs.Bytes.{Bytes}
use klee_testfs.Machine.{
  Ptr, M, undefined, out_of_fuel, pure, ◌>>=◌, ◌>>◌, abort, expect, malloc, fetch, i_dir, enomem,
  enoent, einval, enotdir,
}
use klee_testfs.Inode.Cache.{get_inode, put_inode}
use klee_testfs.Text.{same_string, index_of, ends_with}
use klee_testfs.Dir.Entry.{assert_dir, search_from, rounds}

abbrev pub slash : Bytes
slash = b'/' ∷ []

-- The entry of that name in the directory, or -ENOENT.
unfoldable pub search_entry : Ptr → Bytes → M ℤ
search_entry dir name = do i ← fetch dir; search_from (rounds i) dir name 0 (minus enoent)

-- *dir = testfs_get_inode(sb, nr), with the old one released.
unfoldable pub move_to : Ptr → ℕ → M Ptr
move_to dir nr = do p_in ← get_inode nr; put_inode dir; pure p_in

-- Every call is on a shorter name, so `length name + 1` rounds are enough. The result is the
-- number or the error, and the directory that `*dir` is then.
unfoldable pub dir_name_to_inode_nr_rec : ℕ → Ptr → Bytes → M (ℤ × Ptr)
dir_name_to_inode_nr_rec zero dir name = abort out_of_fuel
dir_name_to_inode_nr_rec (suc fuel) dir name = do
  _ ← assert_dir dir
  if same_string name slash then pure (pos 0, dir) else elim (index_of b'/' name) [
    | none ↦
        if length name == 0
        then pure (minus enoent, dir)
        else do ret ← search_entry dir name; pure (ret, dir)
    | some name_offset ↦
        if name_offset == 0
        then (do p_in ← move_to dir 0; dir_name_to_inode_nr_rec fuel p_in (drop 1 name))
        else if name_offset + 1 == length name
        then pure (minus enoent, dir)
        else (do
          granted ← malloc
          if not granted then pure (minus enomem, dir) else do
            ret ← search_entry dir (take name_offset name)
            elim ret [
              | negsuc e ↦ pure (negsuc e, dir)
              | pos nr ↦ do
                p_in ← move_to dir nr
                dir_name_to_inode_nr_rec fuel p_in (drop (name_offset + 1) name)
            ])
  ]

-- The directory is restored; its inode may stand at a new address then. The byte before an empty
-- name is read, which is undefined behaviour.
unfoldable pub dir_name_to_inode_nr : Ptr → Bytes → M (ℤ × Ptr)
dir_name_to_inode_nr dir name = do
  current ← fetch dir
  if length name == 0 then abort undefined else do
    if ends_with b'/' name && not (same_string name slash) then pure (minus einval, dir) else do
      (ret, dir) ← dir_name_to_inode_nr_rec (length name + 1) dir name
      i ← fetch dir
      if i.i_nr == current.i_nr
          then pure (ret, dir)
          else do put_inode dir; dir ← get_inode current.i_nr; pure (ret, dir)

-- struct context: `nargs` counts the name of the command; `none` is a NULL argument.
pub record Context : Type 0 where
  pub nargs : ℕ
  pub cmd : List (Option Bytes)
  pub cur_dir : Ptr

-- c->cmd[i], where it is used as a string.
unfoldable pub argument : Context → ℕ → M Bytes
argument c i = do arg ← expect undefined (get_elem? c.cmd i); expect undefined arg

-- testfs_dir_name_to_inode_nr(sb, &c->cur_dir, name)
unfoldable pub resolve : Context → Bytes → M (ℤ × Context)
resolve c name = do
  (inode_nr, dir) ← dir_name_to_inode_nr c.cur_dir name
  pure (inode_nr, record c { cur_dir = dir })

unfoldable pub change_dir : Context → ℤ → M (ℤ × Context)
change_dir c (negsuc e) = pure (negsuc e, c)
change_dir c (pos nr) = do
  dir_inode ← get_inode nr
  i ← fetch dir_inode
  if not (i.din.i_type == i_dir)
      then (do put_inode dir_inode; pure (minus enotdir, c))
      else (do put_inode c.cur_dir; pure (pos 0, record c { cur_dir = dir_inode }))

unfoldable pub cmd_cd : Context → M (ℤ × Context)
cmd_cd c =
    if not (c.nargs == 2)
    then pure (minus einval, c)
    else do name ← argument c 1; (inode_nr, c) ← resolve c name; change_dir c inode_nr
