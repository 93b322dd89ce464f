-- ===== src/Dir/Create.antt =====
-- dir.c: files and directories created and removed, and the commands create, mkdir and rm. The
-- global `namelen` is zero, so the test of it never refuses a name. The name is measured before it is
-- compared with NULL, which is what testfs_make_root_dir gives.
use klee_testfs.Common.{
  ℕ, zero, suc, ◌+◌, ◌-◌, not, Option, none, some, [], ◌∷◌, ℤ, pos, negsuc, is_neg, minus, set,
  take, drop, ltb, ◌==◌, if◌then◌else◌,
}
use klee_testfs.Bytes.{Bytes}
use klee_testfs.Machine.{
  Ptr, M, undefined, pure, expect, ◌>>=◌, ◌>>◌, abort, malloc, printf, text, fetch, i_file, i_dir,
  tx_create, tx_rm, enomem, eexist, einval,
}
use klee_testfs.Tx.{tx_start, tx_commit}
use klee_testfs.Text.{same_string, last_index_of}
use klee_testfs.Inode.Cache.{get_inode, sync_inode, put_inode}
use klee_testfs.Inode.Data.{create_inode, remove_inode}
use klee_testfs.Dir.Change.{add_dirent, remove_dirent, create_empty_dir}
use klee_testfs.Dir.Path.{slash, Context, argument, resolve, cmd_cd}

-- The entries of a new inode: its own, if it is a directory, and the one in the current directory,
-- if there is one. A directory without a parent is its own.
unfoldable pub link_inode : Option Ptr → ℕ → Bytes → Ptr → M ℤ
link_inode cur_dir type name p = do
  i ← fetch p
  p_inode_nr ← elim cur_dir [
    | none ↦ pure i.i_nr
    | some dir ↦ do parent ← fetch dir; pure parent.i_nr
  ]
  ret ← (if type == i_dir then create_empty_dir p_inode_nr p else pure (pos 0))
  if is_neg ret
      then pure ret
      else elim cur_dir [ none ↦ pure (pos 0) | some dir ↦ add_dirent dir name i.i_nr ]

-- The new inode linked and written, or removed again.
unfoldable pub make_inode : Option Ptr → ℕ → Bytes → M ℤ
make_inode cur_dir type name = do
  (ret, created) ← create_inode type
  elim created [
    | none ↦ pure ret
    | some p ↦ do
      ret ← link_inode cur_dir type name p
      if is_neg ret then (do remove_inode p; pure ret) else (do
        elim cur_dir [ none ↦ pure tt | some dir ↦ sync_inode dir ]
        sync_inode p
        put_inode p
        pure (pos 0))
  ]

-- What is done with a context; `none` is NULL, and it is not looked up in.
unfoldable pub make_entry : Option Context → ℕ → Bytes → M (ℤ × Option Context)
make_entry none type name = do ret ← make_inode none type name; pure (ret, none)
make_entry (some c) type name = do
  (inode_nr, c) ← resolve c name
  ret ← elim inode_nr [
    | pos n ↦ pure (minus eexist)
    | negsuc e ↦ make_inode (some c.cur_dir) type name
  ]
  pure (ret, some c)

-- The transaction, in the directory that the context stands in.
unfoldable pub create_entry : Option Context → ℕ → Bytes → M (ℤ × Option Context)
create_entry c type name = do
  tx_start tx_create
  made ← make_entry c type name
  tx_commit tx_create
  pure made

-- c->cur_dir = testfs_get_inode(sb, nr), with the old one released.
unfoldable pub restore : ℕ → Option Context → M (Option Context)
restore nr none = abort undefined
restore nr (some c) = do
  put_inode c.cur_dir
  p ← get_inode nr
  pure (some (record c { cur_dir = p }))

-- The same in the directory of the first `name_offset` bytes, with the current directory restored.
-- c->cmd[1] holds a freed path afterwards.
unfoldable pub create_under : Context → ℕ → Bytes → ℕ → M (ℤ × Option Context)
create_under c type name name_offset = do
  granted ← malloc
  if not granted then pure (minus enomem, some c) else do
    current ← fetch c.cur_dir
    (ret, c) ← cmd_cd (record c { cmd = set c.cmd 1 (some (take name_offset name)) })
    let c = record c { cmd = set c.cmd 1 none }
    if is_neg ret then pure (ret, some c) else do
      (ret, c) ← create_entry (some c) type (drop (name_offset + 1) name)
      c ← restore current.i_nr c
      pure (ret, c)

-- strlen(name) comes first, so no name is undefined behaviour. A '/' at offset 0 counts as one at
-- offset 1, so that the path before it is "/".
unfoldable pub create_file_or_dir : Option Context → ℕ → Option Bytes → M (ℤ × Option Context)
create_file_or_dir c type name = do
  name ← expect undefined name
  if same_string name slash then pure (minus eexist, c) else elim (last_index_of b'/' name) [
    | none ↦ create_entry c type name
    | some name_offset ↦ do
      c ← expect undefined c
      create_under c type name (if name_offset == 0 then 1 else name_offset)
  ]

unfoldable pub make_root_dir : M ℤ
make_root_dir = do (ret, _) ← create_file_or_dir none i_dir none; pure ret

-- testfs_create_file_or_dir with a context.
unfoldable pub create_in : Context → ℕ → Bytes → M (ℤ × Context)
create_in c type name = do
  (ret, c) ← create_file_or_dir (some c) type (some name)
  c ← expect undefined c
  pure (ret, c)

-- The loop over the arguments from `i` on, with `left` rounds to go.
unfoldable pub create_from : ℕ → ℕ → Context → M (ℤ × Context)
create_from zero i c = pure (pos 0, c)
create_from (suc left) i c = do
  name ← argument c i
  (ret, c) ← create_in c i_file name
  if is_neg ret then pure (ret, c) else create_from left (i + 1) c

-- "cmd_create\n"
abbrev cmd_create_text : Bytes
cmd_create_text = 99 ∷ 109 ∷ 100 ∷ 95 ∷ 99 ∷ 114 ∷ 101 ∷ 97 ∷ 116 ∷ 101 ∷ 10 ∷ []

unfoldable pub cmd_create : Context → M (ℤ × Context)
cmd_create c = do
  printf (text cmd_create_text ∷ [])
  if ltb c.nargs 2 then pure (minus einval, c) else create_from (c.nargs - 1) 1 c

unfoldable pub cmd_mkdir : Context → M (ℤ × Context)
cmd_mkdir c =
    if not (c.nargs == 2)
    then pure (minus einval, c)
    else do name ← argument c 1; create_in c i_dir name

unfoldable pub cmd_rm : Context → M ℤ
cmd_rm c = if not (c.nargs == 2) then pure (minus einval) else do
  tx_start tx_rm
  name ← argument c 1
  inode_nr ← remove_dirent c.cur_dir name
  elim inode_nr [
    | negsuc e ↦ do tx_commit tx_rm; pure (negsuc e)
    | pos nr ↦ do
      p ← get_inode nr
      remove_inode p
      sync_inode c.cur_dir
      tx_commit tx_rm
      pure (pos 0)
  ]
