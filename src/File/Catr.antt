-- ===== src/File/Catr.antt =====
-- file.c: catr, the files of a directory and of those below it. It finds the directory anew at each
-- level, from the argument, and keeps the old current directory across the search.
use klee_testfs.Common.{
  ℕ, zero, suc, Bool, true, false, not, ◌||◌, none, some, [], ◌∷◌, ◌++◌, ℤ, pos, negsuc, is_neg,
  minus, ltb, ◌==◌, if◌then◌else◌,
}
use klee_testfs.Machine.{
  Ptr, M, out_of_fuel, pure, ◌>>=◌, ◌>>◌, abort, malloc, printf, text, fetch, i_dir, einval,
}
use klee_testfs.Text.{same_string, codes}
use klee_testfs.Inode.Cache.{get_inode, put_inode}
use klee_testfs.Inode.Data.{read_data}
use klee_testfs.Dir.Entry.{Dirent, next_dirent, rounds}
use klee_testfs.Dir.Change.{dot, dot_dot}
use klee_testfs.Dir.Path.{Context, argument, resolve}
use klee_testfs.Dir.Listing.{name_of, max_depth}
use klee_testfs.File.{print_buffer}

-- A file that is not empty is printed; whether the allocation of the buffer fails.
unfoldable pub print_file : Ptr → M Bool
print_file p = do
  i ← fetch p
  elim i.din.i_size [
    | negsuc n ↦ pure false
    | pos sz ↦ if sz == 0 then pure false else do
      granted ← malloc
      if not granted then pure true else do read ← read_data p 0 sz; print_buffer read; pure false
  ]

-- One entry: whether the loop is left, and the context. `visit` is the recursive call.
unfoldable pub catr_entry :
    (Context → M (ℤ × Context)) → Ptr → Dirent → ℕ → Context → M (Bool × Context)
catr_entry visit tmp_inode d nr c = do
  name ← name_of d
  if same_string name dot || same_string name dot_dot then pure (false, c) else do
    cin ← get_inode nr
    i ← fetch cin
    if i.din.i_type == i_dir
        then (do
          (ret, c) ← visit (record c { cur_dir = cin })
          put_inode cin
          pure (if is_neg ret then (true, c) else (false, record c { cur_dir = tmp_inode })))
        else (do
          printf (text (name ++ codes ":\n") ∷ [])
          failed ← print_file cin
          put_inode cin
          pure (failed, c))

unfoldable pub catr_from : (Context → M (ℤ × Context)) → Ptr → ℕ → Ptr → ℕ → Context → M Context
catr_from visit tmp_inode zero dir offset c = abort out_of_fuel
catr_from visit tmp_inode (suc fuel) dir offset c = do
  (d, offset) ← next_dirent dir offset
  elim d [
    | none ↦ pure c
    | some d ↦ do
      (out, c) ← elim d.d_inode_nr [
        | negsuc n ↦ pure (false, c)
        | pos nr ↦ catr_entry visit tmp_inode d nr c
      ]
      elim out [ true ↦ pure c | false ↦ catr_from visit tmp_inode fuel dir offset c ]
  ]

unfoldable pub catr : ℕ → Context → M (ℤ × Context)
catr zero c = abort out_of_fuel
catr (suc depth) c = if ltb 2 c.nargs then pure (minus einval, c) else do
  cdir ← (if c.nargs == 2 then argument c 1 else pure dot)
  (inode_nr, found) ← resolve c cdir
  elim inode_nr [
    | negsuc e ↦ pure (negsuc e, found)
    | pos nr ↦ do
      dir ← get_inode nr
      i ← fetch dir
      after ← catr_from (catr depth) c.cur_dir (rounds i) dir 0 found
      put_inode dir
      pure (pos 0, after)
  ]

unfoldable pub cmd_catr : Context → M (ℤ × Context)
cmd_catr c = catr max_depth c
