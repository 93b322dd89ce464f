-- ===== src/Dir/Listing.antt =====
-- dir.c: pwd, ls, lsr and stat, which print what a directory holds. pwd and lsr recur along the tree:
-- without a cycle in it, no path is longer than the number of inodes.
use klee_testfs.Common.{
  ℕ, zero, suc, ◌+◌, ◌-◌, ◌*◌, true, false, not, ◌&&◌, ◌||◌, Option, none, some, [], ◌∷◌, ◌++◌, ℤ,
  pos, negsuc, minus, ltb, ◌==◌, if◌then◌else◌,
}
use klee_testfs.Bytes.{Bytes}
use klee_testfs.Bitmap.{bits_per_word}
use klee_testfs.Machine.{
  Ptr, M, undefined, assertion, out_of_fuel, pure, ◌>>=◌, ◌>>◌, abort, expect, fetch, printf, text,
  number, block_size, inode_freemap_size, i_dir, einval,
}
use klee_testfs.Text.{c_string, same_string, codes}
use klee_testfs.Inode.Cache.{get_inode, put_inode}
use klee_testfs.Dir.Entry.{Dirent, next_dirent, find_dirent, rounds}
use klee_testfs.Dir.Change.{dot, dot_dot}
use klee_testfs.Dir.Path.{Context, argument, resolve, dir_name_to_inode_nr, slash}

-- One more than the bits of the inode map.
abbrev pub max_depth : ℕ
max_depth = block_size * inode_freemap_size * bits_per_word + 1

-- D_NAME(d), printed or compared.
unfoldable pub name_of : Dirent → M Bytes
name_of d = expect undefined (c_string d.d_name)

-- testfs_pwd: 1 at the root.
unfoldable pub pwd : ℕ → Ptr → M ℕ
pwd zero dir = abort out_of_fuel
pwd (suc depth) dir = do
  (p_inode_nr, dir) ← dir_name_to_inode_nr dir dot_dot
  i ← fetch dir
  elim p_inode_nr [
    | negsuc e ↦ abort assertion
    | pos p_nr ↦ elim (p_nr == i.i_nr) [
      | true ↦ do printf (text slash ∷ []); pure 1
      | false ↦ do
        p_in ← get_inode p_nr
        found ← find_dirent p_in i.i_nr
        d ← expect assertion found
        ret ← pwd depth p_in
        put_inode p_in
        name ← name_of d
        printf (text ((if ret == 1 then [] else slash) ++ name) ∷ [])
        pure 0
    ]
  ]

unfoldable pub cmd_pwd : Context → M ℤ
cmd_pwd c =
    if not (c.nargs == 1)
    then pure (minus einval)
    else do _ ← pwd max_depth c.cur_dir; printf (text (codes "\n") ∷ []); pure (pos 0)

-- One entry of testfs_ls; `visit` is the recursive call, if there is one.
unfoldable pub ls_entry : Option (Ptr → M (Unit {0})) → Dirent → ℕ → M (Unit {0})
ls_entry visit d nr = do
  cin ← get_inode nr
  i ← fetch cin
  name ← name_of d
  printf (text (name ++ (if i.din.i_type == i_dir then slash else []) ++ codes "\n") ∷ [])
  elim visit [
    | none ↦ pure tt
    | some go ↦
        if (i.din.i_type == i_dir) && not (same_string name dot || same_string name dot_dot)
        then go cin
        else pure tt
  ]
  put_inode cin

-- The loop of testfs_ls.
unfoldable pub ls_from : Option (Ptr → M (Unit {0})) → ℕ → Ptr → ℕ → M (Unit {0})
ls_from visit zero dir offset = abort out_of_fuel
ls_from visit (suc fuel) dir offset = do
  (d, offset) ← next_dirent dir offset
  elim d [
    | none ↦ pure tt
    | some d ↦ do
      elim d.d_inode_nr [ negsuc n ↦ pure tt | pos nr ↦ ls_entry visit d nr ]
      ls_from visit fuel dir offset
  ]

-- testfs_ls(in, 0) and testfs_ls(in, 1)
unfoldable pub ls_flat : Ptr → M (Unit {0})
ls_flat dir = do i ← fetch dir; ls_from none (rounds i) dir 0

unfoldable pub ls_deep : ℕ → Ptr → M (Unit {0})
ls_deep zero dir = abort out_of_fuel
ls_deep (suc depth) dir = do i ← fetch dir; ls_from (some (ls_deep depth)) (rounds i) dir 0

-- cmd_ls and cmd_lsr, which differ in the listing.
unfoldable pub list_with : (Ptr → M (Unit {0})) → Context → M (ℤ × Context)
list_with listing c =
    if not (c.nargs == 1) && not (c.nargs == 2) then pure (minus einval, c) else do
      cdir ← (if c.nargs == 2 then argument c 1 else pure dot)
      (inode_nr, c) ← resolve c cdir
      elim inode_nr [
        | negsuc e ↦ pure (negsuc e, c)
        | pos nr ↦ do dir ← get_inode nr; listing dir; put_inode dir; pure (pos 0, c)
      ]

unfoldable pub cmd_ls : Context → M (ℤ × Context)
cmd_ls c = list_with ls_flat c

unfoldable pub cmd_lsr : Context → M (ℤ × Context)
cmd_lsr c = list_with (ls_deep max_depth) c

-- The loop over the arguments from `i` on, with `left` rounds to go.
unfoldable pub stat_from : ℕ → ℕ → Context → M (ℤ × Context)
stat_from zero i c = pure (pos 0, c)
stat_from (suc left) i c = do
  name ← argument c i
  (inode_nr, c) ← resolve c name
  elim inode_nr [
    | negsuc e ↦ pure (negsuc e, c)
    | pos nr ↦ do
      p ← get_inode nr
      inode ← fetch p
      printf (
          text (name ++ codes ": i_nr = ")
          ∷ number (pos inode.i_nr)
          ∷ text (codes ", i_type = ")
          ∷ number (pos inode.din.i_type)
          ∷ text (codes ", i_size = ")
          ∷ number inode.din.i_size
          ∷ text (codes "\n")
          ∷ [])
      put_inode p
      stat_from left (i + 1) c
  ]

unfoldable pub cmd_stat : Context → M (ℤ × Context)
cmd_stat c = if ltb c.nargs 2 then pure (minus einval, c) else stat_from (c.nargs - 1) 1 c
