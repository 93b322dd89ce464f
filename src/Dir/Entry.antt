-- ===== src/Dir/Entry.antt =====
-- dir.c: reading directory entries one after the other.
use klee_testfs.Common.{
  ℕ, zero, suc, ◌+◌, ◌*◌, ◌/◌, Bool, false, not, Option, none, some, ℤ, pos, negsuc, is_neg, le_int,
  eq_int, ltb, leb, ◌||◌, ◌==◌, if◌then◌else◌,
}
use klee_testfs.Bytes.{Bytes, get_int}
use klee_testfs.Machine.{
  Inode, Ptr, M, undefined, out_of_fuel, pure, ◌>>=◌, ◌>>◌, abort, assert, expect, malloc, fetch,
  block_size, i_dir,
}
use klee_testfs.Inode.Data.{read_data}
use klee_testfs.Text.{c_string, same_string}

-- The struct with the bytes of D_NAME behind it.
pub record Dirent : Type 0 where
  pub d_name_len : ℕ
  pub d_inode_nr : ℤ
  pub d_name : Bytes

-- sizeof(struct dirent)
abbrev pub dirent_size : ℕ
dirent_size = 8

-- assert(testfs_inode_get_type(dir) == I_DIR)
abbrev pub assert_dir : Ptr → M Inode
assert_dir p = do i ← fetch p; assert (i.din.i_type == i_dir); pure i

-- An entry does not begin where its header would reach the next block.
unfoldable pub align : ℕ → ℕ
align offset =
    let next = (offset + dirent_size) / block_size in
    if ltb (offset / block_size) next then next * block_size else offset

-- What is at hand after the header is read: the name follows. A length below -8 is a size that malloc
-- refuses; one from there to -1 gives less room than the header takes, which is out of bounds.
unfoldable pub read_name : Ptr → ℕ → ℤ → ℤ → M (Option Dirent × ℕ)
read_name dir offset (negsuc n) nr = do
  granted ← malloc
  if leb 8 n || not granted then pure (none, offset) else abort undefined
read_name dir offset (pos len) nr = do
  granted ← malloc
  if not granted then pure (none, offset) else do
    (ret, name) ← read_data dir (offset + dirent_size) len
    if is_neg ret
        then pure (none, offset + dirent_size)
        else pure (
          some (record { d_name_len = len; d_inode_nr = nr; d_name = name }),
          offset + dirent_size + len,
        )

-- An empty header says that the next entry is in the next block.
unfoldable pub read_header : Ptr → ℕ → Bytes → M (Option Dirent × ℕ)
read_header dir offset header =
    if eq_int (get_int header 0) (pos 0)
    then (do
      let next = (offset / block_size + 1) * block_size
      (ret, header) ← read_data dir next dirent_size
      if is_neg ret
          then pure (none, next)
          else read_name dir next (get_int header 0) (get_int header 1))
    else read_name dir offset (get_int header 0) (get_int header 1)

-- The entry at `offset` and the offset behind it; `none` is NULL.
unfoldable pub next_dirent : Ptr → ℕ → M (Option Dirent × ℕ)
next_dirent dir offset = do
  i ← assert_dir dir
  if le_int i.din.i_size (pos offset) then pure (none, offset) else do
    (ret, header) ← read_data dir (align offset) dirent_size
    if is_neg ret then pure (none, align offset) else read_header dir (align offset) header

-- strcmp(D_NAME(d), name) == 0
unfoldable pub has_name : Dirent → Bytes → M Bool
has_name d name = do s ← expect undefined (c_string d.d_name); pure (same_string s name)

-- (d->d_inode_nr >= 0) && (strcmp(D_NAME(d), name) == 0)
unfoldable pub is_entry : Dirent → Bytes → M Bool
is_entry d name = if is_neg d.d_inode_nr then pure false else has_name d name

-- Every entry is at least eight bytes long, so a directory of n bytes has fewer than n + 1.
abbrev pub rounds : Inode → ℕ
rounds i = elim i.din.i_size [ pos n ↦ n + 1 | negsuc n ↦ 1 ]

-- The loop of testfs_find_dirent: the first entry of that inode number.
unfoldable pub find_from : ℕ → Ptr → ℕ → ℕ → M (Option Dirent)
find_from zero dir inode_nr offset = abort out_of_fuel
find_from (suc fuel) dir inode_nr offset = do
  (d, offset) ← next_dirent dir offset
  elim d [
    | none ↦ pure none
    | some d ↦
        if eq_int d.d_inode_nr (pos inode_nr)
        then pure (some d)
        else find_from fuel dir inode_nr offset
  ]

unfoldable pub find_dirent : Ptr → ℕ → M (Option Dirent)
find_dirent dir inode_nr = do i ← assert_dir dir; find_from (rounds i) dir inode_nr 0

-- The loop of testfs_dir_name_to_inode_nr_rec over the entries.
unfoldable pub search_from : ℕ → Ptr → Bytes → ℕ → ℤ → M ℤ
search_from zero dir name offset ret = abort out_of_fuel
search_from (suc fuel) dir name offset ret = do
  (d, offset) ← next_dirent dir offset
  elim d [
    | none ↦ pure ret
    | some d ↦ do
      found ← is_entry d name
      if found then pure d.d_inode_nr else search_from fuel dir name offset ret
  ]
