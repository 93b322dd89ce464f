-- ===== src/Dir/Change.antt =====
-- dir.c: entries written, added and removed.
use klee_testfs.Common.{
  ℕ, zero, suc, ◌+◌, ◌-◌, ◌*◌, ◌/◌, Bool, false, not, ◌||◌, none, some, [], ◌∷◌, ◌++◌, ℤ, pos,
  negsuc, is_neg, eq_int, minus, length, ltb, ◌==◌, if◌then◌else◌, replicate, u32_of_int,
}
use klee_testfs.Bytes.{Bytes, bytes_of}
use klee_testfs.Machine.{
  Ptr, M, undefined, out_of_fuel, pure, ◌>>=◌, ◌>>◌, abort, assert, malloc, fetch, block_size,
  i_dir, enomem, eexist, enoent, einval, enotempty,
}
use klee_testfs.Inode.Cache.{get_inode, put_inode}
use klee_testfs.Inode.Data.{write_data}
use klee_testfs.Text.{same_string}
use klee_testfs.Dir.Entry.{Dirent, dirent_size, assert_dir, next_dirent, is_entry, has_name, rounds}

-- The bytes of an entry: its header and its name, which strcpy ends with a zero.
unfoldable pub encode_dirent : ℕ → ℤ → Bytes → Bytes
encode_dirent len nr name = bytes_of len ++ (bytes_of (u32_of_int nr) ++ name)

-- Zeros up to the next block, where the entry would not fit: the new offset, or the error.
unfoldable pub pad_block : Ptr → ℕ → ℕ → M (ℤ × ℕ)
pad_block dir offset total_bytes =
    if ltb (offset / block_size) ((offset + total_bytes) / block_size)
    then (do
      let next_offset = (offset + total_bytes) / block_size * block_size
      granted ← malloc
      if not granted then pure (minus enomem, offset) else do
        ret ← write_data dir offset (replicate (next_offset - offset) 0)
        pure (ret, next_offset))
    else pure (pos 0, offset)

unfoldable pub write_dirent : Ptr → Bytes → ℕ → ℕ → ℕ → M ℤ
write_dirent dir name len inode_nr offset = do
  granted ← malloc
  if not granted then pure (minus enomem) else do
    (ret, offset) ← pad_block dir offset (dirent_size + len)
    if is_neg ret
        then pure ret
        else write_data dir offset (encode_dirent len (pos inode_nr) (name ++ 0 ∷ []))

-- Where testfs_add_dirent's search ends: the name is there, a free entry of that length, or the end.
pub data Slot : Type 0 where
  exists : Slot
  reuse : ℕ → Slot
  append : ℕ → Slot

unfoldable pub find_slot : ℕ → Ptr → Bytes → ℕ → ℕ → M Slot
find_slot zero dir name len offset = abort out_of_fuel
find_slot (suc fuel) dir name len p_offset = do
  (d, offset) ← next_dirent dir p_offset
  elim d [
    | none ↦ pure (append p_offset)
    | some d ↦ do
      found ← is_entry d name
      if found
          then pure exists
          else if not (is_neg d.d_inode_nr) || not (d.d_name_len == len)
          then find_slot fuel dir name len offset
          else pure (reuse p_offset)
  ]

-- assert(found || p_offset == size), and the entry is written there.
unfoldable pub fill_slot : Ptr → Bytes → ℕ → ℕ → Slot → M ℤ
fill_slot dir name len inode_nr exists = pure (minus eexist)
fill_slot dir name len inode_nr (reuse offset) = write_dirent dir name len inode_nr offset
fill_slot dir name len inode_nr (append offset) = do
  i ← fetch dir
  assert (eq_int (pos offset) i.din.i_size)
  write_dirent dir name len inode_nr offset

unfoldable pub add_dirent : Ptr → Bytes → ℕ → M ℤ
add_dirent dir name inode_nr = do
  i ← assert_dir dir
  slot ← find_slot (rounds i) dir name (length name + 1) 0
  fill_slot dir name (length name + 1) inode_nr slot

abbrev pub dot : Bytes
dot = b'.' ∷ []

abbrev pub dot_dot : Bytes
dot_dot = b'.' ∷ b'.' ∷ []

-- Whether an entry is in use and neither "." nor "..".
unfoldable pub is_child : Dirent → M Bool
is_child d = if is_neg d.d_inode_nr then pure false else do
  self ← has_name d dot
  if self then pure false else do parent ← has_name d dot_dot; pure (not parent)

unfoldable pub check_empty : ℕ → Ptr → ℕ → M ℤ
check_empty zero dir offset = abort out_of_fuel
check_empty (suc fuel) dir offset = do
  (d, offset) ← next_dirent dir offset
  elim d [
    | none ↦ pure (pos 0)
    | some d ↦ do
      child ← is_child d
      if child then pure (minus enotempty) else check_empty fuel dir offset
  ]

unfoldable pub remove_dirent_allowed : ℕ → M ℤ
remove_dirent_allowed inode_nr = do
  dir ← get_inode inode_nr
  i ← fetch dir
  ret ← (if i.din.i_type == i_dir then check_empty (rounds i) dir 0 else pure (pos 0))
  put_inode dir
  pure ret

-- The entry found, of an inode number that is not negative: it is emptied, if that is allowed.
unfoldable pub unlink_entry : Ptr → ℕ → Dirent → ℤ → M ℤ
unlink_entry dir p_offset d (negsuc n) = abort undefined
unlink_entry dir p_offset d (pos inode_nr) = do
  ret ← remove_dirent_allowed inode_nr
  if is_neg ret then pure ret else do
    ret ← write_data dir p_offset (encode_dirent d.d_name_len (negsuc 0) d.d_name)
    pure (if is_neg ret then ret else pos inode_nr)

unfoldable pub remove_from : ℕ → Ptr → Bytes → ℕ → M ℤ
remove_from zero dir name offset = abort out_of_fuel
remove_from (suc fuel) dir name p_offset = do
  (d, offset) ← next_dirent dir p_offset
  elim d [
    | none ↦ pure (minus enoent)
    | some d ↦ do
      found ← is_entry d name
      if found then unlink_entry dir p_offset d d.d_inode_nr else remove_from fuel dir name offset
  ]

unfoldable pub remove_dirent : Ptr → Bytes → M ℤ
remove_dirent dir name =
    if same_string name dot || same_string name dot_dot
    then pure (minus einval)
    else do i ← fetch dir; remove_from (rounds i) dir name 0

unfoldable pub create_empty_dir : ℕ → Ptr → M ℤ
create_empty_dir p_inode_nr cdir = do
  i ← assert_dir cdir
  ret ← add_dirent cdir dot i.i_nr
  if is_neg ret then pure ret else do
    ret ← add_dirent cdir dot_dot p_inode_nr
    if is_neg ret then (do _ ← remove_dirent cdir dot; pure ret) else pure (pos 0)
