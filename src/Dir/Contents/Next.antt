-- ===== src/Dir/Contents/Next.antt =====
-- dir.c: testfs_next_dirent of a directory in one block reads its entries one after the other.
use klee_testfs.Common.{
  ℕ, ◌+◌, ◌*◌, ◌/◌, ◌%◌, ◌≤◌, ◌<◌, ◌≡◌, ap, ◌∙◌, Bool, true, Option, none, some, [], ◌∷◌, ◌++◌, pos,
  is_neg, le_int, eq_int, get_elem?, get_or, length, slice, le→leb, lt→leb, le→ltb, ==_ne, ◌==◌,
  if◌then◌else◌, arith,
}
use klee_testfs.Bytes.{Bytes, get_int}
use klee_testfs.Machine.{
  Machine, Outcome, ok, Inode, Ptr, M, pure, ◌>>=◌, and_then, malloc, block_size, i_dir,
}
use klee_testfs.Machine.Run.{then_ok, assert_then}
use klee_testfs.Inode.Cache.Laws.{Holds, fetch-ok}
use klee_testfs.Inode.Data.{read_data}
use klee_testfs.Inode.Data.Read.{read_data_lem}
use klee_testfs.Dir.Entry.{
  Dirent, dirent_size, assert_dir, align, read_name, read_header, next_dirent,
}
use klee_testfs.Dir.Contents.{Item, IsItem, dirent_of, item_size, header_of, name_len_back, nr_back}

module _ (m : Machine) (p : Ptr) {i : Inode} (holds : Holds m p i) (is_dir : i.din.i_type ≡ i_dir)
    (n k : ℕ) (size : i.din.i_size ≡ pos n)
    (direct : get_or i.din.i_block_nr 0 (pos 0) ≡ pos (192 + k)) (short : n < 64) where
  dir_asserted : {A : Type 0} (c : Inode → M A) → and_then (assert_dir p m) c ≡ c i m
  dir_asserted c =
      ap (λ o. and_then o c)
        (then_ok _ (fetch-ok m p holds) ∙ assert_then _ m (ap (λ t. t == i_dir) is_dir))

  -- Behind the last entry.
  pub next_dirent-end : (offset : ℕ) → n ≤ offset → next_dirent p offset m ≡ ok (none, offset) m
  unfolding next_dirent
  next_dirent-end offset h =
      dir_asserted _
      ∙ ap (λ c. (if c then pure (none, offset) else rest) m)
          (ap (λ z. le_int z (pos offset)) size ∙ le→leb n offset h)
    where
      rest : M (Option Dirent × ℕ)
      rest = do
        (ret, header) ← read_data p (align offset) dirent_size
        if is_neg ret then pure (none, align offset) else read_header p (align offset) header

  module _ (block : Bytes) (there : get_elem? m.dev.blocks (192 + k) ≡ some block) where
    -- A range of the directory.
    read_dir :
        (start len : ℕ)
        → start + len ≤ n
        → read_data p start len m ≡ ok (pos 0, slice start len block) m
    read_dir start len h =
        read_data_lem m p holds start len k block (omega (arith, short)) (omega (arith, short))
          (ap (λ z. le_int (pos (start + len)) z) size ∙ le→leb (start + len) n h)
          (ap (λ j. get_or i.din.i_block_nr j (pos 0)) in_first ∙ direct) there
        ∙ ap (λ j. ok (pos 0, slice j len block) m) same
      where
        in_first : start / 64 ≡ 0
        in_first = omega (arith, short)

        same : start % 64 ≡ start
        same = omega (arith, short)

    module _ (granted : m.mallocs ≡ []) (e : Item) (item : IsItem e) (offset : ℕ)
        (inside : offset + item_size e ≤ n) where
      malloc-ok : malloc m ≡ ok true m
      unfolding malloc
      malloc-ok =
          ap
            (λ l. elim l as (λ _. Outcome Bool) [
              | [] ↦ ok true m
              | g ∷ rest ↦ ok g (record m { mallocs = rest })
            ])
            granted

      read_name-item :
          slice (offset + 8) (length e.name + 1) block ≡ e.name ++ 0 ∷ []
          → read_name p offset (pos (length e.name + 1)) e.nr m
            ≡ ok (some (dirent_of e), offset + item_size e) m
      unfolding read_name
      read_name-item name =
          then_ok _ malloc-ok
          ∙ then_ok _ (read_dir (offset + 8) (length e.name + 1) (omega (arith, inside)))
          ∙ ap
              (λ bs.
                ok
                  (
                    some
                        (record { d_name_len = length e.name + 1; d_inode_nr = e.nr; d_name = bs }),
                    offset + 8 + (length e.name + 1),
                  )
                  m)
              name
          ∙ ap (λ j. ok (some (dirent_of e), j) m) regroup
        where
          regroup : offset + 8 + (length e.name + 1) ≡ offset + item_size e
          regroup = omega arith

      read_header-item :
          slice (offset + 8) (length e.name + 1) block ≡ e.name ++ 0 ∷ []
          → read_header p offset (header_of e) m ≡ ok (some (dirent_of e), offset + item_size e) m
      unfolding read_header
      read_header-item name =
          ap
            (λ z.
              (if eq_int z (pos 0)
                  then next_block
                  else read_name p offset z (get_int (header_of e) 1))
                m)
            (name_len_back e (omega (arith, inside, short)))
          ∙ ap
              (λ c.
                (if c
                    then next_block
                    else read_name p offset (pos (length e.name + 1)) (get_int (header_of e) 1))
                  m)
              (==_ne (length e.name + 1) 0 (λ h. omega arith))
          ∙ ap (λ z. read_name p offset (pos (length e.name + 1)) z m) (nr_back e item.0)
          ∙ read_name-item name
        where
          next_block : M (Option Dirent × ℕ)
          next_block = do
            let next = (offset / block_size + 1) * block_size
            (ret, header) ← read_data p next dirent_size
            if is_neg ret
                then pure (none, next)
                else read_name p next (get_int header 0) (get_int header 1)

      -- An entry does not reach the next block, so it is where it was looked for.
      aligned : align offset ≡ offset
      unfolding align
      aligned =
          ap (λ c. if c then (offset + 8) / 64 * 64 else offset)
            (le→ltb (offset / 64) ((offset + 8) / 64) (omega (arith, inside, short)))

      -- The entry at an offset where its bytes stand.
      pub next_dirent-item :
          slice offset 8 block ≡ header_of e
          → slice (offset + 8) (length e.name + 1) block ≡ e.name ++ 0 ∷ []
          → next_dirent p offset m ≡ ok (some (dirent_of e), offset + item_size e) m
      unfolding next_dirent
      next_dirent-item header name =
          dir_asserted _
          ∙ ap (λ c. (if c then pure (none, offset) else rest (align offset)) m)
              (ap (λ z. le_int z (pos offset)) size ∙ lt→leb n offset (omega (arith, inside)))
          ∙ ap (λ j. rest j m) aligned
          ∙ then_ok _ (read_dir offset 8 (omega (arith, inside)))
          ∙ ap (λ bs. read_header p offset bs m) header
          ∙ read_header-item name
        where
          rest : ℕ → M (Option Dirent × ℕ)
          rest j = do
            (ret, header) ← read_data p j dirent_size
            if is_neg ret then pure (none, j) else read_header p j header
