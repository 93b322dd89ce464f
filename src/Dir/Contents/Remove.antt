-- ===== src/Dir/Contents/Remove.antt =====
-- dir.c: testfs_remove_dirent of a directory in one block.
use klee_testfs.Common.{
  ℕ, zero, suc, ◌+◌, ◌<◌, ◌≡◌, ◌≢◌, refl, sym, ap, ◌∙◌, Bool, true, false, Option, none, some, List,
  [], ◌∷◌, ◌++◌, ℤ, pos, minus, length, if◌then◌else◌, ==_ne, le→leb, arith,
}
use klee_testfs.Bytes.{Bytes}
use klee_testfs.Bitmap.{Bitmap}
use klee_testfs.Machine.{Machine, ok, Inode, Ptr, M, pure, i_dir, enoent}
use klee_testfs.Machine.Run.{then_ok}
use klee_testfs.Text.{same_string}
use klee_testfs.Super.Mounted.{Mounted, heap-Mounted}
use klee_testfs.Inode.Cache.{inode_hash_find}
use klee_testfs.Inode.Cache.Laws.{Holds, fetch-ok, with_inode, Holds-with_inode, reference}
use klee_testfs.Inode.Data.{with_size, max_int}
use klee_testfs.Dir.Entry.{rounds}
use klee_testfs.Dir.Change.{
  dot, dot_dot, unlink_entry, remove_from, remove_dirent, remove_dirent_allowed,
}
use klee_testfs.Dir.Path.{search_entry}
use klee_testfs.Dir.Contents.{
  Item, encode_item, encode_items, AllItems, item_size, length-encode_item, has, dirent_of,
  is_entry-item,
}
use klee_testfs.Dir.Contents.Next.{next_dirent-end}
use klee_testfs.Dir.Contents.Lookup.{
  IsDirectory, number_of, search_entry-items, moved, length-moved, length-split, next_dirent-first,
  enough,
}
use klee_testfs.Dir.Contents.Spot.{taken}
use klee_testfs.Dir.Contents.Place.{write_item}
use klee_testfs.Dir.Contents.Removed.{freed, removed, first_at, Located, found_in, removed-AllItems}
use klee_testfs.Dir.Contents.Removed.Numbers.{number_of-removed, number_of-taken, first_at-absent}

-- A regular file in memory that is open and clean may lose its name.
remove_dirent_allowed-file :
    {m : Machine} {q : Ptr} {j : Inode} (nr : ℕ)
    → inode_hash_find nr m ≡ ok (some q) m
    → Holds m q j
    → j.dirty ≡ false
    → 0 < j.i_count
    → j.din.i_type ≢ i_dir
    → remove_dirent_allowed nr m ≡ ok (pos 0) m
unfolding remove_dirent_allowed
remove_dirent_allowed-file {m} {q} {j} nr found holds clean counted file =
    let (n, got, here, put) = reference nr found holds clean counted in
    then_ok _ got
    ∙ then_ok _ (fetch-ok n q here)
    ∙ rw (==_ne j.din.i_type i_dir file) (then_ok _ put)

module _ {m : Machine} {p : Ptr} {i : Inode} {k : ℕ} {es : List Item} {tail : Bytes}
    (d : IsDirectory m p i k es tail) (name : Bytes) where
  -- What is done with the entry that is found.
  abbrev unlink_at : Option (ℕ × Item) → M ℤ
  unlink_at none = pure (minus enoent)
  unlink_at (some (offset, e)) = unlink_entry p offset (dirent_of e) e.nr

  remove_from-items :
      (fuel : ℕ) (before : Bytes) (rest : List Item)
      → AllItems rest
      → encode_items es ++ tail ≡ before ++ (encode_items rest ++ tail)
      → length before + length (encode_items rest) ≡ length (encode_items es)
      → length rest < fuel
      → remove_from fuel p name (length before) m ≡ unlink_at (first_at name (length before) rest) m
  unfolding remove_from first_at
  remove_from-items zero before rest items split size h = absurd (omega arith)
  remove_from-items (suc fuel) before [] items split size h = then_ok _ (
      next_dirent-end m p d.holds d.is_dir (length (encode_items es)) k d.size d.direct d.short
        (length before) (omega (arith, size)))
  remove_from-items (suc fuel) before (e ∷ rest) items split size h =
      then_ok _ (next_dirent-first d before e rest items.0 split size)
      ∙ then_ok _ (is_entry-item m e name items.0)
      ∙ by_has (has e name) (
          remove_from-items fuel (before ++ encode_item e) rest items.1
            (moved d before e rest split) (length-split d before e rest size) (omega arith)
          ∙ ap (λ o. unlink_at (first_at name o rest) m) (length-moved d before e))
    where
      by_has :
          (b : Bool)
          → remove_from fuel p name (length (before ++ encode_item e)) m
            ≡ unlink_at (first_at name (length before + item_size e) rest) m
          → (if b
                then unlink_entry p (length before) (dirent_of e) e.nr
                else remove_from fuel p name (length (before ++ encode_item e)))
              m
            ≡ unlink_at
                (if b
                  then some (length before, e)
                  else first_at name (length before + item_size e) rest)
                m
      by_has true on = refl
      by_has false on = on

  remove_dirent-first :
      same_string name dot ≡ false
      → same_string name dot_dot ≡ false
      → remove_dirent p name m ≡ unlink_at (first_at name 0 es) m
  unfolding remove_dirent
  remove_dirent-first no_dot no_parent =
      rw (no_dot, no_parent)
        (then_ok _ (fetch-ok m p d.holds)
          ∙ remove_from-items (rounds i) [] es d.items refl (omega arith) (enough d))

  -- A name that is not in use cannot be removed: testfs_remove_dirent of it, in a directory of one
  -- block where no allocation fails and of a name other than "." and "..", returns -ENOENT and
  -- changes nothing.
  pub remove_dirent-absent :
      same_string name dot ≡ false
      → same_string name dot_dot ≡ false
      → taken name es ≡ false
      → remove_dirent p name m ≡ ok (minus enoent) m
  remove_dirent-absent no_dot no_parent absent =
      remove_dirent-first no_dot no_parent
      ∙ ap (λ s. unlink_at s m) (first_at-absent name 0 es absent)

module _ {m : Machine} {inodes blocks : Bitmap} {table : Bytes} (is : Mounted m inodes blocks table)
    {p : Ptr} {i : Inode} {k : ℕ} {es : List Item} {tail : Bytes} (d : IsDirectory m p i k es tail)
    (name : Bytes) where
  abbrev pub after_remove : List Item
  after_remove = removed name es

  -- The entry is written back with the number -1.
  unlink_entry-found :
      (f : Located name es tail) (nr : ℕ)
      → k < 960
      → remove_dirent_allowed nr m ≡ ok (pos 0) m
      → (o : Machine) × (t : Bytes) × (j : Inode) × Mounted o inodes blocks t
        × (unlink_entry p (length f.before) (dirent_of f.entry) (pos nr) m ≡ ok (pos nr) o)
        × IsDirectory o p j k after_remove tail
  unfolding unlink_entry
  unlink_entry-found f nr inside allowed =
      let (n, t, mounted, run, there, here, mallocs) =
        write_item is d inside f.before (encode_item f.entry) f.after (freed f.entry) f.split
          f.named (length-encode_item f.entry) (omega (arith, f.inside))
          (omega (arith, f.inside, d.short)) in
      (
        with_inode n p
            (with_size i (max_int i.din.i_size (pos (length f.before + item_size f.entry)))),
        t,
        with_size i (max_int i.din.i_size (pos (length f.before + item_size f.entry))),
        heap-Mounted _ mounted,
        then_ok _ allowed ∙ then_ok _ run,
        record {
          holds = Holds-with_inode n p _ here;
          is_dir = d.is_dir;
          size =
              ap (λ z. max_int z (pos (length f.before + item_size f.entry))) d.size
              ∙ ap
                  (λ b.
                    if b
                    then pos (length (encode_items es))
                    else pos (length f.before + item_size f.entry))
                  (le→leb (length f.before + item_size f.entry) _ f.inside)
              ∙ ap pos (sym f.as_long);
          direct = d.direct;
          there = there ∙ ap some (sym f.joined);
          items = removed-AllItems name es d.items;
          bytes = d.bytes;
          short = omega (arith, f.as_long, d.short);
          granted = mallocs;
        },
      )

  -- A name is removed: testfs_remove_dirent of the only entry in use under a name other than "." and
  -- "..", in a mounted directory of one block where no allocation fails, returns its inode number,
  -- if that is a regular file that is in memory, open and clean; the file system stays mounted, the
  -- directory has that entry free, the name is not found any more, and the search for any other name
  -- gives what it gave before.
  pub remove_dirent-search_entry :
      (nr : ℕ) {q : Ptr} {j : Inode}
      → k < 960
      → same_string name dot ≡ false
      → same_string name dot_dot ≡ false
      → number_of name (minus enoent) es ≡ pos nr
      → taken name after_remove ≡ false
      → inode_hash_find nr m ≡ ok (some q) m
      → Holds m q j
      → j.dirty ≡ false
      → 0 < j.i_count
      → j.din.i_type ≢ i_dir
      → (o : Machine) × (t : Bytes) × (i' : Inode) × Mounted o inodes blocks t
        × (remove_dirent p name m ≡ ok (pos nr) o)
        × IsDirectory o p i' k after_remove tail
        × ((other : Bytes)
            → search_entry p other o
              ≡ ok
                  (if same_string name other
                    then minus enoent
                    else number_of other (minus enoent) es)
                  o)
  remove_dirent-search_entry nr inside no_dot no_parent number once found holds clean counted file =
      let f = found_in name tail es (number_of-taken name nr 1 es number) d.items in
      let (o, t, i', mounted, run, after) =
        unlink_entry-found f nr inside
          (remove_dirent_allowed-file nr found holds clean counted file) in
      (
        o,
        t,
        i',
        mounted,
        remove_dirent-first d name no_dot no_parent
            ∙ ap (λ s. unlink_at d name s m) (f.first 0)
            ∙ ap (λ z. unlink_entry p (0 + length f.before) (dirent_of f.entry) z m)
                (f.number ∙ number)
            ∙ ap (λ s. unlink_entry p s (dirent_of f.entry) (pos nr) m) (omega arith)
            ∙ run,
        after,
        λ other.
            search_entry-items after other
            ∙ ap (λ z. ok z o) (number_of-removed name other (minus enoent) es once),
      )
