-- ===== src/Dir/Contents/Add.antt =====
-- dir.c: testfs_add_dirent of a directory in one block, and the names looked for afterwards.
use klee_testfs.Common.{
  minus, ◌&&◌, ℕ, ◌+◌, ◌≤◌, ◌<◌, ◌≡◌, refl, sym, ap, ◌∙◌, Bool, true, false, ◌⊎◌, inl, inr, some,
  List, [], ◌∷◌, pos, eq_int, minus, length, length-append, if◌then◌else◌, ==_iff, arith,
}
use klee_testfs.Bytes.{Bytes}
use klee_testfs.Bitmap.{Bitmap}
use klee_testfs.Machine.{eexist, enoent, Machine, ok, Inode, Ptr, eexist, enoent}
use klee_testfs.Machine.Run.{then_ok, assert_then}
use klee_testfs.Text.{same_string}
use klee_testfs.Block.Laws.{IsImage-get_elem?}
use klee_testfs.Super.Mounted.{Mounted, heap-Mounted}
use klee_testfs.Inode.Cache.Laws.{fetch-ok, with_inode, Holds-with_inode}
use klee_testfs.Inode.Data.{with_size, max_int}
use klee_testfs.Dir.Change.{
  exists, Slot, Slot, exists, reuse, append, fill_slot, write_dirent, add_dirent,
}
use klee_testfs.Dir.Path.{search_entry}
use klee_testfs.Dir.Contents.{Item, encode_items, IsName, item_size, has}
use klee_testfs.Dir.Path.{search_entry}
use klee_testfs.Dir.Contents.Lookup.{
  search_entry-items, IsDirectory, number_of, slot_of, find_slot-all, search_entry-items,
}
use klee_testfs.Dir.Contents.Place.{write_item, write_dirent-data}
use klee_testfs.Dir.Contents.Inserted.{number_of-inserted, inserted-AllItems, larger}
use klee_testfs.Dir.Contents.Spot.{full, taken, stays, inserted, Spot, spot_from}

module _ {m : Machine} {p : Ptr} {i : Inode} {k : ℕ} {es : List Item} {tail : Bytes}
    (d : IsDirectory m p i k es tail) (name : Bytes) (nr : ℕ) where
  -- The code up to the place: the directory is one, and the entries are read.
  add_dirent-slot :
      add_dirent p name nr m ≡ fill_slot p name (length name + 1) nr (slot_of name 0 es) m
  unfolding add_dirent
  add_dirent-slot =
      then_ok _ (then_ok _ (fetch-ok m p d.holds) ∙ assert_then _ m ((==_iff _ _).1 d.is_dir))
      ∙ then_ok _ (find_slot-all d name)

module _ {m : Machine} {inodes blocks : Bitmap} {table : Bytes} (is : Mounted m inodes blocks table)
    {p : Ptr} {i : Inode} {k : ℕ} {es : List Item} {tail : Bytes} (d : IsDirectory m p i k es tail)
    (name : Bytes) (nr : ℕ) where
  abbrev pub after_add : List Item
  after_add = inserted name (pos nr) es

  abbrev pub new : Item
  new = record { nr = pos nr; name = name }

  module _ (inside : k < 960) (named : IsName name) (small : nr < 2147483648)
      (absent : taken name es ≡ false) (fits : length (encode_items es) + item_size new < 64) where
    room : length (encode_items es) + item_size new ≤ length (encode_items es) + length tail
    room = omega (
      arith,
      fits,
      length-append (encode_items es) tail,
      IsImage-get_elem? m.dev.blocks (192 + k) _ is.image d.there,
    )

    spot : Spot name (pos nr) 0 es tail
    spot = spot_from name (pos nr) es 0 tail absent d.bytes room

    small_enough : length spot.before + item_size new < 64
    small_enough = omega (arith, spot.starts, fits)

    -- The entry is written at that place.
    add_dirent-written :
        add_dirent p name nr m ≡ write_dirent p name (length name + 1) nr (length spot.before) m
    unfolding fill_slot
    add_dirent-written = add_dirent-slot d name nr ∙ by_slot spot.slot
      where
        no_more : 0 + length spot.before ≡ length spot.before
        no_more = omega arith

        by_slot :
            (slot_of name 0 es ≡ reuse (0 + length spot.before))
              ⊎ ((slot_of name 0 es ≡ append (0 + length spot.before))
                  × (length spot.before ≡ length (encode_items es)))
            → fill_slot p name (length name + 1) nr (slot_of name 0 es) m
              ≡ write_dirent p name (length name + 1) nr (length spot.before) m
        by_slot (inl at) =
            ap (λ s. fill_slot p name (length name + 1) nr s m) (at ∙ ap reuse no_more)
        by_slot (inr (at, last)) =
            ap (λ s. fill_slot p name (length name + 1) nr s m) (at ∙ ap append no_more)
            ∙ then_ok _ (fetch-ok m p d.holds)
            ∙ assert_then _ m (ap (eq_int (pos (length spot.before))) d.size ∙ (==_iff _ _).1 last)

    add_dirent-IsDirectory :
        (o : Machine) × (t : Bytes) × (j : Inode) × (rest : Bytes) × Mounted o inodes blocks t
        × (add_dirent p name nr m ≡ ok (pos 0) o)
        × IsDirectory o p j k after_add rest
    add_dirent-IsDirectory =
        let (n, t, mounted, run, there, here, mallocs) =
          write_item is d inside spot.before spot.old spot.after new spot.split named spot.same
            spot.starts small_enough in
        (
          with_inode n p
              (with_size i (max_int i.din.i_size (pos (length spot.before + item_size new)))),
          t,
          with_size i (max_int i.din.i_size (pos (length spot.before + item_size new))),
          spot.tail_after,
          heap-Mounted _ mounted,
          add_dirent-written
              ∙ write_dirent-data is d inside spot.before spot.old spot.after nr name small_enough
              ∙ run,
          record {
            holds = Holds-with_inode n p _ here;
            is_dir = d.is_dir;
            size =
                ap (λ z. max_int z (pos (length spot.before + item_size new))) d.size
                ∙ larger _ _ _ spot.ends;
            direct = d.direct;
            there = there ∙ ap some (sym spot.joined);
            items = inserted-AllItems name nr es named small d.items;
            bytes = spot.bytes;
            short = omega (arith, spot.ends, spot.starts, fits);
            granted = mallocs;
          },
        )

  -- A new name is entered: testfs_add_dirent into a mounted directory of one block, of a name that is
  -- not in use and has no zero byte, where the entry still fits in the block and no allocation fails,
  -- returns 0 and leaves the file system mounted and the directory with that entry, in the first
  -- place that is free and as long or behind all others; afterwards that name is found with its
  -- number, and the search for any other name gives what it gave before.
  pub add_dirent-search_entry :
      k < 960
      → IsName name
      → nr < 2147483648
      → taken name es ≡ false
      → length (encode_items es) + item_size new < 64
      → (o : Machine) × (t : Bytes) × (j : Inode) × (rest : Bytes) × Mounted o inodes blocks t
        × (add_dirent p name nr m ≡ ok (pos 0) o)
        × IsDirectory o p j k after_add rest
        × ((other : Bytes)
            → search_entry p other o
              ≡ ok (if same_string name other then pos nr else number_of other (minus enoent) es) o)
  add_dirent-search_entry inside named small absent fits =
      let (o, t, j, rest, mounted, run, d) =
        add_dirent-IsDirectory inside named small absent fits in
      (
        o,
        t,
        j,
        rest,
        mounted,
        run,
        d,
        λ other.
            search_entry-items d other
            ∙ ap (λ z. ok z o) (number_of-inserted name other nr (minus enoent) es absent),
      )

-- A name that is in use, in a directory without a free entry of its length.
occupied :
    (name : Bytes) (offset : ℕ) (es : List Item)
    → taken name es ≡ true
    → full name es ≡ true
    → slot_of name offset es ≡ exists
unfolding taken full slot_of
occupied name offset [] t f = cc
occupied name offset (e ∷ es) t f = by_has (has e name) t (λ later.
    stays_on (stays name e) (slot_of name (offset + item_size e) es) f
      (λ more. occupied name (offset + item_size e) es later more))
  where
    stays_on :
        (b : Bool) (s : Slot)
        → (b && full name es) ≡ true
        → (full name es ≡ true → s ≡ exists)
        → (if b then s else reuse offset) ≡ exists
    stays_on true s f on = on f
    stays_on false s f on = cc f

    by_has :
        (b : Bool)
        → (if b then true else taken name es) ≡ true
        → (taken name es ≡ true
            → (if stays name e then slot_of name (offset + item_size e) es else reuse offset)
              ≡ exists)
        → (if b
            then exists
            else if stays name e
            then slot_of name (offset + item_size e) es
            else reuse offset)
          ≡ exists
    by_has true t on = refl
    by_has false t on = on t

-- A name is not entered twice: testfs_add_dirent of a name in use, into a directory of one block that
-- has no free entry of that length, returns -EEXIST and changes nothing.
pub add_dirent-exists :
    {m : Machine} {p : Ptr} {i : Inode} {k : ℕ} {es : List Item} {tail : Bytes}
    → IsDirectory m p i k es tail
    → (name : Bytes) (nr : ℕ) → taken name es ≡ true
    → full name es ≡ true
    → add_dirent p name nr m ≡ ok (minus eexist) m
unfolding fill_slot
add_dirent-exists {m} {p} d name nr t f =
    add_dirent-slot d name nr
    ∙ ap (λ s. fill_slot p name (length name + 1) nr s m) (occupied name 0 _ t f)
