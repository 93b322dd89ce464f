-- ===== src/Dir/Contents/Place.antt =====
-- dir.c: testfs_write_dirent within the first block of a directory.
use klee_testfs.Common.{
  ℕ, ◌+◌, ◌-◌, ◌*◌, ◌/◌, ◌%◌, ◌≤◌, ◌<◌, ◌≡◌, refl, sym, ap, ◌∙◌, Bool, true, not, some, [], ◌∷◌,
  ◌++◌, ℤ, pos, le_int, get_elem?, get_or, length, splice, splice-append, le→leb, le→ltb,
  if◌then◌else◌, arith, replicate, List, minus,
}
use klee_testfs.Bytes.{Bytes, IsBytes}
use klee_testfs.Bytes.Laws.{IsBytes-append}
use klee_testfs.Bitmap.{Bitmap}
use klee_testfs.Machine.{
  Machine, ok, Outcome, Inode, Ptr, M, pure, ◌>>=◌, malloc, block_size, enomem,
}
use klee_testfs.Machine.Run.{then_ok}
use klee_testfs.Super.Mounted.{Mounted}
use klee_testfs.Inode.Cache.Laws.{Holds, with_inode}
use klee_testfs.Inode.Data.{write_data, with_size, max_int}
use klee_testfs.Inode.Data.Write.{write_data_lem, overwritten}
use klee_testfs.Dir.Entry.{dirent_size}
use klee_testfs.Dir.Change.{encode_dirent, pad_block, write_dirent}
use klee_testfs.Dir.Contents.{
  Item, encode_item, encode_items, IsName, AllItems, item_size, length-encode_item,
}
use klee_testfs.Dir.Contents.Lookup.{IsDirectory}

pub name-IsBytes : (s : Bytes) → IsName s → IsBytes s
name-IsBytes [] h = tt
name-IsBytes (b ∷ s) (positive, small, rest) = (small, name-IsBytes s rest)

item-IsBytes : (e : Item) → IsName e.name → IsBytes (encode_item e)
unfolding encode_dirent
item-IsBytes e h = (
  omega arith,
  (
    omega arith,
    (
      omega arith,
      (
        omega arith,
        (
          omega arith,
          (
            omega arith,
            (
              omega arith,
              (
                omega arith,
                IsBytes-append e.name (0 ∷ []) (name-IsBytes e.name h) (omega arith, tt),
              ),
            ),
          ),
        ),
      ),
    ),
  ),
)

pub items-IsBytes : (es : List Item) → AllItems es → IsBytes (encode_items es)
items-IsBytes [] h = tt
items-IsBytes (e ∷ es) h =
    IsBytes-append (encode_item e) (encode_items es) (item-IsBytes e h.0.1) (items-IsBytes es h.1)

pub malloc-ok : (m : Machine) → m.mallocs ≡ [] → malloc m ≡ ok true m
unfolding malloc
malloc-ok m granted =
    ap
      (λ l. elim l as (λ _. Outcome Bool) [
        | [] ↦ ok true m
        | g ∷ rest ↦ ok g (record m { mallocs = rest })
      ])
      granted

module _ {m : Machine} {inodes blocks : Bitmap} {table : Bytes} (is : Mounted m inodes blocks table)
    {p : Ptr} {i : Inode} {k : ℕ} {es : List Item} {tail : Bytes} (d : IsDirectory m p i k es tail)
    (inside : k < 960) (before old after : Bytes) where
  module _ (new : Item) where
    abbrev pub size_after : ℤ
    size_after = max_int i.din.i_size (pos (length before + item_size new))

    -- The bytes of an entry written in place of as many others.
    pub write_item :
        encode_items es ++ tail ≡ before ++ (old ++ after)
        → IsName new.name
        → length old ≡ item_size new
        → length before ≤ length (encode_items es)
        → length before + item_size new < 64
        → (n : Machine) × (t : Bytes) × Mounted n inodes blocks t
          × (write_data p (length before) (encode_item new) m
              ≡ ok (pos 0) (with_inode n p (with_size i size_after)))
          × (get_elem? n.dev.blocks (192 + k) ≡ some (before ++ (encode_item new ++ after)))
          × Holds n p i
          × (n.mallocs ≡ [])
    write_item split named same starts fits =
        let (n, t, mounted, run, there, here, mallocs) =
          write_data_lem is p d.holds (length before) k (encode_item new) (encode_items es ++ tail)
            (omega (arith, fits)) (omega (arith, fits, sized)) started first inside d.there
            (item-IsBytes new named)
            (IsBytes-append (encode_items es) tail (items-IsBytes es d.items) d.bytes) in
        (
          n,
          t,
          mounted,
          run
              ∙ ap (λ j. ok (pos 0) (with_inode n p (with_size i (max_int i.din.i_size (pos j)))))
                  end,
          there ∙ ap some content,
          here,
          mallocs ∙ d.granted,
        )
      where
        sized : length (encode_item new) ≡ item_size new
        sized = length-encode_item new

        end : length before + length (encode_item new) ≡ length before + item_size new
        end = omega (arith, sized)

        zeroth : length before / 64 ≡ 0
        zeroth = omega (arith, fits)

        low : length before % 64 ≡ length before
        low = omega (arith, fits)

        started : le_int (pos (length before)) i.din.i_size ≡ true
        started = ap (le_int (pos (length before))) d.size ∙ le→leb (length before) _ starts

        first : get_or i.din.i_block_nr (length before / 64) (pos 0) ≡ pos (192 + k)
        first = ap (λ j. get_or i.din.i_block_nr j (pos 0)) zeroth ∙ d.direct

        content :
            overwritten (length before) (encode_item new) (encode_items es ++ tail)
            ≡ before ++ (encode_item new ++ after)
        content =
            ap (λ j. splice j (encode_item new) (encode_items es ++ tail)) low
            ∙ ap (splice (length before) (encode_item new)) split
            ∙ splice-append (length before) before old (encode_item new) after refl
                (sized ∙ sym same)

  module _ (nr : ℕ) (name : Bytes) where
    abbrev pub entry : Item
    entry = record { nr = pos nr; name = name }

    -- An entry that fits in its block is written without padding.
    pub write_dirent-data :
        length before + item_size entry < 64
        → write_dirent p name (length name + 1) nr (length before) m
          ≡ write_data p (length before) (encode_item entry) m
    unfolding write_dirent pad_block
    write_dirent-data fits = then_ok _ (malloc-ok m d.granted) ∙ then_ok _ in_block
      where
        padding : M (ℤ × ℕ)
        padding = do
          let next_offset =
              (length before + (dirent_size + (length name + 1))) / block_size * block_size
          granted ← malloc
          if not granted then pure (minus enomem, length before) else do
            ret ← write_data p (length before) (replicate (next_offset - length before) 0)
            pure (ret, next_offset)

        in_block :
            pad_block p (length before) (dirent_size + (length name + 1)) m
            ≡ ok (pos 0, length before) m
        in_block =
            ap (λ b. (if b then padding else pure (pos 0, length before)) m)
              (le→ltb (length before / 64)
                ((length before + (dirent_size + (length name + 1))) / 64) (omega (arith, fits)))
