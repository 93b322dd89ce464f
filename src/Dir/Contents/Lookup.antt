-- ===== src/Dir/Contents/Lookup.antt =====
-- dir.c: a directory in one block is a list of entries, and a name is looked for from its beginning.
use klee_testfs.Common.{
  ℕ, zero, suc, ◌+◌, ◌≤◌, ◌<◌, ◌≡◌, refl, sym, ap, ◌∙◌, Bool, true, false, not, ◌||◌, ◌==◌, some,
  List, [], ◌∷◌, ◌++◌, ℤ, pos, negsuc, is_neg, minus, get_elem?, get_or, length, length-append,
  slice, slice-append, if◌then◌else◌, arith,
}
use mathlib.Core.List.{append_assoc}
use klee_testfs.Bytes.{Bytes, IsBytes}
use klee_testfs.Machine.{Machine, ok, Inode, Ptr, M, pure, i_dir, enoent}
use klee_testfs.Machine.Run.{then_ok}
use klee_testfs.Inode.Cache.Laws.{Holds, fetch-ok}
use klee_testfs.Dir.Entry.{next_dirent, search_from, rounds}
use klee_testfs.Dir.Change.{encode_dirent, Slot, exists, reuse, append, find_slot}
use klee_testfs.Dir.Path.{search_entry}
use klee_testfs.Dir.Contents.{
  Item, encode_item, encode_items, IsItem, AllItems, dirent_of, item_size, length-encode_item, has,
  is_entry-item, header_of,
}
use klee_testfs.Dir.Contents.Next.{next_dirent-end, next_dirent-item}

-- The inode at `p` is a directory whose entries are `es`; they stand in its first block, which is data
-- block `k` and ends in `tail`. No allocation is going to fail.
pub record IsDirectory (m : Machine) (p : Ptr) (i : Inode) (k : ℕ) (es : List Item) (tail : Bytes)
    : Type 0 where
  pub holds : Holds m p i
  pub is_dir : i.din.i_type ≡ i_dir
  pub size : i.din.i_size ≡ pos (length (encode_items es))
  pub direct : get_or i.din.i_block_nr 0 (pos 0) ≡ pos (192 + k)
  pub there : get_elem? m.dev.blocks (192 + k) ≡ some (encode_items es ++ tail)
  pub items : AllItems es
  pub bytes : IsBytes tail
  pub short : length (encode_items es) < 64
  pub granted : m.mallocs ≡ []

-- The number of the first entry in use under that name, and where a new entry of that name goes.
unfoldable pub number_of : Bytes → ℤ → List Item → ℤ
number_of name ret [] = ret
number_of name ret (e ∷ es) = if has e name then e.nr else number_of name ret es

unfoldable pub slot_of : Bytes → ℕ → List Item → Slot
slot_of name offset [] = append offset
slot_of name offset (e ∷ es) =
    let rest = slot_of name (offset + item_size e) es in
    if has e name
    then exists
    else if not (is_neg e.nr) || not (length e.name + 1 == length name + 1)
    then rest
    else reuse offset

-- A branch of the loop returns at once, the other one goes on.
pub either_way :
    {A : Type 0} (b : Bool) (m : Machine) (x y : A) (c : M A)
    → c m ≡ ok y m
    → (if b then pure x else c) m ≡ ok (if b then x else y) m
either_way true m x y c h = refl
either_way false m x y c h = h

module _ {m : Machine} {p : Ptr} {i : Inode} {k : ℕ} {es : List Item} {tail : Bytes}
    (d : IsDirectory m p i k es tail) where
  abbrev n : ℕ
  n = length (encode_items es)

  -- The entry behind `before`.
  next_dirent-at :
      (before after : Bytes) (e : Item)
      → IsItem e
      → encode_items es ++ tail ≡ before ++ (encode_item e ++ after)
      → length before + item_size e ≤ n
      → next_dirent p (length before) m ≡ ok (some (dirent_of e), length before + item_size e) m
  unfolding encode_dirent
  next_dirent-at before after e item split inside =
      next_dirent-item m p d.holds d.is_dir n k d.size d.direct d.short (encode_items es ++ tail)
        d.there d.granted e item (length before) inside header name
    where
      header : slice (length before) 8 (encode_items es ++ tail) ≡ header_of e
      header =
          ap (slice (length before) 8) split
          ∙ slice-append (length before) 8 before (header_of e) ((e.name ++ 0 ∷ []) ++ after) refl
              refl

      name :
          slice (length before + 8) (length e.name + 1) (encode_items es ++ tail) ≡ e.name ++ 0 ∷ []
      name =
          ap (slice (length before + 8) (length e.name + 1))
            (split ∙ sym (append_assoc before (header_of e) ((e.name ++ 0 ∷ []) ++ after)))
          ∙ slice-append (length before + 8) (length e.name + 1) (before ++ header_of e)
              (e.name ++ 0 ∷ []) after (length-append before (header_of e))
              (length-append e.name (0 ∷ []))

  -- What is left of the entries behind `before`, and the bytes up to the next one.
  pub moved :
      (before : Bytes) (e : Item) (rest : List Item)
      → encode_items es ++ tail ≡ before ++ (encode_items (e ∷ rest) ++ tail)
      → encode_items es ++ tail ≡ (before ++ encode_item e) ++ (encode_items rest ++ tail)
  moved before e rest split =
      split
      ∙ ap (λ bs. before ++ bs) (append_assoc (encode_item e) (encode_items rest) tail)
      ∙ sym (append_assoc before (encode_item e) (encode_items rest ++ tail))

  pub length-moved :
      (before : Bytes) (e : Item) → length (before ++ encode_item e) ≡ length before + item_size e
  length-moved before e = omega (arith, length-append before (encode_item e), length-encode_item e)

  pub length-split :
      (before : Bytes) (e : Item) (rest : List Item)
      → length before + length (encode_items (e ∷ rest)) ≡ n
      → length (before ++ encode_item e) + length (encode_items rest) ≡ n
  length-split before e rest size = omega (
    arith,
    size,
    length-append before (encode_item e),
    length-append (encode_item e) (encode_items rest),
  )

  item_fits :
      (before : Bytes) (e : Item) (rest : List Item)
      → length before + length (encode_items (e ∷ rest)) ≡ n
      → length before + item_size e ≤ n
  item_fits before e rest size =
      omega (arith, size, length-append (encode_item e) (encode_items rest), length-encode_item e)

  pub next_dirent-first :
      (before : Bytes) (e : Item) (rest : List Item)
      → IsItem e
      → encode_items es ++ tail ≡ before ++ (encode_items (e ∷ rest) ++ tail)
      → length before + length (encode_items (e ∷ rest)) ≡ n
      → next_dirent p (length before) m
        ≡ ok (some (dirent_of e), length (before ++ encode_item e)) m
  next_dirent-first before e rest item split size =
      next_dirent-at before (encode_items rest ++ tail) e item
        (split ∙ ap (λ bs. before ++ bs) (append_assoc (encode_item e) (encode_items rest) tail))
        (item_fits before e rest size)
      ∙ ap (λ j. ok (some (dirent_of e), j) m) (sym (length-moved before e))

  search_from-items :
      (fuel : ℕ) (name before : Bytes) (rest : List Item) (ret : ℤ)
      → AllItems rest
      → encode_items es ++ tail ≡ before ++ (encode_items rest ++ tail)
      → length before + length (encode_items rest) ≡ n
      → length rest < fuel
      → search_from fuel p name (length before) ret m ≡ ok (number_of name ret rest) m
  unfolding search_from number_of
  search_from-items zero name before rest ret items split size h = absurd (omega arith)
  search_from-items (suc fuel) name before [] ret items split size h = then_ok _ (
      next_dirent-end m p d.holds d.is_dir n k d.size d.direct d.short (length before)
        (omega (arith, size)))
  search_from-items (suc fuel) name before (e ∷ rest) ret items split size h =
      then_ok _ (next_dirent-first before e rest items.0 split size)
      ∙ then_ok _ (is_entry-item m e name items.0)
      ∙ either_way (has e name) m e.nr (number_of name ret rest)
          (search_from fuel p name (length (before ++ encode_item e)) ret)
          (search_from-items fuel name (before ++ encode_item e) rest ret items.1
            (moved before e rest split) (length-split before e rest size) (omega arith))

  find_slot-items :
      (fuel : ℕ) (name before : Bytes) (rest : List Item)
      → AllItems rest
      → encode_items es ++ tail ≡ before ++ (encode_items rest ++ tail)
      → length before + length (encode_items rest) ≡ n
      → length rest < fuel
      → find_slot fuel p name (length name + 1) (length before) m
        ≡ ok (slot_of name (length before) rest) m
  unfolding find_slot slot_of
  find_slot-items zero name before rest items split size h = absurd (omega arith)
  find_slot-items (suc fuel) name before [] items split size h = then_ok _ (
      next_dirent-end m p d.holds d.is_dir n k d.size d.direct d.short (length before)
        (omega (arith, size)))
  find_slot-items (suc fuel) name before (e ∷ rest) items split size h =
      then_ok _ (next_dirent-first before e rest items.0 split size)
      ∙ then_ok _ (is_entry-item m e name items.0)
      ∙ either_way (has e name) m exists
          (if not (is_neg e.nr) || not (length e.name + 1 == length name + 1)
            then slot_of name (length before + item_size e) rest
            else reuse (length before))
          (if not (is_neg e.nr) || not (length e.name + 1 == length name + 1)
            then find_slot fuel p name (length name + 1) (length (before ++ encode_item e))
            else pure (reuse (length before)))
          (by_slot (not (is_neg e.nr) || not (length e.name + 1 == length name + 1)) (
            find_slot-items fuel name (before ++ encode_item e) rest items.1
              (moved before e rest split) (length-split before e rest size) (omega arith)
            ∙ ap (λ j. ok (slot_of name j rest) m) (length-moved before e)))
    where
      by_slot :
          (b : Bool)
          → find_slot fuel p name (length name + 1) (length (before ++ encode_item e)) m
            ≡ ok (slot_of name (length before + item_size e) rest) m
          → (if b
                then find_slot fuel p name (length name + 1) (length (before ++ encode_item e))
                else pure (reuse (length before)))
              m
            ≡ ok
                (if b
                  then slot_of name (length before + item_size e) rest
                  else reuse (length before))
                m
      by_slot true on = on
      by_slot false on = refl

  length-items : (rest : List Item) → length rest ≤ length (encode_items rest)
  length-items [] = omega arith
  length-items (e ∷ rest) = omega (
    arith,
    length-items rest,
    length-append (encode_item e) (encode_items rest),
    length-encode_item e,
  )

  pub enough : length es < rounds i
  enough =
      omega (
        arith,
        length-items es,
        ap (λ z. elim z as (λ _. ℕ) [ pos n ↦ n + 1 | negsuc n ↦ 1 ]) d.size,
      )

  pub search_entry-items :
      (name : Bytes) → search_entry p name m ≡ ok (number_of name (minus enoent) es) m
  unfolding search_entry
  search_entry-items name =
      then_ok _ (fetch-ok m p d.holds)
      ∙ search_from-items (rounds i) name [] es (minus enoent) d.items refl (omega arith) enough

  pub find_slot-all :
      (name : Bytes) → find_slot (rounds i) p name (length name + 1) 0 m ≡ ok (slot_of name 0 es) m
  find_slot-all name = find_slot-items (rounds i) name [] es d.items refl (omega arith) enough
