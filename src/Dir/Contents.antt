-- ===== src/Dir/Contents.antt =====
-- dir.c: what a directory in one block holds, as a list of names with their inode numbers, and how
-- testfs_next_dirent reads it entry by entry.
pub mod Next
pub mod Lookup
pub mod Place
pub mod Spot
pub mod Inserted
pub mod Add
pub mod Resolve
pub mod Removed
pub mod Remove
use klee_testfs.Common.{
  ℕ, zero, suc, ◌+◌, ◌-◌, ◌*◌, ◌/◌, ◌%◌, ◌^◌, ◌≤◌, ◌<◌, ◌≡◌, ◌≢◌, refl, sym, ap, ◌∙◌, Bool, true,
  false, not, ◌&&◌, Option, none, some, List, [], ◌∷◌, ◌++◌, ℤ, pos, negsuc, is_neg, le_int, eq_int,
  IsInt, int_of_u32, u32_of_int, u32_of_int-lt, int_of_u32-u32_of_int, get_elem?, get_or, length,
  length-append, slice, slice-append, leb, ltb, le→leb, lt→leb, lt→ltb, le→ltb, ==_ne, ==_refl,
  ◌==◌, if◌then◌else◌, arith,
}
use klee_testfs.Bytes.{Bytes, bytes_of, get_word, get_int}
use klee_testfs.Bytes.Laws.{word_of-bytes_of}
use klee_testfs.Machine.{
  Machine, Outcome, ok, Inode, Ptr, M, pure, ◌>>=◌, ◌>>◌, and_then, assert, expect, fetch, malloc,
  undefined, block_size, i_dir,
}
use klee_testfs.Machine.Run.{then_ok, assert_then, expect_then}
use klee_testfs.Text.{c_string, same_string}
use klee_testfs.Inode.Cache.Laws.{Holds, fetch-ok}
use klee_testfs.Inode.Data.{read_data}
use klee_testfs.Inode.Data.Read.{read_data_lem}
use klee_testfs.Dir.Entry.{
  Dirent, dirent_size, assert_dir, align, read_name, read_header, next_dirent, has_name, is_entry,
}
use klee_testfs.Dir.Change.{encode_dirent}

-- An entry as the program makes it: its name is a C string, and a removed one has the number -1.
pub record Item : Type 0 where
  pub nr : ℤ
  pub name : Bytes

abbrev pub encode_item : Item → Bytes
encode_item e = encode_dirent (length e.name + 1) e.nr (e.name ++ 0 ∷ [])

abbrev pub encode_items : List Item → Bytes
encode_items [] = []
encode_items (e ∷ es) = encode_item e ++ encode_items es

abbrev pub IsName : Bytes → Type 0
IsName [] = Unit {0}
IsName (b ∷ bs) = (0 < b) × (b < 256) × IsName bs

abbrev pub IsItem : Item → Type 0
IsItem e = IsInt e.nr × IsName e.name

abbrev pub AllItems : List Item → Type 0
AllItems [] = Unit {0}
AllItems (e ∷ es) = IsItem e × AllItems es

-- The entry that is read for it.
abbrev pub dirent_of : Item → Dirent
dirent_of e = record {
  d_name_len = length e.name + 1;
  d_inode_nr = e.nr;
  d_name = e.name ++ 0 ∷ [];
}

abbrev pub item_size : Item → ℕ
item_size e = dirent_size + (length e.name + 1)

pub length-encode_item : (e : Item) → length (encode_item e) ≡ item_size e
unfolding encode_dirent
length-encode_item e = omega (arith, length-append e.name (0 ∷ []))

pub c_string-name : (s : Bytes) → IsName s → c_string (s ++ 0 ∷ []) ≡ some s
unfolding c_string
c_string-name [] h = refl
c_string-name (b ∷ s) h =
    ap
      (λ t.
        if t
        then some []
        else elim (c_string (s ++ 0 ∷ [])) [ none ↦ none | some s ↦ some (b ∷ s) ])
      (==_ne b 0 (λ e. omega arith))
    ∙ ap (λ o. elim o as (λ _. Option Bytes) [ none ↦ none | some s ↦ some (b ∷ s) ])
        (c_string-name s h.2)

-- Whether an item is in use under that name.
abbrev pub has : Item → Bytes → Bool
has e name = if is_neg e.nr then false else same_string e.name name

pub is_entry-item :
    (m : Machine) (e : Item) (name : Bytes)
    → IsItem e
    → is_entry (dirent_of e) name m ≡ ok (has e name) m
unfolding is_entry has_name
is_entry-item m e name h = by_number (is_neg e.nr)
  where
    by_number :
        (b : Bool)
        → (if b then pure false else has_name (dirent_of e) name) m
          ≡ ok (if b then false else same_string e.name name) m
    by_number true = refl
    by_number false = expect_then undefined _ m (c_string-name e.name h.1)

-- The eight bytes before a name.
abbrev pub header_of : Item → Bytes
header_of e = bytes_of (length e.name + 1) ++ bytes_of (u32_of_int e.nr)

pub name_len_back :
    (e : Item) → length e.name < 64 → get_int (header_of e) 0 ≡ pos (length e.name + 1)
unfolding get_int get_word u32_of_int
name_len_back e h =
    ap int_of_u32 (word_of-bytes_of (length e.name + 1) (omega arith) ∙ same)
    ∙ int_of_u32-u32_of_int (pos (length e.name + 1)) (omega arith)
  where
    same : length e.name + 1 ≡ u32_of_int (pos (length e.name + 1))
    same = omega arith

pub nr_back : (e : Item) → IsInt e.nr → get_int (header_of e) 1 ≡ e.nr
unfolding get_int get_word
nr_back e h = ap int_of_u32 (word_of-bytes_of _ (u32_of_int-lt e.nr)) ∙ int_of_u32-u32_of_int e.nr h
