-- ===== src/Tests/Directories.antt =====
-- Directories of one block at concrete inputs: one that holds the file foo and a free entry.
use klee_testfs.Common.{
  ◌≡◌, refl, true, false, some, List, [], ◌∷◌, ◌++◌, pos, negsuc, minus, replicate, if◌then◌else◌,
  arith,
}
use klee_testfs.Bytes.{Bytes}
use klee_testfs.Bytes.Laws.{IsBytes-zeros}
use klee_testfs.Machine.{Machine, Inode, ok, fetch, live, i_dir, eexist, enoent}
use klee_testfs.Text.{same_string}
use klee_testfs.Block.Laws.{written, get_elem?-put_block_self}
use klee_testfs.Super.Mounted.{Mounted, written-Mounted, heap-Mounted}
use klee_testfs.Inode.Cache.{inode_hash_find, chain_of, find_in}
use klee_testfs.Dir.Change.{encode_dirent, add_dirent, remove_dirent}
use klee_testfs.Dir.Path.{search_entry, dir_name_to_inode_nr}
use klee_testfs.Dir.Contents.{Item, encode_items, AllItems}
use klee_testfs.Dir.Contents.Lookup.{IsDirectory, number_of}
use klee_testfs.Dir.Contents.Spot.{taken, full, inserted}
use klee_testfs.Dir.Contents.Removed.{removed}
use klee_testfs.Dir.Contents.Add.{add_dirent-search_entry, add_dirent-exists}
use klee_testfs.Dir.Contents.Resolve.{IsPlain, dir_name_to_inode_nr-items}
use klee_testfs.Dir.Contents.Remove.{remove_dirent-search_entry, remove_dirent-absent}
use klee_testfs.Tests.Mounted.{inode_map, block_map, table, file_dinode, mounted, mounted-Mounted}

abbrev foo : Bytes
foo = 102 ∷ 111 ∷ 111 ∷ []

abbrev ab : Bytes
ab = 97 ∷ 98 ∷ []

abbrev cd : Bytes
cd = 99 ∷ 100 ∷ []

abbrev entries : List Item
entries = record { nr = pos 1; name = foo } ∷ record { nr = negsuc 0; name = ab } ∷ []

abbrev behind : Bytes
behind = replicate 41 0

abbrev dir_inode : Inode
dir_inode = record {
  dirty = false;
  din = record file_dinode {
    i_type = i_dir;
    i_size = pos 23;
    i_block_nr = pos 192 ∷ pos 0 ∷ pos 0 ∷ pos 0 ∷ [];
  };
  i_nr = 3;
  i_count = 1;
}

abbrev with_dir : Machine
with_dir = record (written mounted 192 (encode_items entries ++ behind)) {
  heap = mounted.heap ++ some dir_inode ∷ [];
}

with_dir-Mounted : Mounted with_dir inode_map block_map table
unfolding encode_dirent
with_dir-Mounted =
    heap-Mounted (mounted.heap ++ some dir_inode ∷ [])
      (written-Mounted mounted-Mounted 192 (encode_items entries ++ behind) (omega arith) refl)

entries-AllItems : AllItems entries
entries-AllItems = (
  (
    omega arith,
    (omega arith, omega arith, (omega arith, omega arith, (omega arith, omega arith, tt))),
  ),
  ((omega arith, (omega arith, omega arith, (omega arith, omega arith, tt))), tt),
)

directory : IsDirectory with_dir 3 dir_inode 0 entries behind
unfolding encode_dirent
directory = record {
  holds = refl;
  is_dir = refl;
  size = refl;
  direct = refl;
  there = get_elem?-put_block_self mounted.dev.blocks 192 (encode_items entries ++ behind);
  items = entries-AllItems;
  bytes = IsBytes-zeros 41;
  short = omega arith;
  granted = refl;
}

open_file : inode_hash_find 1 with_dir ≡ ok (some 1) with_dir
unfolding inode_hash_find chain_of find_in fetch live
open_file = refl

new_name : taken cd entries ≡ false
unfolding taken same_string
new_name = refl

old_name : taken foo entries ≡ true
unfolding taken same_string
old_name = refl

no_place : full foo entries ≡ true
unfolding full
no_place = refl

add_dirent-search_entry_example :
    (o : Machine) × (t : Bytes) × (j : Inode) × (rest : Bytes) × Mounted o inode_map block_map t
    × (add_dirent 3 cd 2 with_dir ≡ ok (pos 0) o)
    × IsDirectory o 3 j 0 (inserted cd (pos 2) entries) rest
    × ((other : Bytes)
        → search_entry 3 other o
          ≡ ok (if same_string cd other then pos 2 else number_of other (minus enoent) entries) o)
unfolding encode_dirent
add_dirent-search_entry_example =
    add_dirent-search_entry with_dir-Mounted directory cd 2 (omega arith)
      (omega arith, omega arith, (omega arith, omega arith, tt)) (omega arith) new_name
      (omega arith)

add_dirent-exists_example : add_dirent 3 foo 2 with_dir ≡ ok (minus eexist) with_dir
add_dirent-exists_example = add_dirent-exists directory foo 2 old_name no_place

dir_name_to_inode_nr-items_example :
    dir_name_to_inode_nr 3 foo with_dir ≡ ok (number_of foo (minus enoent) entries, 3) with_dir
dir_name_to_inode_nr-items_example = dir_name_to_inode_nr-items directory foo plain (omega arith)
  where
    plain : IsPlain foo
    plain = (λ e. omega (arith, e), (λ e. omega (arith, e), (λ e. omega (arith, e), tt)))

remove_dirent-absent_example : remove_dirent 3 cd with_dir ≡ ok (minus enoent) with_dir
unfolding same_string
remove_dirent-absent_example = remove_dirent-absent directory cd refl refl new_name

foo_number : number_of foo (minus enoent) entries ≡ pos 1
unfolding number_of same_string
foo_number = refl

foo_once : taken foo (removed foo entries) ≡ false
unfolding taken removed same_string
foo_once = refl

remove_dirent-search_entry_example :
    (o : Machine) × (t : Bytes) × (i' : Inode) × Mounted o inode_map block_map t
    × (remove_dirent 3 foo with_dir ≡ ok (pos 1) o)
    × IsDirectory o 3 i' 0 (removed foo entries) behind
    × ((other : Bytes)
        → search_entry 3 other o
          ≡ ok
              (if same_string foo other
                then minus enoent
                else number_of other (minus enoent) entries)
              o)
unfolding same_string
remove_dirent-search_entry_example =
    remove_dirent-search_entry with_dir-Mounted directory foo 1 (omega arith) refl refl foo_number
      foo_once open_file refl refl (omega arith) (λ e. omega (arith, e))
