-- ===== src/Tests/Mounted.antt =====
-- A file system in memory and on its image, as mktestfs leaves it with one block taken.
use klee_testfs.Common.{
  ℕ, zero, suc, ◌+◌, ◌*◌, ◌<◌, ◌≡◌, refl, ap, sym, ◌∙◌, true, false, some, List, [], ◌∷◌, pos,
  replicate, get_elem?, get_or, IsInt, ◌≢◌, slice, arith,
}
use klee_testfs.Bytes.{Bytes, IsBytes, get_word, word_of}
use klee_testfs.Bytes.Laws.{IsBytes-zeros}
use klee_testfs.Bitmap.{
  Bitmap, isset, has_bit, set_bit, alloc, alloc_from, div_round_up, find_clear, take_bit, allocated,
}
use klee_testfs.Bitmap.Laws.{IsValid}
use klee_testfs.Machine.{Machine, Dinode, Inode, ok, fetch, live, tx_none, i_file}
use klee_testfs.Block.{zero_block}
use klee_testfs.Block.Laws.{written, get_elem?-put_block_self}
use klee_testfs.Csum.{xor_words}
use klee_testfs.Csum.Laws.{csum_of}
use klee_testfs.Super.Empty.{
  length-replicate, get_elem?-replicate, length-blocks, replicate-IsImage, slice-replicate,
}
use klee_testfs.Super.Mount.{layout}
use klee_testfs.Super.Mounted.{Mounted, written-Mounted}
use klee_testfs.Super.Mount.Laws.{IsDsuper}
use klee_testfs.Inode.Cache.{inode_hash_find, chain_of, find_in}
use klee_testfs.Inode.Cache.Laws.{IsDinode}

abbrev pub inode_map : Bitmap
inode_map = record { nbits = 512; v = replicate 64 0 }

abbrev pub block_map : Bitmap
block_map = record { nbits = 1024; v = 1 ∷ replicate 127 0 }

abbrev pub table : Bytes
table = replicate 3840 0

abbrev pub image : List Bytes
image = zero_block ∷ zero_block ∷ (1 ∷ replicate 63 0) ∷ replicate 200 zero_block

abbrev pub file_dinode : Dinode
file_dinode = record {
  i_type = i_file;
  i_size = pos 0;
  i_mod_time = pos 0;
  i_block_nr = pos 0 ∷ pos 0 ∷ pos 0 ∷ pos 0 ∷ [];
  i_indirect = pos 0;
}

abbrev pub dirty_file : Inode
dirty_file = record { dirty = true; din = file_dinode; i_nr = 0; i_count = 1 }

abbrev pub clean_file : Inode
clean_file = record { dirty = false; din = file_dinode; i_nr = 1; i_count = 1 }

-- Ten bytes in the first data block.
abbrev pub short_file : Inode
short_file = record {
  dirty = false;
  din = record file_dinode { i_size = pos 10; i_block_nr = pos 192 ∷ pos 0 ∷ pos 0 ∷ pos 0 ∷ [] };
  i_nr = 2;
  i_count = 1;
}

abbrev pub mounted : Machine
mounted = record {
  dev = record { blocks = image; position = 0 };
  sb = record {
    dsb = layout;
    inode_freemap = some inode_map;
    block_freemap = some block_map;
    tx_in_progress = tx_none;
    csum_table = some table;
  };
  heap = some dirty_file ∷ some clean_file ∷ some short_file ∷ [];
  hash_table = some ((1 ∷ 0 ∷ []) ∷ replicate 255 []);
  mallocs = [];
  stdout = [];
  time = 0;
  hash_int = λ nr bits. 0;
}

pub inode_map-IsValid : IsValid inode_map
inode_map-IsValid = record {
  words = length-replicate 64 0;
  small = omega arith;
  bytes = IsBytes-zeros 64;
  leftover = λ i lo hi. absurd (omega (arith, length-replicate 64 0));
}

pub block_map-IsValid : IsValid block_map
block_map-IsValid = record {
  words = ap suc (length-replicate 127 0);
  small = omega arith;
  bytes = (omega arith, IsBytes-zeros 127);
  leftover = λ i lo hi. absurd (omega (arith, length-replicate 127 0));
}

past_map : (j : ℕ) → 4 + j ≡ suc (suc (suc (j + 1)))
past_map j = omega arith

in_block_map : (j : ℕ) → j < 2 → get_elem? image (2 + j) ≡ some (slice (j * 64) 64 block_map.v)
unfolding slice
in_block_map zero h = refl
in_block_map (suc zero) h = refl
in_block_map (suc (suc j)) h = absurd (omega arith)

pub mounted-Mounted : Mounted mounted inode_map block_map table
unfolding slice
mounted-Mounted = record {
  inode_freemap_start = refl;
  block_freemap_start = refl;
  csum_table_start = refl;
  inode_blocks_start = refl;
  data_blocks_start = refl;
  inode_freemap = refl;
  block_freemap = refl;
  csum_table = refl;
  inodes_valid = inode_map-IsValid;
  blocks_valid = block_map-IsValid;
  nr_inodes = refl;
  nr_blocks = refl;
  length_table = length-replicate 3840 0;
  image = (refl, (refl, (refl, replicate-IsImage 200)));
  fits = omega (arith, length-blocks 200 zero_block);
  inode_map = refl;
  block_map = in_block_map;
  csums = λ j h.
      ap (get_elem? image) (past_map j)
      ∙ get_elem?-replicate 200 (j + 1) zero_block (omega arith)
      ∙ ap some (sym (slice-replicate (j * 64) 64 3840 0 (omega arith)));
}

sevens-IsBytes : (n : ℕ) → IsBytes (replicate n 7)
sevens-IsBytes zero = tt
sevens-IsBytes (suc n) = (omega arith, sevens-IsBytes n)

pub block_of_sevens-IsBytes : IsBytes (replicate 64 7)
block_of_sevens-IsBytes = sevens-IsBytes 64

-- The first data block with its first byte changed.
abbrev pub damaged_block : Bytes
damaged_block = 1 ∷ replicate 63 0

abbrev pub damaged : Machine
damaged = written mounted 192 damaged_block

pub damaged-Mounted : Mounted damaged inode_map block_map table
damaged-Mounted = written-Mounted mounted-Mounted 192 damaged_block (omega arith) refl

pub damaged_there : get_elem? damaged.dev.blocks (192 + 0) ≡ some damaged_block
damaged_there = get_elem?-put_block_self image 192 damaged_block

pub stored_zero : get_word table 0 ≡ csum_of zero_block
unfolding get_word word_of xor_words
stored_zero = refl

pub first_word_differs : get_word damaged_block 0 ≢ get_word zero_block 0
unfolding get_word word_of
first_word_differs e = omega (arith, e)

pub other_words_same : (j : ℕ) → j ≢ 0 → get_word damaged_block j ≡ get_word zero_block j
unfolding get_word
other_words_same zero ne = absurd (ne refl)
other_words_same (suc j) ne = refl

pub first_used : isset block_map 0 ≡ true
unfolding isset has_bit
first_used = refl

pub second_clear : isset block_map 1 ≡ false
unfolding isset has_bit
second_clear = refl

pub file_dinode-IsDinode : IsDinode file_dinode
file_dinode-IsDinode = record {
  type_fits = omega arith;
  size_fits = zero_fits;
  time_fits = zero_fits;
  four = refl;
  blocks_fit = in_blocks;
  indirect_fits = zero_fits;
}
  where
    zero_fits : IsInt (pos 0)
    zero_fits = omega arith

    in_blocks : (j : ℕ) → j < 4 → IsInt (get_or (pos 0 ∷ pos 0 ∷ pos 0 ∷ pos 0 ∷ []) j (pos 0))
    in_blocks zero h = zero_fits
    in_blocks (suc zero) h = zero_fits
    in_blocks (suc (suc zero)) h = zero_fits
    in_blocks (suc (suc (suc zero))) h = zero_fits
    in_blocks (suc (suc (suc (suc j)))) h = absurd (omega arith)

pub layout-IsDsuper : IsDsuper layout
layout-IsDsuper = record {
  inode_freemap_fits = omega arith;
  block_freemap_fits = omega arith;
  csum_table_fits = omega arith;
  inode_blocks_fits = omega arith;
  data_blocks_fits = omega arith;
  time_fits = omega arith;
}

pub clean_file_found : inode_hash_find 1 mounted ≡ ok (some 1) mounted
unfolding inode_hash_find chain_of find_in fetch live
clean_file_found = refl

-- Eight bits, with two in use.
abbrev pub five : Bitmap
five = record { nbits = 8; v = 5 ∷ [] }

-- The same after the next allocation.
abbrev pub five_used : Bitmap
five_used = record { nbits = 8; v = 7 ∷ [] }

pub five-IsValid : IsValid five
five-IsValid = record {
  words = refl;
  small = omega arith;
  bytes = (omega arith, tt);
  leftover = λ i lo hi. absurd (omega arith);
}

pub five_used-IsValid : IsValid five_used
five_used-IsValid = record {
  words = refl;
  small = omega arith;
  bytes = (omega arith, tt);
  leftover = λ i lo hi. absurd (omega arith);
}

pub five_next : alloc five ≡ allocated 1 five_used
unfolding alloc alloc_from div_round_up find_clear take_bit has_bit set_bit
five_next = refl
