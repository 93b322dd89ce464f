-- ===== src/Csum.antt =====
-- csum.c: one checksum for each data block, in memory and in the table on disk. An int is kept as
-- its 32-bit pattern here, since checksums are only combined by xor and compared.
pub mod Laws
pub mod Xor
pub mod Put
use klee_testfs.Common.{
  ℕ, zero, suc, ◌+◌, ◌*◌, ◌/◌, ◌%◌, Bool, true, false, not, ◌&&◌, Option, none, some, List, [], ◌∷◌,
  ℤ, pos, negsuc, ◌+ℤ◌, ◌-ℤ◌, is_neg, minus, ltb, ◌==◌, if◌then◌else◌, bit_xor, slice, length,
}
use klee_testfs.Bytes.{Bytes, get_word, set_word}
use klee_testfs.Machine.{
  Machine, SuperBlock, M, ok, undefined, assertion, pure, ◌>>=◌, ◌>>◌, abort, get, put, assert,
  expect, printf, text, number, block_size, csum_table_size, einval,
}
use klee_testfs.Block.{write_blocks, read_blocks}

-- CSUM_TABLE_SIZE * BLOCK_SIZE / sizeof(int)
abbrev pub max_nr_csums : ℕ
max_nr_csums = csum_table_size * block_size / 4

-- The comparison is unsigned there, so a negative number is out of range.
unfoldable pub get_csum : ℤ → M ℕ
get_csum block_nr = do
  m ← get
  table ← expect assertion m.sb.csum_table
  pure (elim block_nr [ pos n ↦ if ltb n max_nr_csums then get_word table n else 0 | negsuc n ↦ 0 ])

unfoldable pub write_csum : ℕ → M (Unit {0})
write_csum block_nr = do
  let nr = block_nr * 4 / block_size
  m ← get
  table ← expect assertion m.sb.csum_table
  write_blocks (slice (nr * block_size) block_size table) (m.sb.dsb.csum_table_start +ℤ pos nr) 1

-- assert(block_nr >= 0 && block_nr < MAX_NR_CSUMS)
abbrev pub csum_index : ℤ → M ℕ
csum_index (pos n) = assert (ltb n max_nr_csums) >> pure n
csum_index (negsuc n) = abort assertion

unfoldable pub put_csum : ℤ → ℕ → M (Unit {0})
put_csum phy_block_nr csum = do
  m ← get
  table ← expect assertion m.sb.csum_table
  block_nr ← csum_index (phy_block_nr -ℤ m.sb.dsb.data_blocks_start)
  put (record m { sb = record (m.sb) { csum_table = some (set_word table block_nr csum) } })
  write_csum block_nr

-- The loop over the words from `i` on, with `count` rounds to go.
unfoldable pub xor_words : ℕ → ℕ → Bytes → ℕ → ℕ
xor_words zero i buf csum = csum
xor_words (suc count) i buf csum = xor_words count (i + 1) buf (bit_xor csum (get_word buf i))

unfoldable pub calculate_csum : Bytes → ℕ → M ℕ
calculate_csum buf size = assert (size % 4 == 0) >> pure (xor_words (size / 4) 0 buf 0)

-- "checksum error at block "
abbrev pub checksum_error : Bytes
checksum_error =
    99 ∷ 104 ∷ 101 ∷ 99 ∷ 107 ∷ 115 ∷ 117 ∷ 109 ∷ 32 ∷ 101 ∷ 114 ∷ 114 ∷ 111 ∷ 114 ∷ 32 ∷ 97 ∷ 116
    ∷ 32 ∷ 98 ∷ 108 ∷ 111 ∷ 99 ∷ 107 ∷ 32 ∷ []

-- The end of testfs_verify_csum: the two checksums compared.
unfoldable pub compare_csum : ℤ → ℕ → ℕ → M ℤ
compare_csum phy_block_nr csum stored = if csum == stored then pure (pos 0) else do
  printf (text checksum_error ∷ number phy_block_nr ∷ text (10 ∷ []) ∷ [])
  pure (minus einval)

unfoldable pub verify_csum : ℤ → M ℤ
verify_csum phy_block_nr = do
  m ← get
  block_nr ← csum_index (phy_block_nr -ℤ m.sb.dsb.data_blocks_start)
  block ← read_blocks phy_block_nr 1
  csum ← calculate_csum block block_size
  table ← expect undefined m.sb.csum_table
  compare_csum phy_block_nr csum (get_word table block_nr)
