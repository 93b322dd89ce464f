-- ===== src/Super/Mount/Laws.antt =====
-- super.c: the superblock on disk, as init_super_block reads what write_super_block wrote.
use klee_testfs.Common.{
  ℕ, ◌+◌, ◌*◌, ◌/◌, ◌%◌, ◌^◌, ◌<◌, ◌≡◌, ap, ◌∙◌, ◌++◌, ℤ, replicate, IsInt, u32_of_int, int_of_u32,
  u32_of_int-lt, int_of_u32-u32_of_int, arith,
}
use klee_testfs.Bytes.{get_int, get_word, bytes_of}
use klee_testfs.Bytes.Laws.{word_of-bytes_of}
use klee_testfs.Machine.{DsuperBlock}
use klee_testfs.Super.Mount.{encode_dsuper, decode_dsuper}

-- What a struct dsuper_block can hold: five ints, and a time of 64 bits.
pub record IsDsuper (d : DsuperBlock) : Type 0 where
  pub inode_freemap_fits : IsInt d.inode_freemap_start
  pub block_freemap_fits : IsInt d.block_freemap_start
  pub csum_table_fits : IsInt d.csum_table_start
  pub inode_blocks_fits : IsInt d.inode_blocks_start
  pub data_blocks_fits : IsInt d.data_blocks_start
  pub time_fits : d.modification_time < 2 ^ 64

int_back : (z : ℤ) (w : ℕ) → IsInt z → w ≡ u32_of_int z → int_of_u32 w ≡ z
int_back z w fits e = ap int_of_u32 e ∙ int_of_u32-u32_of_int z fits

-- The superblock that is written to the image is the one read from it: decoding the 28 bytes of a
-- struct dsuper_block, padded to a block, undoes encoding.
pub decode_dsuper-encode_dsuper :
    (d : DsuperBlock) → IsDsuper d → decode_dsuper (encode_dsuper d ++ replicate 36 0) ≡ d
unfolding decode_dsuper encode_dsuper get_int get_word
decode_dsuper-encode_dsuper d is = λ i. record {
  inode_freemap_start = field d.inode_freemap_start is.inode_freemap_fits i;
  block_freemap_start = field d.block_freemap_start is.block_freemap_fits i;
  csum_table_start = field d.csum_table_start is.csum_table_fits i;
  inode_blocks_start = field d.inode_blocks_start is.inode_blocks_fits i;
  data_blocks_start = field d.data_blocks_start is.data_blocks_fits i;
  modification_time = time d.modification_time is.time_fits i;
}
  where
    field : (z : ℤ) → IsInt z → int_of_u32 (get_word (bytes_of (u32_of_int z)) 0) ≡ z
    field z fits = int_back z _ fits (word_of-bytes_of _ (u32_of_int-lt z))

    time :
        (t : ℕ)
        → t < 2 ^ 64
        → get_word (bytes_of (t % 2 ^ 32)) 0 + get_word (bytes_of (t / 2 ^ 32 % 2 ^ 32)) 0 * 2 ^ 32
          ≡ t
    time t h =
        ap (λ a. a + get_word (bytes_of (t / 2 ^ 32 % 2 ^ 32)) 0 * 2 ^ 32)
          (word_of-bytes_of (t % 2 ^ 32) (omega arith))
        ∙ ap (λ b. t % 2 ^ 32 + b * 2 ^ 32) (word_of-bytes_of (t / 2 ^ 32 % 2 ^ 32) (omega arith))
        ∙ omega arith
