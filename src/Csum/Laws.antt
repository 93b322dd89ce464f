-- ===== src/Csum/Laws.antt =====
-- What a checksum tells: a block that is as it was summed passes, a block that differs in one word
-- does not.
use klee_testfs.Common.{
  ℕ, zero, suc, ◌+◌, ◌^◌, ◌≤◌, ◌<◌, ◌≡◌, ◌≢◌, refl, ap, subst, sym, ◌∙◌, some, [], ◌∷◌, ◌++◌, ℤ,
  pos, minus, get_elem?, arith, ==_refl, ==_ne, lt→ltb, bit_xor,
}
use native.Mathlib.Decide.{ℕ_discrete}
use klee_testfs.Bytes.{Bytes, IsBytes, get_word}
use klee_testfs.Bytes.Laws.{get_word-lt}
use klee_testfs.Bitmap.{Bitmap}
use klee_testfs.Machine.{
  Machine, M, ok, and_then, pure, ◌>>=◌, expect, undefined, block_size, einval, printf, text,
  number,
}
use klee_testfs.Machine.Run.{then_ok, expect_then}
use klee_testfs.Block.{read_blocks}
use klee_testfs.Block.Laws.{read_one}
use klee_testfs.Csum.{
  xor_words, calculate_csum, csum_index, compare_csum, verify_csum, checksum_error,
}
use klee_testfs.Csum.Xor.{bit_xor-cancel_right, bit_xor_comm, bit_xor-lt}
use klee_testfs.Super.Freemap.Free.{data_index}
use klee_testfs.Super.Mounted.{Mounted}

-- The checksum of a block: testfs_calculate_csum of BLOCK_SIZE bytes.
abbrev pub csum_of : Bytes → ℕ
csum_of block = xor_words 16 0 block 0

pub calculate_csum-ok :
    (block : Bytes) (m : Machine) → calculate_csum block 64 m ≡ ok (csum_of block) m
unfolding calculate_csum
calculate_csum-ok block m = refl

xor_words-lt :
    (n i : ℕ) (block : Bytes) (c : ℕ) → IsBytes block → c < 2 ^ 32 → xor_words n i block c < 2 ^ 32
unfolding xor_words
xor_words-lt zero i block c h small = small
xor_words-lt (suc n) i block c h small =
    xor_words-lt n (i + 1) block (bit_xor c (get_word block i)) h
      (bit_xor-lt 32 c (get_word block i) small (get_word-lt block i h))

pub csum_of-lt : (block : Bytes) → IsBytes block → csum_of block < 2 ^ 32
csum_of-lt block h = xor_words-lt 16 0 block 0 h (omega arith)

xor_words-cancel :
    (n i : ℕ) (block : Bytes) (c d : ℕ) → xor_words n i block c ≡ xor_words n i block d → c ≡ d
unfolding xor_words
xor_words-cancel zero i block c d e = e
xor_words-cancel (suc n) i block c d e = bit_xor-cancel_right c d (get_word block i) (
    xor_words-cancel n (i + 1) block (bit_xor c (get_word block i)) (bit_xor d (get_word block i))
      e)

-- The same words from `i` on give the same sum.
xor_words-same :
    (n i : ℕ) (a b : Bytes) (c : ℕ)
    → ((j : ℕ) → i ≤ j → get_word a j ≡ get_word b j)
    → xor_words n i a c ≡ xor_words n i b c
unfolding xor_words
xor_words-same zero i a b c same = refl
xor_words-same (suc n) i a b c same =
    ap (λ w. xor_words n (i + 1) a (bit_xor c w)) (same i (omega arith))
    ∙ xor_words-same n (i + 1) a b (bit_xor c (get_word b i)) (λ j h. same j (omega arith))

xor_words-one :
    (n i k : ℕ) (a b : Bytes) (c : ℕ)
    → i ≤ k
    → k < i + n
    → ((j : ℕ) → j ≢ k → get_word a j ≡ get_word b j)
    → xor_words n i a c ≡ xor_words n i b c
    → get_word a k ≡ get_word b k
unfolding xor_words
xor_words-one zero i k a b c lo hi same e = absurd (omega arith)
xor_words-one (suc n) i k a b c lo hi same e = elim (ℕ_discrete i k) [
  | yes here ↦
      let rest =
        xor_words-same n (i + 1) a b (bit_xor c (get_word a i))
          (λ j h. same j (λ q. omega arith)) in
      let sums : bit_xor c (get_word a i) ≡ bit_xor c (get_word b i) =
        xor_words-cancel n (i + 1) b _ _ (sym rest ∙ e) in
      subst (λ j. get_word a j ≡ get_word b j) here
        (bit_xor-cancel_right _ _ c
          (bit_xor_comm (get_word a i) c ∙ sums ∙ bit_xor_comm c (get_word b i)))
  | no later ↦
      xor_words-one n (i + 1) k a b (bit_xor c (get_word a i)) (omega arith) (omega arith) same
        (e ∙ ap (λ w. xor_words n (i + 1) b (bit_xor c w)) (sym (same i later)))
]

-- Two blocks that differ in exactly one of their sixteen words have different checksums.
pub csum_of_ne :
    (a b : Bytes) (k : ℕ)
    → k < 16
    → get_word a k ≢ get_word b k
    → ((j : ℕ) → j ≢ k → get_word a j ≡ get_word b j)
    → csum_of a ≢ csum_of b
csum_of_ne a b k h differs same e =
    differs (xor_words-one 16 0 k a b 0 (omega arith) (omega arith) same e)

-- The state after the message of testfs_verify_csum about the block `nr`.
abbrev pub complained : Machine → ℕ → Machine
complained m nr = record m {
  stdout = m.stdout ++ text checksum_error ∷ number (pos nr) ∷ text (10 ∷ []) ∷ [];
}

module _ {m : Machine} {inodes blocks : Bitmap} {table : Bytes} (is : Mounted m inodes blocks table)
    (k : ℕ) (block : Bytes) where
  verify_csum-eq :
      k < 960
      → get_elem? m.dev.blocks (192 + k) ≡ some block
      → verify_csum (pos (192 + k)) m
        ≡ compare_csum (pos (192 + k)) (csum_of block) (get_word table k) m
  unfolding verify_csum
  verify_csum-eq h there =
      ap (λ z. and_then (csum_index z m) checked)
        (data_index m.sb.dsb.data_blocks_start k is.data_blocks_start)
      ∙ ap (λ t. and_then (t m) checked) index
      ∙ then_ok _ (read_one (192 + k) m block there)
      ∙ then_ok _ (calculate_csum-ok block m)
      ∙ expect_then undefined (λ t. compare_csum (pos (192 + k)) (csum_of block) (get_word t k)) m
          is.csum_table
    where
      checked : ℕ → M ℤ
      checked nr = do
        block ← read_blocks (pos (192 + k)) 1
        csum ← calculate_csum block block_size
        table ← expect undefined m.sb.csum_table
        compare_csum (pos (192 + k)) csum (get_word table nr)

      index : csum_index (pos k) ≡ pure k
      index = rw (lt→ltb k 960 h)

  -- testfs_verify_csum of one of the first 960 data blocks of a mounted file system, whose stored
  -- checksum is that of the block on the image, returns 0 and changes nothing.
  pub verify_csum_lem :
      k < 960
      → get_elem? m.dev.blocks (192 + k) ≡ some block
      → get_word table k ≡ csum_of block
      → verify_csum (pos (192 + k)) m ≡ ok (pos 0) m
  unfolding compare_csum
  verify_csum_lem h there stored = verify_csum-eq h there ∙ rw (stored, ==_refl (csum_of block))

  -- Damage within one word of a block does not go unnoticed: where the stored checksum is that of an
  -- original, and the block on the image differs from it in exactly one of its sixteen words,
  -- testfs_verify_csum prints its message and returns -EINVAL, and nothing else changes.
  pub verify_csum-damaged :
      (original : Bytes) (i : ℕ)
      → k < 960
      → get_elem? m.dev.blocks (192 + k) ≡ some block
      → get_word table k ≡ csum_of original
      → i < 16
      → get_word block i ≢ get_word original i
      → ((j : ℕ) → j ≢ i → get_word block j ≡ get_word original j)
      → verify_csum (pos (192 + k)) m ≡ ok (minus einval) (complained m (192 + k))
  unfolding compare_csum printf
  verify_csum-damaged original i h there stored hi differs same =
      verify_csum-eq h there ∙ rw (stored, ==_ne _ _ (csum_of_ne block original i hi differs same))
