-- ===== src/Super/Empty.antt =====
-- A file system with nothing in it: its maps, its checksum table and its image are zeros.
use klee_testfs.Common.{
  ℕ, zero, suc, ◌+◌, ◌≤◌, ◌<◌, ◌≡◌, refl, ap, some, ◌∷◌, replicate, length, get_elem?, slice, take,
  arith,
}
use klee_testfs.Bytes.{Bytes}
use klee_testfs.Bytes.Laws.{IsBytes-zeros}
use klee_testfs.Bitmap.{Bitmap}
use klee_testfs.Bitmap.Laws.{IsValid}
use klee_testfs.Block.{zero_block}
use klee_testfs.Block.Laws.{IsImage}

pub length-replicate : (n : ℕ) (a : ℕ) → length (replicate n a) ≡ n
length-replicate zero a = refl
length-replicate (suc n) a = omega (arith, length-replicate n a)

pub get_elem?-replicate : (n i : ℕ) (b : Bytes) → i < n → get_elem? (replicate n b) i ≡ some b
get_elem?-replicate zero i b h = absurd (omega arith)
get_elem?-replicate (suc n) zero b h = refl
get_elem?-replicate (suc n) (suc i) b h = get_elem?-replicate n i b (omega arith)

pub length-blocks : (n : ℕ) (b : Bytes) → length (replicate n b) ≡ n
length-blocks zero b = refl
length-blocks (suc n) b = omega (arith, length-blocks n b)

pub replicate-IsImage : (n : ℕ) → IsImage (replicate n zero_block)
replicate-IsImage zero = tt
replicate-IsImage (suc n) = (refl, replicate-IsImage n)

take-replicate : (k n a : ℕ) → k ≤ n → take k (replicate n a) ≡ replicate k a
take-replicate zero n a h = refl
take-replicate (suc k) zero a h = absurd (omega arith)
take-replicate (suc k) (suc n) a h = ap (λ r. a ∷ r) (take-replicate k n a (omega arith))

pub slice-replicate : (i k n a : ℕ) → i + k ≤ n → slice i k (replicate n a) ≡ replicate k a
unfolding slice
slice-replicate zero k n a h = take-replicate k n a (omega arith)
slice-replicate (suc i) zero zero a h = absurd (omega arith)
slice-replicate (suc i) (suc k) zero a h = absurd (omega arith)
slice-replicate (suc i) k (suc n) a h = slice-replicate i k n a (omega arith)

abbrev pub no_inodes : Bitmap
no_inodes = record { nbits = 512; v = replicate 64 0 }

abbrev pub no_blocks : Bitmap
no_blocks = record { nbits = 1024; v = replicate 128 0 }

abbrev pub no_csums : Bytes
no_csums = replicate 3840 0

pub no_inodes-IsValid : IsValid no_inodes
no_inodes-IsValid = record {
  words = length-replicate 64 0;
  small = omega arith;
  bytes = IsBytes-zeros 64;
  leftover = λ i lo hi. absurd (omega (arith, length-replicate 64 0));
}

pub no_blocks-IsValid : IsValid no_blocks
no_blocks-IsValid = record {
  words = length-replicate 128 0;
  small = omega arith;
  bytes = IsBytes-zeros 128;
  leftover = λ i lo hi. absurd (omega (arith, length-replicate 128 0));
}
