-- ===== src/Bytes.antt =====
-- Memory as bytes: a `char` buffer read and written as an array of 32-bit words, least significant
-- byte first, as the casts `(int *) block` and the memcpy of packed structures do.
pub mod Laws
use klee_testfs.Common.{
  ℕ, zero, suc, ◌+◌, ◌*◌, ◌/◌, ◌%◌, ◌<◌, List, [], ◌∷◌, ℤ, u32_of_int, int_of_u32,
}

abbrev pub Bytes : Type 0
Bytes = List ℕ

abbrev pub IsBytes : Bytes → Type 0
IsBytes [] = Unit {0}
IsBytes (b ∷ bs) = (b < 256) × IsBytes bs

unfoldable pub word_of : ℕ → ℕ → ℕ → ℕ → ℕ
word_of a b c d = a + 256 * b + 65536 * c + 16777216 * d

abbrev pub bytes_of : ℕ → Bytes
bytes_of u = u % 256 ∷ u / 256 % 256 ∷ u / 65536 % 256 ∷ u / 16777216 % 256 ∷ []

-- ((unsigned *) bs)[i]; 0 out of range, where no caller reads.
unfoldable pub get_word : Bytes → ℕ → ℕ
get_word (a ∷ b ∷ c ∷ d ∷ rest) zero = word_of a b c d
get_word (a ∷ b ∷ c ∷ d ∷ rest) (suc i) = get_word rest i
get_word _ _ = 0

-- ((unsigned *) bs)[i] = u; nothing out of range, where no caller writes.
unfoldable pub set_word : Bytes → ℕ → ℕ → Bytes
set_word (a ∷ b ∷ c ∷ d ∷ rest) zero u =
    u % 256 ∷ u / 256 % 256 ∷ u / 65536 % 256 ∷ u / 16777216 % 256 ∷ rest
set_word (a ∷ b ∷ c ∷ d ∷ rest) (suc i) u = a ∷ b ∷ c ∷ d ∷ set_word rest i u
set_word bs _ _ = bs

-- The same at type int.
unfoldable pub get_int : Bytes → ℕ → ℤ
get_int bs i = int_of_u32 (get_word bs i)

unfoldable pub set_int : Bytes → ℕ → ℤ → Bytes
set_int bs i z = set_word bs i (u32_of_int z)
