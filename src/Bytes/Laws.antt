-- ===== src/Bytes/Laws.antt =====
-- The words of a buffer: reading back a write, the other words, lengths.
use klee_testfs.Common.{
  ℕ, zero, suc, ◌+◌, ◌*◌, ◌/◌, ◌%◌, ◌^◌, ◌≤◌, ◌<◌, ◌≡◌, refl, ap, ◌∙◌, ◌≢◌, [], ◌∷◌, ◌++◌, arith,
  length, ℤ, IsInt, int_of_u32, u32_of_int, u32_of_int-lt, int_of_u32-u32_of_int, take, drop,
  replicate, set, slice, slice-set_after, slice-set_before,
}
use native.Mathlib.Decide.{dec_lt}
use klee_testfs.Bytes.{Bytes, IsBytes, word_of, get_word, set_word, get_int, set_int}

pub word_of-bytes_of :
    (u : ℕ)
    → u < 2 ^ 32
    → word_of (u % 256) (u / 256 % 256) (u / 65536 % 256) (u / 16777216 % 256) ≡ u
unfolding word_of
word_of-bytes_of u h = omega arith

pub word_of-lt : (a b c d : ℕ) → a < 256 → b < 256 → c < 256 → d < 256 → word_of a b c d < 2 ^ 32
unfolding word_of
word_of-lt a b c d ha hb hc hd = omega arith

pub length-set_word : (bs : Bytes) (i u : ℕ) → length (set_word bs i u) ≡ length bs
unfolding set_word
length-set_word (a ∷ b ∷ c ∷ d ∷ rest) zero u = refl
length-set_word (a ∷ b ∷ c ∷ d ∷ rest) (suc i) u = omega (arith, length-set_word rest i u)
length-set_word [] i u = refl
length-set_word (a ∷ []) i u = refl
length-set_word (a ∷ b ∷ []) i u = refl
length-set_word (a ∷ b ∷ c ∷ []) i u = refl

pub get_word-set_word_self :
    (bs : Bytes) (i u : ℕ) → 4 * i + 3 < length bs → u < 2 ^ 32 → get_word (set_word bs i u) i ≡ u
unfolding get_word set_word
get_word-set_word_self (a ∷ b ∷ c ∷ d ∷ rest) zero u h lt = word_of-bytes_of u lt
get_word-set_word_self (a ∷ b ∷ c ∷ d ∷ rest) (suc i) u h lt =
    get_word-set_word_self rest i u (omega arith) lt
get_word-set_word_self [] i u h lt = absurd (omega arith)
get_word-set_word_self (a ∷ []) i u h lt = absurd (omega arith)
get_word-set_word_self (a ∷ b ∷ []) i u h lt = absurd (omega arith)
get_word-set_word_self (a ∷ b ∷ c ∷ []) i u h lt = absurd (omega arith)

pub get_word-set_word_ne :
    (bs : Bytes) (i j u : ℕ) → i ≢ j → get_word (set_word bs i u) j ≡ get_word bs j
unfolding get_word set_word
get_word-set_word_ne (a ∷ b ∷ c ∷ d ∷ rest) zero zero u h = absurd (h refl)
get_word-set_word_ne (a ∷ b ∷ c ∷ d ∷ rest) zero (suc j) u h = refl
get_word-set_word_ne (a ∷ b ∷ c ∷ d ∷ rest) (suc i) zero u h = refl
get_word-set_word_ne (a ∷ b ∷ c ∷ d ∷ rest) (suc i) (suc j) u h =
    get_word-set_word_ne rest i j u (λ e. h (ap suc e))
get_word-set_word_ne [] i j u h = refl
get_word-set_word_ne (a ∷ []) i j u h = refl
get_word-set_word_ne (a ∷ b ∷ []) i j u h = refl
get_word-set_word_ne (a ∷ b ∷ c ∷ []) i j u h = refl

-- An int that is written is read back.
pub get_int-set_int_self :
    (bs : Bytes) (i : ℕ) (z : ℤ) → 4 * i + 3 < length bs → IsInt z → get_int (set_int bs i z) i ≡ z
unfolding get_int set_int
get_int-set_int_self bs i z h fits =
    rw (get_word-set_word_self bs i (u32_of_int z) h (u32_of_int-lt z))
      (int_of_u32-u32_of_int z fits)

pub get_int-set_int_ne :
    (bs : Bytes) (i j : ℕ) (z : ℤ) → i ≢ j → get_int (set_int bs i z) j ≡ get_int bs j
unfolding get_int set_int
get_int-set_int_ne bs i j z h = ap int_of_u32 (get_word-set_word_ne bs i j (u32_of_int z) h)

pub length-set_int : (bs : Bytes) (i : ℕ) (z : ℤ) → length (set_int bs i z) ≡ length bs
unfolding set_int
length-set_int bs i z = length-set_word bs i (u32_of_int z)

pub IsBytes-append : (xs ys : Bytes) → IsBytes xs → IsBytes ys → IsBytes (xs ++ ys)
IsBytes-append [] ys h k = k
IsBytes-append (x ∷ xs) ys h k = (h.0, IsBytes-append xs ys h.1 k)

pub IsBytes-take : (n : ℕ) (xs : Bytes) → IsBytes xs → IsBytes (take n xs)
IsBytes-take zero xs h = tt
IsBytes-take (suc n) [] h = tt
IsBytes-take (suc n) (x ∷ xs) h = (h.0, IsBytes-take n xs h.1)

pub IsBytes-drop : (n : ℕ) (xs : Bytes) → IsBytes xs → IsBytes (drop n xs)
IsBytes-drop zero xs h = h
IsBytes-drop (suc n) [] h = tt
IsBytes-drop (suc n) (x ∷ xs) h = IsBytes-drop n xs h.1

pub IsBytes-set : (xs : Bytes) (i v : ℕ) → IsBytes xs → v < 256 → IsBytes (set xs i v)
IsBytes-set [] i v h lt = tt
IsBytes-set (x ∷ xs) zero v h lt = (lt, h.1)
IsBytes-set (x ∷ xs) (suc i) v h lt = (h.0, IsBytes-set xs i v h.1 lt)

pub IsBytes-zeros : (n : ℕ) → IsBytes (replicate n 0)
IsBytes-zeros zero = tt
IsBytes-zeros (suc n) = (omega arith, IsBytes-zeros n)

-- A word is written by four bytes.
abbrev quad : ℕ → ℕ
quad zero = 0
quad (suc k) = suc (suc (suc (suc (quad k))))

quad_lem : (k : ℕ) → quad k ≡ 4 * k
quad_lem zero = refl
quad_lem (suc k) = omega (arith, quad_lem k)

abbrev set_four : Bytes → ℕ → ℕ → Bytes
set_four bs i u =
    set (set (set (set bs i (u % 256)) (suc i) (u / 256 % 256)) (suc (suc i)) (u / 65536 % 256))
      (suc (suc (suc i))) (u / 16777216 % 256)

set_word-set_four :
    (bs : Bytes) (k u : ℕ) → 4 * k + 3 < length bs → set_word bs k u ≡ set_four bs (quad k) u
unfolding set_word
set_word-set_four (a ∷ b ∷ c ∷ d ∷ rest) zero u h = refl
set_word-set_four (a ∷ b ∷ c ∷ d ∷ rest) (suc k) u h =
    ap (λ r. a ∷ b ∷ c ∷ d ∷ r) (set_word-set_four rest k u (omega arith))
set_word-set_four [] k u h = absurd (omega arith)
set_word-set_four (a ∷ []) k u h = absurd (omega arith)
set_word-set_four (a ∷ b ∷ []) k u h = absurd (omega arith)
set_word-set_four (a ∷ b ∷ c ∷ []) k u h = absurd (omega arith)

slice-set_four_after :
    (i n : ℕ) (bs : Bytes) (j u : ℕ) → i + n ≤ j → slice i n (set_four bs j u) ≡ slice i n bs
slice-set_four_after i n bs j u h =
    slice-set_after i n _ (suc (suc (suc j))) _ (omega arith)
    ∙ slice-set_after i n _ (suc (suc j)) _ (omega arith)
    ∙ slice-set_after i n _ (suc j) _ (omega arith)
    ∙ slice-set_after i n bs j _ h

slice-set_four_before :
    (i n : ℕ) (bs : Bytes) (j u : ℕ) → j + 4 ≤ i → slice i n (set_four bs j u) ≡ slice i n bs
slice-set_four_before i n bs j u h =
    slice-set_before i n _ (suc (suc (suc j))) _ (omega arith)
    ∙ slice-set_before i n _ (suc (suc j)) _ (omega arith)
    ∙ slice-set_before i n _ (suc j) _ (omega arith)
    ∙ slice-set_before i n bs j _ (omega arith)

-- A block of words that the written word is not in.
pub slice-set_word :
    (bs : Bytes) (j k u : ℕ)
    → 4 * k + 3 < length bs
    → j ≢ k / 16
    → slice (j * 64) 64 (set_word bs k u) ≡ slice (j * 64) 64 bs
slice-set_word bs j k u inside ne =
    ap (slice (j * 64) 64) (set_word-set_four bs k u inside) ∙ elim (dec_lt j (k / 16)) [
      | yes below ↦ slice-set_four_after (j * 64) 64 bs (quad k) u (omega (arith, quad_lem k))
      | no above ↦ slice-set_four_before (j * 64) 64 bs (quad k) u (omega (arith, quad_lem k))
    ]

pub get_word-lt : (xs : Bytes) (i : ℕ) → IsBytes xs → get_word xs i < 2 ^ 32
unfolding get_word
get_word-lt (a ∷ b ∷ c ∷ d ∷ rest) zero h = word_of-lt a b c d h.0 h.1.0 h.1.1.0 h.1.1.1.0
get_word-lt (a ∷ b ∷ c ∷ d ∷ rest) (suc i) h = get_word-lt rest i h.1.1.1.1
get_word-lt [] i h = omega arith
get_word-lt (a ∷ []) i h = omega arith
get_word-lt (a ∷ b ∷ []) i h = omega arith
get_word-lt (a ∷ b ∷ c ∷ []) i h = omega arith
