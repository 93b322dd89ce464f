-- ===== src/Bitmap/Bits.antt =====
-- The bits of one byte, from tables over all bytes and offsets.
use klee_testfs.Common.{
  ℕ, zero, suc, ◌+◌, ◌≤◌, ◌<◌, ◌≡◌, refl, Bool, true, false, not, ◌||◌, none, some, arith, ltb,
  ◌==◌, ==_iff, if◌then◌else◌, ltb→lt,
}
use klee_testfs.Bitmap.{has_bit, set_bit, clear_bit, find_clear}

-- Whether every number below `limit` passes the test: the tables below are evaluated.
passes_below : ℕ → (ℕ → Bool) → Bool
passes_below (suc last) test = if test last then passes_below last test else false
passes_below zero test = true

passes_below_entry :
    (limit : ℕ) (test : ℕ → Bool) (i : ℕ)
    → passes_below limit test ≡ true
    → i < limit
    → test i ≡ true
unfolding passes_below
passes_below_entry (suc last) test i passed inside = ground (arith, passes_below_entry last test i)
passes_below_entry zero test i passed inside = absurd (omega arith)

-- A test of a byte and an offset that holds throughout.
bits_sound :
    (p : ℕ → ℕ → Bool)
    → passes_below 256 (λ w. passes_below 8 (λ o. p w o)) ≡ true
    → (w o : ℕ) → w < 256
    → o < 8
    → p w o ≡ true
bits_sound p h w o hw ho =
    passes_below_entry 8 (p w) o (passes_below_entry 256 (λ w. passes_below 8 (λ o. p w o)) w h hw)
      ho

abbrev same : Bool → Bool → Bool
same true b = b
same false b = not b

same→eq : (a b : Bool) → same a b ≡ true → a ≡ b
same→eq true true h = refl
same→eq true false h = cc
same→eq false true h = cc
same→eq false false h = refl

set_bit_table : passes_below 256 (λ w. passes_below 8 (λ o. ltb (set_bit w o) 256)) ≡ true
unfolding passes_below set_bit
set_bit_table = refl

pub set_bit-lt : (w o : ℕ) → w < 256 → o < 8 → set_bit w o < 256
set_bit-lt w o hw ho =
    ltb→lt _ 256 (bits_sound (λ w o. ltb (set_bit w o) 256) set_bit_table w o hw ho)

clear_bit_table : passes_below 256 (λ w. passes_below 8 (λ o. ltb (clear_bit w o) 256)) ≡ true
unfolding passes_below clear_bit
clear_bit_table = refl

pub clear_bit-lt : (w o : ℕ) → w < 256 → o < 8 → clear_bit w o < 256
clear_bit-lt w o hw ho =
    ltb→lt _ 256 (bits_sound (λ w o. ltb (clear_bit w o) 256) clear_bit_table w o hw ho)

-- What bit `p` is, after bit `o` is set.
abbrev after_set : ℕ → ℕ → ℕ → Bool
after_set p w o = same (has_bit (set_bit w o) p) (if o == p then true else has_bit w p)

after_set_table :
    passes_below 8 (λ p. passes_below 256 (λ w. passes_below 8 (λ o. after_set p w o))) ≡ true
unfolding passes_below has_bit set_bit
after_set_table = refl

pub has_bit-set_bit :
    (w o p : ℕ)
    → w < 256
    → o < 8
    → p < 8
    → has_bit (set_bit w o) p ≡ (if o == p then true else has_bit w p)
has_bit-set_bit w o p hw ho hp = same→eq _ _ (
    bits_sound (after_set p)
      (passes_below_entry 8 (λ p. passes_below 256 (λ w. passes_below 8 (λ o. after_set p w o))) p
        after_set_table hp)
      w o hw ho)

abbrev after_clear : ℕ → ℕ → ℕ → Bool
after_clear p w o = same (has_bit (clear_bit w o) p) (if o == p then false else has_bit w p)

after_clear_table :
    passes_below 8 (λ p. passes_below 256 (λ w. passes_below 8 (λ o. after_clear p w o))) ≡ true
unfolding passes_below has_bit clear_bit
after_clear_table = refl

pub has_bit-clear_bit :
    (w o p : ℕ)
    → w < 256
    → o < 8
    → p < 8
    → has_bit (clear_bit w o) p ≡ (if o == p then false else has_bit w p)
has_bit-clear_bit w o p hw ho hp = same→eq _ _ (
    bits_sound (after_clear p)
      (passes_below_entry 8 (λ p. passes_below 256 (λ w. passes_below 8 (λ o. after_clear p w o))) p
        after_clear_table hp)
      w o hw ho)

clear-set_table :
    passes_below 256 (λ w. passes_below 8 (λ o. has_bit w o || (clear_bit (set_bit w o) o == w)))
    ≡ true
unfolding passes_below has_bit clear_bit set_bit
clear-set_table = refl

-- Setting a clear bit and clearing it again changes nothing.
pub clear_bit-set_bit :
    (w o : ℕ) → w < 256 → o < 8 → has_bit w o ≡ false → clear_bit (set_bit w o) o ≡ w
clear_bit-set_bit w o hw ho clear = ground (
  arith,
  bits_sound (λ w o. has_bit w o || (clear_bit (set_bit w o) o == w)) clear-set_table w o hw ho,
)

set-clear_table :
    passes_below 256
      (λ w. passes_below 8 (λ o. not (has_bit w o) || (set_bit (clear_bit w o) o == w)))
    ≡ true
unfolding passes_below has_bit clear_bit set_bit
set-clear_table = refl

pub set_bit-clear_bit :
    (w o : ℕ) → w < 256 → o < 8 → has_bit w o ≡ true → set_bit (clear_bit w o) o ≡ w
set_bit-clear_bit w o hw ho marked = ground (
  arith,
  bits_sound (λ w o. not (has_bit w o) || (set_bit (clear_bit w o) o == w)) set-clear_table w o hw
      ho,
)

-- A byte from its bits.
abbrev digit : Bool → ℕ → ℕ
digit b n = if b then n else 0

abbrev of_bits : (ℕ → Bool) → ℕ
of_bits f =
    digit (f 0) 1
    + digit (f 1) 2
    + digit (f 2) 4
    + digit (f 3) 8
    + digit (f 4) 16
    + digit (f 5) 32
    + digit (f 6) 64
    + digit (f 7) 128

of_bits_table : passes_below 256 (λ w. of_bits (has_bit w) == w) ≡ true
unfolding passes_below has_bit
of_bits_table = refl

pub of_bits-has_bit : (w : ℕ) → w < 256 → of_bits (has_bit w) ≡ w
of_bits-has_bit w h = (==_iff _ w).0 (passes_below_entry 256 _ w of_bits_table h)

-- Bytes with the same bits are equal.
pub byte_ext : (w u : ℕ) → w < 256 → u < 256 → ((o : ℕ) → o < 8 → has_bit w o ≡ has_bit u o) → w ≡ u
byte_ext w u hw hu same = omega (arith, of_bits-has_bit w hw, of_bits-has_bit u hu, equal_digits)
  where
    equal_digits : of_bits (has_bit w) ≡ of_bits (has_bit u)
    equal_digits = rw (
      same 0 (omega arith),
      same 1 (omega arith),
      same 2 (omega arith),
      same 3 (omega arith),
      same 4 (omega arith),
      same 5 (omega arith),
      same 6 (omega arith),
      same 7 (omega arith),
    )

-- The lowest clear bit of a byte, where the scan finds it.
pub find_clear_sound :
    (left w offset o : ℕ)
    → find_clear left w offset ≡ some o
    → (offset ≤ o) × (o < offset + left) × (has_bit w o ≡ false)
unfolding find_clear
find_clear_sound zero w offset o h = absurd (cc)
find_clear_sound (suc left) w offset o h = ground (arith, find_clear_sound left w (offset + 1) o)

pub find_clear_below :
    (left w offset o p : ℕ)
    → find_clear left w offset ≡ some o
    → offset ≤ p
    → p < o
    → has_bit w p ≡ true
unfolding find_clear
find_clear_below zero w offset o p h lo hi = absurd (cc)
find_clear_below (suc left) w offset o p h lo hi =
    ground (arith, find_clear_below left w (offset + 1) o p)

full_or_clear_table :
    passes_below 256 (λ w. (w == 255) || elim (find_clear 8 w 0) [ none ↦ false | some o ↦ true ])
    ≡ true
unfolding passes_below has_bit find_clear
full_or_clear_table = refl

-- A byte other than 0xff has a clear bit, so the scan never falls through.
pub find_clear-ne-none : (w : ℕ) → w < 256 → (w == 255) ≡ false → find_clear 8 w 0 ≡ none → ⊥
find_clear-ne-none w h ne e = ground (
  arith,
  passes_below_entry 256
      (λ w. (w == 255) || elim (find_clear 8 w 0) [ none ↦ false | some o ↦ true ]) w
      full_or_clear_table h,
)

all_set_table : passes_below 8 (λ o. has_bit 255 o) ≡ true
unfolding passes_below has_bit
all_set_table = refl

pub has_bit-allbits : (o : ℕ) → o < 8 → has_bit 255 o ≡ true
has_bit-allbits o h = passes_below_entry 8 (has_bit 255) o all_set_table h

zero_table : passes_below 8 (λ o. not (has_bit 0 o)) ≡ true
unfolding passes_below has_bit
zero_table = refl

pub has_bit-zero : (o : ℕ) → o < 8 → has_bit 0 o ≡ false
has_bit-zero o h = ground (arith, passes_below_entry 8 (λ o. not (has_bit 0 o)) o zero_table h)
