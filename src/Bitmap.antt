-- ===== src/Bitmap.antt =====
-- bitmap.c: an array of bits in bytes. An operation of the source that may stop at an assertion
-- returns an option (`none`: an assertion fails), or, for bitmap_alloc, a result of its own.
pub mod Bits
pub mod Laws
pub mod Alloc
pub mod Create
use klee_testfs.Common.{
  ℕ, zero, suc, ◌+◌, ◌-◌, ◌*◌, ◌/◌, ◌%◌, ◌^◌, Bool, true, false, not, ◌&&◌, Option, none, some,
  List, [], ◌∷◌, ltb, ◌==◌, if◌then◌else◌, bit_and, bit_or, get_or, set, replicate,
}
use klee_testfs.Bytes.{Bytes}

-- BITS_PER_WORD and WORD_ALLBITS.
abbrev pub bits_per_word : ℕ
bits_per_word = 8

abbrev pub word_allbits : ℕ
word_allbits = 255

-- `v` has DIVROUNDUP(nbits, 8) bytes: see Laws.IsValid.
pub record Bitmap : Type 0 where
  pub nbits : ℕ
  pub v : Bytes

-- DIVROUNDUP(a, b), at u_int32_t.
unfoldable pub div_round_up : ℕ → ℕ → ℕ
div_round_up a b = (a + b - 1) % 2 ^ 32 / b

-- (WORD_TYPE) 1 << offset
abbrev pub mask : ℕ → ℕ
mask offset = 2 ^ offset

-- (w & mask) != 0
unfoldable pub has_bit : ℕ → ℕ → Bool
has_bit w offset = not (bit_and w (mask offset) == 0)

-- w |= mask
unfoldable pub set_bit : ℕ → ℕ → ℕ
set_bit w offset = bit_or w (mask offset)

-- w &= ~mask, at WORD_TYPE
unfoldable pub clear_bit : ℕ → ℕ → ℕ
clear_bit w offset = bit_and w (word_allbits - mask offset)

-- for (j = offset; j < BITS_PER_WORD; j++) v[ix] |= 1 << j, with `left` rounds to go.
unfoldable pub fill_bits : ℕ → ℕ → ℕ → ℕ
fill_bits zero j w = w
fill_bits (suc left) j w = fill_bits left (j + 1) (set_bit w j)

-- bitmap_create, its two allocations granted: bzero, then the leftover bits at the end in use.
unfoldable pub create : ℕ → Option Bitmap
unfolding fill_bits div_round_up
create nbits =
    let words = div_round_up nbits bits_per_word in
    let v = replicate words 0 in
    let ix = words - 1 in
    let overbits = nbits - ix * bits_per_word in
    if ltb (nbits / bits_per_word) words
    then (if (nbits / bits_per_word == ix) && (ltb 0 overbits && ltb overbits bits_per_word)
        then some (record {
          nbits = nbits;
          v = set v ix (fill_bits (bits_per_word - overbits) overbits (get_or v ix 0));
        })
        else none)
    else some (record { nbits = nbits; v = v })

-- Of bitmap_alloc: the index and the new map, -ENOSPC, or a failed assertion.
pub data Allocation : Type 0 where
  allocated : ℕ → Bitmap → Allocation
  no_space : Allocation
  asserted : Allocation

-- The loop over the offsets of one byte, with `left` rounds to go.
unfoldable pub find_clear : ℕ → ℕ → ℕ → Option ℕ
find_clear zero w offset = none
find_clear (suc left) w offset =
    let rest = find_clear left w (offset + 1) in if has_bit w offset then rest else some offset

-- The body for a byte that is not WORD_ALLBITS.
unfoldable pub take_bit : Bitmap → ℕ → Option ℕ → Allocation
take_bit b ix none = asserted
take_bit b ix (some offset) =
    let index = ix * bits_per_word + offset in
    if ltb index b.nbits
    then allocated index (record b { v = set b.v ix (set_bit (get_or b.v ix 0) offset) })
    else asserted

-- The loop over the bytes, with `left` rounds to go.
unfoldable pub alloc_from : ℕ → ℕ → Bitmap → Allocation
unfolding find_clear take_bit
alloc_from zero ix b = no_space
alloc_from (suc left) ix b =
    let rest = alloc_from left (ix + 1) b in
    if get_or b.v ix 0 == word_allbits
    then rest
    else take_bit b ix (find_clear bits_per_word (get_or b.v ix 0) 0)

unfoldable pub alloc : Bitmap → Allocation
unfolding alloc_from div_round_up
alloc b = alloc_from (div_round_up b.nbits bits_per_word) 0 b

unfoldable pub isset : Bitmap → ℕ → Bool
isset b index = has_bit (get_or b.v (index / bits_per_word) 0) (index % bits_per_word)

unfoldable pub mark : Bitmap → ℕ → Option Bitmap
unfolding isset
mark b index =
    let ix = index / bits_per_word in
    if ltb index b.nbits && not (isset b index)
    then some (record b { v = set b.v ix (set_bit (get_or b.v ix 0) (index % bits_per_word)) })
    else none

unfoldable pub unmark : Bitmap → ℕ → Option Bitmap
unfolding isset
unmark b index =
    let ix = index / bits_per_word in
    if ltb index b.nbits && isset b index
    then some (record b { v = set b.v ix (clear_bit (get_or b.v ix 0) (index % bits_per_word)) })
    else none

-- The comparing loop, with `left` rounds to go.
unfoldable pub equal_from : ℕ → ℕ → Bitmap → Bitmap → Bool
equal_from zero ix a b = true
equal_from (suc left) ix a b =
    let rest = equal_from left (ix + 1) a b in
    if get_or a.v ix 0 == get_or b.v ix 0 then rest else false

unfoldable pub equal : Bitmap → Bitmap → Bool
unfolding equal_from div_round_up
equal a b =
    if a.nbits == b.nbits then equal_from (div_round_up b.nbits bits_per_word) 0 a b else false

-- The counting loop, with `left` rounds to go.
unfoldable pub count_from : ℕ → ℕ → ℕ → Bitmap → ℕ
count_from zero i nr b = nr
count_from (suc left) i nr b = count_from left (i + 1) (if isset b i then nr + 1 else nr) b

unfoldable pub nr_allocated : Bitmap → ℕ
unfolding count_from isset
nr_allocated b = count_from b.nbits 0 0 b
