-- ===== src/Bitmap/Create.antt =====
-- bitmap_create and bitmap_equal.
use klee_testfs.Common.{
  ℕ, zero, suc, ◌+◌, ◌-◌, ◌*◌, ◌/◌, ◌%◌, ◌^◌, ◌≤◌, ◌<◌, ◌≡◌, refl, ap, subst, sym, ◌∙◌, ◌≢◌, ◌↔◌,
  true, false, some, arith, ltb, ◌==◌, ==_refl, if◌then◌else◌, get_or, set, length, replicate,
  length-replicate, length-set, lt→ltb, le→ltb,
}
use native.Mathlib.Decide.{dec_lt, ℕ_discrete}
use klee_testfs.Bytes.{Bytes}
use klee_testfs.Bytes.Laws.{IsBytes-set, IsBytes-zeros}
use klee_testfs.Bitmap.{
  Bitmap, has_bit, set_bit, isset, div_round_up, fill_bits, create, equal_from, equal,
}
use klee_testfs.Bitmap.Bits.{set_bit-lt, has_bit-set_bit, has_bit-zero, byte_ext}
use klee_testfs.Bitmap.Laws.{IsValid, get_or-lt, get_or-set}
use klee_testfs.Bitmap.Alloc.{div_round_up_lem}

fill_bits-lt : (left j w : ℕ) → w < 256 → j + left ≤ 8 → fill_bits left j w < 256
unfolding fill_bits
fill_bits-lt zero j w h e = h
fill_bits-lt (suc left) j w h e =
    fill_bits-lt left (j + 1) (set_bit w j) (set_bit-lt w j h (omega arith)) (omega arith)

-- The loop sets the bits from `j` on, and no other.
has_bit-fill_bits :
    (left j w p : ℕ)
    → w < 256
    → j + left ≡ 8
    → p < 8
    → has_bit (fill_bits left j w) p ≡ (if ltb p j then has_bit w p else true)
unfolding fill_bits
has_bit-fill_bits zero j w p h e hp = rw (lt→ltb p j (omega arith))
has_bit-fill_bits (suc left) j w p h e hp = ground (
  arith,
  has_bit-fill_bits left (j + 1) (set_bit w j) p (set_bit-lt w j h (omega arith)),
  has_bit-set_bit w j p h,
)

abbrev zero_bytes : ℕ → Bytes
zero_bytes n = replicate n 0

length-zero_bytes : (n : ℕ) → length (zero_bytes n) ≡ n
length-zero_bytes n = length-replicate n 0

get_or-zeros : (n i : ℕ) → get_or (zero_bytes n) i 0 ≡ 0
get_or-zeros zero i = refl
get_or-zeros (suc n) zero = refl
get_or-zeros (suc n) (suc i) = get_or-zeros n i

-- A map whose bits are all clear, and whose size is a whole number of bytes.
abbrev pub zeros : ℕ → Bitmap
zeros n = record { nbits = n; v = replicate ((n + 7) / 8) 0 }

isset-zeros : (n i : ℕ) → isset (zeros n) i ≡ false
unfolding isset
isset-zeros n i = rw (get_or-zeros ((n + 7) / 8) (i / 8)) (has_bit-zero (i % 8) (omega arith))

zeros-IsValid : (n : ℕ) → n + 7 < 2 ^ 32 → n % 8 ≡ 0 → IsValid (zeros n)
zeros-IsValid n small whole = record {
  words = length-zero_bytes ((n + 7) / 8);
  small = small;
  bytes = IsBytes-zeros ((n + 7) / 8);
  leftover = λ i lo hi. absurd (omega (arith, length-zero_bytes ((n + 7) / 8)));
}

-- A map of zeros whose last byte has its leftover bits in use.
abbrev ragged : ℕ → Bitmap
ragged n = record {
  nbits = n;
  v = set (zero_bytes ((n + 7) / 8)) (n / 8) (fill_bits (8 - n % 8) (n % 8) 0);
}

isset-ragged :
    (n i : ℕ)
    → n % 8 ≢ 0
    → isset (ragged n) i
      ≡ (if n / 8 == i / 8 then (if ltb (i % 8) (n % 8) then false else true) else false)
unfolding isset
isset-ragged n i part = ground (
  arith,
  get_or-set (zero_bytes ((n + 7) / 8)) (n / 8) (i / 8) (fill_bits (8 - n % 8) (n % 8) 0)
      (omega (arith, length-zero_bytes ((n + 7) / 8))),
  get_or-zeros ((n + 7) / 8) (i / 8),
  has_bit-zero (i % 8),
  has_bit-fill_bits (8 - n % 8) (n % 8) 0 (i % 8),
)

ragged-IsValid : (n : ℕ) → n + 7 < 2 ^ 32 → n % 8 ≢ 0 → IsValid (ragged n)
ragged-IsValid n small part = record {
  words = length-set (zero_bytes ((n + 7) / 8)) (n / 8) _ ∙ length-zero_bytes ((n + 7) / 8);
  small = small;
  bytes =
      IsBytes-set _ (n / 8) _ (IsBytes-zeros ((n + 7) / 8))
        (fill_bits-lt (8 - n % 8) (n % 8) 0 (omega arith) (omega arith));
  leftover = λ i lo hi. ground (
    arith,
    isset-ragged n i part,
    length-set (zero_bytes ((n + 7) / 8)) (n / 8) (fill_bits (8 - n % 8) (n % 8) 0),
    length-zero_bytes ((n + 7) / 8),
  );
}

abbrev Created : ℕ → Bitmap → Type 0
Created n b =
    (create n ≡ some b) × (b.nbits ≡ n) × IsValid b × ((i : ℕ) → i < n → isset b i ≡ false)

create_whole : (n : ℕ) → n + 7 < 2 ^ 32 → n % 8 ≡ 0 → Created n (zeros n)
unfolding create
create_whole n small whole = (
  rw (div_round_up_lem n small, le→ltb (n / 8) ((n + 7) / 8) (omega arith)),
  refl,
  zeros-IsValid n small whole,
  λ i h. isset-zeros n i,
)

create_ragged : (n : ℕ) → n + 7 < 2 ^ 32 → n % 8 ≢ 0 → Created n (ragged n)
unfolding create
create_ragged n small part = (
  rw (
    div_round_up_lem n small,
    last,
    over,
    lt→ltb (n / 8) ((n + 7) / 8) (omega arith),
    ==_refl (n / 8),
    lt→ltb 0 (n % 8) (omega arith),
    lt→ltb (n % 8) 8 (omega arith),
    get_or-zeros ((n + 7) / 8) (n / 8),
  ),
  refl,
  ragged-IsValid n small part,
  λ i h. ground (arith, isset-ragged n i part),
)
  where
    last : (n + 7) / 8 - 1 ≡ n / 8
    last = omega arith

    over : n - n / 8 * 8 ≡ n % 8
    over = omega arith

-- bitmap_create passes its assertions for every size whose rounding does not wrap: the map is well
-- formed, of that size, and each of its bits is clear.
pub create_lem :
    (n : ℕ)
    → n + 7 < 2 ^ 32
    → (b : Bitmap) × (create n ≡ some b)
      × (b.nbits ≡ n)
      × IsValid b
      × ((i : ℕ) → i < n → isset b i ≡ false)
create_lem n small = elim (ℕ_discrete (n % 8) 0) [
  | yes whole ↦
      let (e, size, is, clear) = create_whole n small whole in (zeros n, e, size, is, clear)
  | no part ↦
      let (e, size, is, clear) = create_ragged n small part in (ragged n, e, size, is, clear)
]

from_next :
    (P : ℕ → Type 0) (ix n i : ℕ)
    → P ix
    → ((j : ℕ) → ix + 1 ≤ j → j < n → P j)
    → ix ≤ i
    → i < n
    → P i
from_next P ix n i here rest lo hi = elim (ℕ_discrete ix i) [
  | yes e ↦ subst P e here
  | no ne ↦ rest i (omega arith) hi
]

equal_from_sound :
    (left ix : ℕ) (a b : Bitmap)
    → equal_from left ix a b ≡ true
    → (i : ℕ) → ix ≤ i
    → i < ix + left
    → get_or a.v i 0 ≡ get_or b.v i 0
unfolding equal_from
equal_from_sound zero ix a b h i lo hi = absurd (omega arith)
equal_from_sound (suc left) ix a b h i lo hi =
    from_next (λ j. get_or a.v j 0 ≡ get_or b.v j 0) ix (ix + suc left) i (ground arith)
      (λ j lo' hi'. equal_from_sound left (ix + 1) a b (ground arith) j lo' (omega arith)) lo hi

equal_from_complete :
    (left ix : ℕ) (a b : Bitmap)
    → ((i : ℕ) → ix ≤ i → i < ix + left → get_or a.v i 0 ≡ get_or b.v i 0)
    → equal_from left ix a b ≡ true
unfolding equal_from
equal_from_complete zero ix a b h = refl
equal_from_complete (suc left) ix a b h = ground (
  arith,
  h ix (omega arith) (omega arith),
  equal_from_complete left (ix + 1) a b (λ i lo hi. h i (omega arith) (omega arith)),
)

module _ {a b : Bitmap} (av : IsValid a) (bv : IsValid b) where
  bytes_of_bits :
      a.nbits ≡ b.nbits
      → ((j : ℕ) → j < a.nbits → isset a j ≡ isset b j)
      → (i : ℕ) → i < (b.nbits + 7) / 8
      → get_or a.v i 0 ≡ get_or b.v i 0
  unfolding isset
  bytes_of_bits size bits i h =
      byte_ext _ _ (get_or-lt a.v i av.bytes) (get_or-lt b.v i bv.bytes) λ o ho.
        let quotient : (i * 8 + o) / 8 ≡ i = omega arith in
        let remainder : (i * 8 + o) % 8 ≡ o = omega arith in
        let here : isset a (i * 8 + o) ≡ isset b (i * 8 + o) = elim (dec_lt (i * 8 + o) a.nbits) [
          | yes p ↦ bits (i * 8 + o) p
          | no p ↦
              av.leftover (i * 8 + o) (omega arith) (omega (arith, av.words))
              ∙ sym (bv.leftover (i * 8 + o) (omega arith) (omega (arith, bv.words)))
        ] in
        rw (quotient, remainder) at here

  same_bits : (j : ℕ) → get_or a.v (j / 8) 0 ≡ get_or b.v (j / 8) 0 → isset a j ≡ isset b j
  unfolding isset
  same_bits j e = ap (λ w. has_bit w (j % 8)) e

  -- bitmap_equal of well-formed maps says exactly whether they have the same size and the same
  -- bits.
  pub equal_lem :
      (equal a b ≡ true) ↔ ((a.nbits ≡ b.nbits) × ((j : ℕ) → j < a.nbits → isset a j ≡ isset b j))
  unfolding equal
  equal_lem = (equal_sound, equal_complete)
    where
      words : div_round_up b.nbits 8 ≡ (b.nbits + 7) / 8
      words = div_round_up_lem b.nbits bv.small

      equal_sound :
          equal a b ≡ true → (a.nbits ≡ b.nbits) × ((j : ℕ) → j < a.nbits → isset a j ≡ isset b j)
      equal_sound h =
          let tests : (a.nbits ≡ b.nbits) × (equal_from ((b.nbits + 7) / 8) 0 a b ≡ true) =
            ground (arith, words) in
          (
            tests.0,
            λ j hj. same_bits j (
                equal_from_sound ((b.nbits + 7) / 8) 0 a b tests.1 (j / 8) (omega arith)
                  (omega (arith, tests))),
          )

      equal_complete :
          (a.nbits ≡ b.nbits) × ((j : ℕ) → j < a.nbits → isset a j ≡ isset b j) → equal a b ≡ true
      equal_complete (size, bits) =
          let loop : equal_from ((b.nbits + 7) / 8) 0 a b ≡ true =
            equal_from_complete ((b.nbits + 7) / 8) 0 a b
              (λ i lo hi. bytes_of_bits size bits i (omega arith)) in
          ground (arith, words, size)
