-- ===== src/Bitmap/Alloc.antt =====
-- bitmap_alloc, bitmap_create, bitmap_equal and bitmap_nr_allocated as properties of the bits.
use klee_testfs.Common.{
  ℕ, zero, suc, ◌+◌, ◌-◌, ◌*◌, ◌/◌, ◌%◌, ◌^◌, ◌≤◌, ◌<◌, ◌≡◌, refl, ap, subst, ◌∙◌, inl, inr, true,
  false, some, arith, ◌==◌, ==_iff, if◌then◌else◌, Bool-cases, Option-cases, get_or, set, length,
  lt→ltb,
}
use native.Mathlib.Decide.{dec_lt}
use klee_testfs.Bitmap.{
  Bitmap, has_bit, set_bit, isset, mark, div_round_up, Allocation, allocated, no_space, asserted,
  find_clear, take_bit, alloc_from, alloc, count_from, nr_allocated,
}
use klee_testfs.Bitmap.Bits.{
  find_clear_sound, find_clear_below, find_clear-ne-none, has_bit-allbits,
}
use klee_testfs.Bitmap.Laws.{IsValid, get_or-lt, marked, mark-eq, mark_lem}

-- What bitmap_alloc promises: the first clear bit, marked; or no space, when no bit is clear.
abbrev pub Allocates : Bitmap → Allocation → Type 0
Allocates b (allocated i b') =
    (i < b.nbits)
    × (isset b i ≡ false)
    × ((j : ℕ) → j < i → isset b j ≡ true)
    × (mark b i ≡ some b')
Allocates b no_space = (j : ℕ) → j < b.nbits → isset b j ≡ true
Allocates b asserted = ⊥

pub div_round_up_lem : (n : ℕ) → n + 7 < 2 ^ 32 → div_round_up n 8 ≡ (n + 7) / 8
unfolding div_round_up
div_round_up_lem n h = omega arith

module _ {b : Bitmap} (valid : IsValid b) where
  -- A bit of the byte `ix`, as a bit of the map.
  isset_of : (ix o : ℕ) → o < 8 → isset b (ix * 8 + o) ≡ has_bit (get_or b.v ix 0) o
  unfolding isset
  isset_of ix o h =
      let quotient : (ix * 8 + o) / 8 ≡ ix = omega arith in
      let remainder : (ix * 8 + o) % 8 ≡ o = omega arith in rw (quotient, remainder)

  -- The bits of the bytes below `ix` are those below `ix` and those of the byte `ix`.
  isset_next :
      (ix j : ℕ)
      → ((k : ℕ) → k < ix * 8 → isset b k ≡ true)
      → ((o : ℕ) → o < 8 → ix * 8 + o ≡ j → has_bit (get_or b.v ix 0) o ≡ true)
      → j < (ix + 1) * 8
      → isset b j ≡ true
  isset_next ix j before here h = elim (dec_lt j (ix * 8)) [
    | yes p ↦ before j p
    | no p ↦
        let at : ix * 8 + (j - ix * 8) ≡ j = omega arith in
        subst (λ k. isset b k ≡ true) at
          (isset_of ix (j - ix * 8) (omega arith) ∙ here (j - ix * 8) (omega arith) at)
  ]

  take_bit-Allocates :
      (ix o : ℕ)
      → ix < length b.v
      → ((j : ℕ) → j < ix * 8 → isset b j ≡ true)
      → find_clear 8 (get_or b.v ix 0) 0 ≡ some o
      → Allocates b (take_bit b ix (some o))
  unfolding take_bit
  take_bit-Allocates ix o inside before found = rw (lt→ltb (ix * 8 + o) b.nbits in_map) (
    in_map,
    clear,
    λ j h.
        isset_next ix j before
          (λ p hp e. find_clear_below 8 _ 0 o p found (omega arith) (omega (arith, e)))
          (omega (arith, sound)),
    mark-eq valid (ix * 8 + o) in_map clear ∙ ap some same,
  )
    where
      sound : (0 ≤ o) × (o < 0 + 8) × (has_bit (get_or b.v ix 0) o ≡ false)
      sound = find_clear_sound 8 (get_or b.v ix 0) 0 o found

      clear : isset b (ix * 8 + o) ≡ false
      clear = isset_of ix o (omega (arith, sound)) ∙ sound.2

      in_map : ix * 8 + o < b.nbits
      in_map = ground (arith, valid.leftover (ix * 8 + o), clear, sound)

      quotient : (ix * 8 + o) / 8 ≡ ix
      quotient = omega (arith, sound)

      remainder : (ix * 8 + o) % 8 ≡ o
      remainder = omega (arith, sound)

      same : marked b (ix * 8 + o) ≡ record b { v = set b.v ix (set_bit (get_or b.v ix 0) o) }
      same = rw (quotient, remainder)

  take_found :
      (ix : ℕ)
      → ix < length b.v
      → ((j : ℕ) → j < ix * 8 → isset b j ≡ true)
      → (get_or b.v ix 0 == 255) ≡ false
      → Allocates b (take_bit b ix (find_clear 8 (get_or b.v ix 0) 0))
  take_found ix inside before free = elim (Option-cases (find_clear 8 (get_or b.v ix 0) 0)) [
    | inl nothing ↦ absurd (find_clear-ne-none _ (get_or-lt b.v ix valid.bytes) free nothing)
    | inr (o, found) ↦ rw found (take_bit-Allocates ix o inside before found)
  ]

  alloc_from-Allocates :
      (left ix : ℕ)
      → ix + left ≡ length b.v
      → ((j : ℕ) → j < ix * 8 → isset b j ≡ true)
      → Allocates b (alloc_from left ix b)
  unfolding alloc_from
  alloc_from-Allocates zero ix e before = λ j h. before j (omega (arith, valid.words))
  alloc_from-Allocates (suc left) ix e before = elim (Bool-cases (get_or b.v ix 0 == 255)) [
    | inl full ↦ rw full (
        alloc_from-Allocates left (ix + 1) (omega arith) λ j h.
          isset_next ix j before (λ o ho _. rw ((==_iff _ 255).0 full) (has_bit-allbits o ho)) h)
    | inr free ↦ rw free (take_found ix (omega arith) before free)
  ]

  -- bitmap_alloc on a well-formed map never fails an assertion: it marks the lowest clear bit and
  -- returns its index, or says that there is no space, and then every bit is set.
  pub alloc-Allocates : Allocates b (alloc b)
  unfolding alloc
  alloc-Allocates = rw (div_round_up_lem b.nbits valid.small) (
      alloc_from-Allocates ((b.nbits + 7) / 8) 0 (omega (arith, valid.words))
        (λ j h. absurd (omega arith)))

-- The state of the map after an allocation: as bitmap_mark leaves it.
pub allocated_lem :
    {b : Bitmap} (i : ℕ) (b' : Bitmap)
    → IsValid b
    → alloc b ≡ allocated i b'
    → (i < b.nbits)
      × (isset b i ≡ false)
      × (b'.nbits ≡ b.nbits)
      × IsValid b'
      × ((j : ℕ) → isset b' j ≡ (if i == j then true else isset b j))
allocated_lem {b} i b' valid e =
    let promise : Allocates b (allocated i b') = subst (Allocates b) e (alloc-Allocates valid) in
    let (c, same, size, is, bits) = mark_lem valid i promise.0 promise.1 in
    let eq : c ≡ b' = cc (promise.3, same) in
    (
      promise.0,
      promise.1,
      subst (λ (m : Bitmap). m.nbits ≡ b.nbits) eq size,
      subst IsValid eq is,
      subst (λ m. (j : ℕ) → isset m j ≡ (if i == j then true else isset b j)) eq bits,
    )

-- How many of the n bits from i on are set.
unfoldable pub count : ℕ → ℕ → Bitmap → ℕ
count zero i b = 0
count (suc n) i b = (if isset b i then 1 else 0) + count n (i + 1) b

count_from_lem : (n i nr : ℕ) (b : Bitmap) → count_from n i nr b ≡ nr + count n i b
unfolding count_from count
count_from_lem zero i nr b = omega arith
count_from_lem (suc n) i nr b =
    ground (arith, count_from_lem n (i + 1) nr b, count_from_lem n (i + 1) (nr + 1) b)

count_above :
    (b b' : Bitmap) (k n i : ℕ)
    → ((j : ℕ) → isset b' j ≡ (if k == j then true else isset b j))
    → k < i
    → count n i b' ≡ count n i b
unfolding count
count_above b b' k zero i bits h = refl
count_above b b' k (suc n) i bits h = ground (arith, bits i, count_above b b' k n (i + 1) bits)

count_set :
    (b b' : Bitmap) (k n i : ℕ)
    → ((j : ℕ) → isset b' j ≡ (if k == j then true else isset b j))
    → isset b k ≡ false
    → i ≤ k
    → k < i + n
    → count n i b' ≡ count n i b + 1
unfolding count
count_set b b' k zero i bits clear lo hi = absurd (omega arith)
count_set b b' k (suc n) i bits clear lo hi =
    ground (arith, bits i, count_set b b' k n (i + 1) bits clear, count_above b b' k n (i + 1) bits)

-- One more bit in use.
nr_allocated-set :
    (b b' : Bitmap) (i : ℕ)
    → b'.nbits ≡ b.nbits
    → i < b.nbits
    → isset b i ≡ false
    → ((j : ℕ) → isset b' j ≡ (if i == j then true else isset b j))
    → nr_allocated b' ≡ nr_allocated b + 1
unfolding nr_allocated
nr_allocated-set b b' i size inside clear bits =
    let more : count b.nbits 0 b' ≡ count b.nbits 0 b + 1 =
      count_set b b' i b.nbits 0 bits clear (omega arith) (omega arith) in
    omega (
      arith,
      count_from_lem b'.nbits 0 0 b',
      count_from_lem b.nbits 0 0 b,
      ap (λ n. count n 0 b') size,
      more,
    )

-- bitmap_nr_allocated grows by exactly one with each bit that bitmap_alloc hands out.
pub nr_allocated-alloc :
    {b : Bitmap} (i : ℕ) (b' : Bitmap)
    → IsValid b
    → alloc b ≡ allocated i b'
    → nr_allocated b' ≡ nr_allocated b + 1
nr_allocated-alloc {b} i b' valid e =
    let (inside, clear, size, is, bits) = allocated_lem i b' valid e in
    nr_allocated-set b b' i size inside clear bits

count-le : (n i : ℕ) (b : Bitmap) → count n i b ≤ n
unfolding count
count-le zero i b = omega arith
count-le (suc n) i b = ground (arith, count-le n (i + 1) b)

pub nr_allocated-le : (b : Bitmap) → nr_allocated b ≤ b.nbits
unfolding nr_allocated
nr_allocated-le b = omega (arith, count_from_lem b.nbits 0 0 b, count-le b.nbits 0 b)

-- A bit that could be marked.
marked_before :
    (b : Bitmap) (i : ℕ) (b' : Bitmap) → mark b i ≡ some b' → (i < b.nbits) × (isset b i ≡ false)
unfolding mark
marked_before b i b' e = ground arith

pub nr_allocated-mark :
    {b : Bitmap} (i : ℕ) (b' : Bitmap)
    → IsValid b
    → mark b i ≡ some b'
    → IsValid b' × (b'.nbits ≡ b.nbits) × (nr_allocated b' ≡ nr_allocated b + 1)
nr_allocated-mark {b} i b' valid e =
    let (inside, clear) = marked_before b i b' e in
    let (c, same, size, is, bits) = mark_lem valid i inside clear in
    let eq : c ≡ b' = cc (same, e) in
    subst (λ (m : Bitmap). IsValid m × (m.nbits ≡ b.nbits) × (nr_allocated m ≡ nr_allocated b + 1))
      eq (is, size, nr_allocated-set b c i size inside clear bits)
