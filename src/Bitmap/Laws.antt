-- ===== src/Bitmap/Laws.antt =====
-- bitmap_isset, bitmap_mark and bitmap_unmark: what they do to each bit of a well-formed map.
use klee_testfs.Common.{
  ℕ, zero, suc, ◌+◌, ◌*◌, ◌/◌, ◌%◌, ◌^◌, ◌≤◌, ◌<◌, ◌≡◌, refl, ap, ◌∙◌, true, false, none, some, [],
  ◌∷◌, arith, ◌==◌, ==_refl, if◌then◌else◌, get_or, set, length, length-set, get_or-set_self,
  get_or-set_ne, set-get_or, set-set, lt→ltb, ◌⊎◌,
}
use klee_testfs.Bytes.{Bytes, IsBytes}
use klee_testfs.Bytes.Laws.{IsBytes-set}
use klee_testfs.Bitmap.{Bitmap, set_bit, clear_bit, isset, mark, unmark}
use klee_testfs.Bitmap.Bits.{
  set_bit-lt, clear_bit-lt, has_bit-set_bit, has_bit-clear_bit, clear_bit-set_bit,
}

-- What bitmap_create establishes: one byte for eight bits, the bits past the end in use.
pub record IsValid (b : Bitmap) : Type 0 where
  pub words : length b.v ≡ (b.nbits + 7) / 8
  pub small : b.nbits + 7 < 2 ^ 32
  pub bytes : IsBytes b.v
  pub leftover : (i : ℕ) → b.nbits ≤ i → i < 8 * length b.v → isset b i ≡ true

pub get_or-lt : (v : Bytes) (i : ℕ) → IsBytes v → get_or v i 0 < 256
get_or-lt [] i h = omega arith
get_or-lt (x ∷ v) zero h = h.0
get_or-lt (x ∷ v) (suc i) h = get_or-lt v i h.1

-- A byte of the vector replaced.
abbrev pub put_byte : Bitmap → ℕ → ℕ → Bitmap
put_byte b ix w = record b { v = set b.v ix w }

pub get_or-set :
    (v : Bytes) (i j w : ℕ)
    → i < length v
    → get_or (set v i w) j 0 ≡ (if i == j then w else get_or v j 0)
get_or-set v i j w h = ground (arith, get_or-set_self v i w 0 h, get_or-set_ne v i j w 0)

module _ (b : Bitmap) (bytes : IsBytes b.v) (i : ℕ) (inside : i / 8 < length b.v) where
  old_lt : get_or b.v (i / 8) 0 < 256
  old_lt = get_or-lt b.v (i / 8) bytes

  pub isset-set_bit :
      (j : ℕ)
      → isset (put_byte b (i / 8) (set_bit (get_or b.v (i / 8) 0) (i % 8))) j
        ≡ (if i == j then true else isset b j)
  unfolding isset
  isset-set_bit j = ground (
    arith,
    get_or-set b.v (i / 8) (j / 8) (set_bit (get_or b.v (i / 8) 0) (i % 8)) inside,
    has_bit-set_bit (get_or b.v (i / 8) 0) (i % 8) (j % 8) old_lt,
  )

  pub isset-clear_bit :
      (j : ℕ)
      → isset (put_byte b (i / 8) (clear_bit (get_or b.v (i / 8) 0) (i % 8))) j
        ≡ (if i == j then false else isset b j)
  unfolding isset
  isset-clear_bit j = ground (
    arith,
    get_or-set b.v (i / 8) (j / 8) (clear_bit (get_or b.v (i / 8) 0) (i % 8)) inside,
    has_bit-clear_bit (get_or b.v (i / 8) 0) (i % 8) (j % 8) old_lt,
  )

-- The maps that mark and unmark leave.
abbrev pub marked : Bitmap → ℕ → Bitmap
marked b i = put_byte b (i / 8) (set_bit (get_or b.v (i / 8) 0) (i % 8))

abbrev pub unmarked : Bitmap → ℕ → Bitmap
unmarked b i = put_byte b (i / 8) (clear_bit (get_or b.v (i / 8) 0) (i % 8))

module _ {b : Bitmap} (valid : IsValid b) (i : ℕ) (inside : i < b.nbits) where
  pub index_inside : i / 8 < length b.v
  index_inside = omega (arith, valid.words)

  pub marked-IsValid : IsValid (marked b i)
  marked-IsValid = record {
    words = length-set b.v (i / 8) _ ∙ valid.words;
    small = valid.small;
    bytes =
        IsBytes-set b.v (i / 8) _ valid.bytes
          (set_bit-lt _ (i % 8) (get_or-lt b.v (i / 8) valid.bytes) (omega arith));
    leftover = λ j lo hi. ground (
      arith,
      isset-set_bit b valid.bytes i index_inside j,
      length-set b.v (i / 8) (set_bit (get_or b.v (i / 8) 0) (i % 8)),
      valid.leftover j lo,
    );
  }

  pub unmarked-IsValid : IsValid (unmarked b i)
  unmarked-IsValid = record {
    words = length-set b.v (i / 8) _ ∙ valid.words;
    small = valid.small;
    bytes =
        IsBytes-set b.v (i / 8) _ valid.bytes
          (clear_bit-lt _ (i % 8) (get_or-lt b.v (i / 8) valid.bytes) (omega arith));
    leftover = λ j lo hi. ground (
      arith,
      isset-clear_bit b valid.bytes i index_inside j,
      length-set b.v (i / 8) (clear_bit (get_or b.v (i / 8) 0) (i % 8)),
      valid.leftover j lo,
    );
  }

  pub mark-eq : isset b i ≡ false → mark b i ≡ some (marked b i)
  unfolding mark
  mark-eq clear = rw (lt→ltb i b.nbits inside, clear)

  pub unmark-eq : isset b i ≡ true → unmark b i ≡ some (unmarked b i)
  unfolding unmark
  unmark-eq used = rw (lt→ltb i b.nbits inside, used)

  -- bitmap_mark of a clear bit within the map passes its assertions, keeps the map well formed,
  -- sets that bit and leaves its size and every other bit as they were.
  pub mark_lem :
      isset b i ≡ false
      → (b' : Bitmap) × (mark b i ≡ some b')
        × (b'.nbits ≡ b.nbits)
        × IsValid b'
        × ((j : ℕ) → isset b' j ≡ (if i == j then true else isset b j))
  mark_lem clear =
      (marked b i, mark-eq clear, refl, marked-IsValid, isset-set_bit b valid.bytes i index_inside)

  -- bitmap_unmark of a set bit within the map passes its assertions, keeps the map well formed,
  -- clears that bit and leaves its size and every other bit as they were.
  pub unmark_lem :
      isset b i ≡ true
      → (b' : Bitmap) × (unmark b i ≡ some b')
        × (b'.nbits ≡ b.nbits)
        × IsValid b'
        × ((j : ℕ) → isset b' j ≡ (if i == j then false else isset b j))
  unmark_lem used = (
    unmarked b i,
    unmark-eq used,
    refl,
    unmarked-IsValid,
    isset-clear_bit b valid.bytes i index_inside,
  )

  pub unmarked-marked : isset b i ≡ false → unmarked (marked b i) i ≡ b
  unfolding isset
  unmarked-marked clear =
      ap (λ v. record b { v = v })
        (set-set b.v (i / 8) _ _
          ∙ rw
              (
                get_or-set_self b.v (i / 8) (set_bit (get_or b.v (i / 8) 0) (i % 8)) 0 index_inside,
                clear_bit-set_bit _ (i % 8) (get_or-lt b.v (i / 8) valid.bytes) (omega arith) clear,
              )
              (set-get_or b.v (i / 8) 0))

  -- Allocating a bit and giving it back restores the whole map: bitmap_unmark undoes bitmap_mark
  -- of any clear bit within a well-formed map.
  pub unmark-mark :
      isset b i ≡ false → (b' : Bitmap) × (mark b i ≡ some b') × (unmark b' i ≡ some b)
  unfolding unmark
  unmark-mark clear = (
    marked b i,
    mark-eq clear,
    rw (lt→ltb i b.nbits inside, isset-set_bit b valid.bytes i index_inside i, ==_refl i)
        (ap some (unmarked-marked clear)),
  )

-- The assertions of both: outside the map, or on a bit that has the value already, they fail.
pub mark-unmark-refuse :
    (b : Bitmap) (i : ℕ)
    → ((b.nbits ≤ i ⊎ (isset b i ≡ true)) → mark b i ≡ none)
      × ((b.nbits ≤ i ⊎ (isset b i ≡ false)) → unmark b i ≡ none)
unfolding mark unmark
mark-unmark-refuse b i = (λ h. ground arith, λ h. ground arith)
