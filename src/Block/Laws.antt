-- ===== src/Block/Laws.antt =====
-- One block written and read: the image afterwards, the other blocks, and the stream's position.
use Prim.Native.Nat.{max}
use klee_testfs.Common.{
  ◌⊎◌, inl, inr, ℕ, zero, suc, ◌+◌, ◌<◌, ◌≤◌, ◌≡◌, ◌≢◌, refl, ap, subst, ◌∙◌, none, some, List, [],
  ◌∷◌, ℤ, pos, get_elem?, length, take, slice, arith,
}
use mathlib.Core.List.{append-nil}
use native.Mathlib.Decide.{ℕ_discrete}
use klee_testfs.Bytes.{Bytes}
use klee_testfs.Machine.{Machine, ok, stop, exited}
use klee_testfs.Block.{
  zero_block, put_block, fread_block, fread, fwrite_block, fwrite_from, write_blocks, read_blocks,
  zero_blocks,
}

pub get_elem?-put_block_self :
    (bs : List Bytes) (i : ℕ) (b : Bytes) → get_elem? (put_block bs i b) i ≡ some b
unfolding put_block
get_elem?-put_block_self [] zero b = refl
get_elem?-put_block_self [] (suc i) b = get_elem?-put_block_self [] i b
get_elem?-put_block_self (x ∷ bs) zero b = refl
get_elem?-put_block_self (x ∷ bs) (suc i) b = get_elem?-put_block_self bs i b

pub get_elem?-put_block_ne :
    (bs : List Bytes) (i j : ℕ) (b : Bytes)
    → i ≢ j
    → j < length bs
    → get_elem? (put_block bs i b) j ≡ get_elem? bs j
unfolding put_block
get_elem?-put_block_ne [] i j b ne h = absurd (omega arith)
get_elem?-put_block_ne (x ∷ bs) zero zero b ne h = absurd (ne refl)
get_elem?-put_block_ne (x ∷ bs) zero (suc j) b ne h = refl
get_elem?-put_block_ne (x ∷ bs) (suc i) zero b ne h = refl
get_elem?-put_block_ne (x ∷ bs) (suc i) (suc j) b ne h =
    get_elem?-put_block_ne bs i j b (λ e. ne (ap suc e)) (omega arith)

pub put_block-get_elem? :
    (bs : List Bytes) (i : ℕ) (b : Bytes) → get_elem? bs i ≡ some b → put_block bs i b ≡ bs
unfolding put_block
put_block-get_elem? [] i b h = absurd (cc)
put_block-get_elem? (x ∷ bs) zero b h = ground arith
put_block-get_elem? (x ∷ bs) (suc i) b h = ap (λ r. x ∷ r) (put_block-get_elem? bs i b h)

pub put_block-put_block :
    (bs : List Bytes) (i : ℕ) (b c : Bytes) → put_block (put_block bs i b) i c ≡ put_block bs i c
unfolding put_block
put_block-put_block [] zero b c = refl
put_block-put_block [] (suc i) b c = ap (λ r. zero_block ∷ r) (put_block-put_block [] i b c)
put_block-put_block (x ∷ bs) zero b c = refl
put_block-put_block (x ∷ bs) (suc i) b c = ap (λ r. x ∷ r) (put_block-put_block bs i b c)

pub length-put_block_le :
    (bs : List Bytes) (i : ℕ) (b : Bytes) → length bs ≤ length (put_block bs i b)
unfolding put_block
length-put_block_le [] i b = omega arith
length-put_block_le (x ∷ bs) zero b = omega arith
length-put_block_le (x ∷ bs) (suc i) b = omega (arith, length-put_block_le bs i b)

-- The whole of a buffer.
pub take-length {ℓ} : {A : Type ℓ} (n : ℕ) (xs : List A) → length xs ≡ n → take n xs ≡ xs
take-length zero [] h = refl
take-length zero (x ∷ xs) h = absurd (omega arith)
take-length (suc n) [] h = refl
take-length (suc n) (x ∷ xs) h = ap (λ r. x ∷ r) (take-length n xs (omega arith))

-- Every block of an image has the size of a block.
abbrev pub IsImage : List Bytes → Type 0
IsImage [] = Unit {0}
IsImage (b ∷ bs) = (length b ≡ 64) × IsImage bs

pub put_block-IsImage :
    (bs : List Bytes) (i : ℕ) (b : Bytes) → IsImage bs → length b ≡ 64 → IsImage (put_block bs i b)
unfolding put_block
put_block-IsImage [] zero b h e = (e, tt)
put_block-IsImage [] (suc i) b h e = (refl, put_block-IsImage [] i b h e)
put_block-IsImage (x ∷ bs) zero b h e = (e, h.1)
put_block-IsImage (x ∷ bs) (suc i) b h e = (h.0, put_block-IsImage bs i b h.1 e)

pub IsImage-get_elem? :
    (bs : List Bytes) (i : ℕ) (b : Bytes) → IsImage bs → get_elem? bs i ≡ some b → length b ≡ 64
IsImage-get_elem? [] i b h e = absurd (cc)
IsImage-get_elem? (x ∷ bs) zero b h e = ground arith
IsImage-get_elem? (x ∷ bs) (suc i) b h e = IsImage-get_elem? bs i b h.1 e

-- The state after one block is written.
abbrev pub written : Machine → ℕ → Bytes → Machine
written m k b = record m { dev = record (m.dev) { blocks = put_block m.dev.blocks k b } }

pub write_one :
    (b : Bytes) (k : ℕ) (m : Machine)
    → length b ≡ 64
    → write_blocks b (pos k) 1 m ≡ ok tt (written m k b)
unfolding write_blocks fwrite_from fwrite_block slice
write_one b k m h = rw (take-length 64 b h)

pub fread_block-some :
    (m : Machine) (b : Bytes)
    → get_elem? m.dev.blocks m.dev.position ≡ some b
    → fread_block m ≡ ok b (record m { dev = record (m.dev) { position = m.dev.position + 1 } })
unfolding fread_block
fread_block-some m b h = rw (h, fread_block)

fread_block-none :
    (m : Machine) → get_elem? m.dev.blocks m.dev.position ≡ none → fread_block m ≡ stop exited
unfolding fread_block
fread_block-none m h = rw (h, fread_block)

-- The stream moved to the block `k`.
abbrev pub sought : Machine → ℕ → Machine
sought m k = record m { dev = record (m.dev) { position = k } }

pub read_one :
    (k : ℕ) (m : Machine) (b : Bytes)
    → get_elem? m.dev.blocks k ≡ some b
    → read_blocks (pos k) 1 m ≡ ok b m
unfolding read_blocks fread
read_one k m b h = rw (fread_block-some (sought m k) b h) (ap (λ c. ok c m) (append-nil b))

-- A read past the end of the image ends the program.
pub read_missing :
    (k : ℕ) (m : Machine) → get_elem? m.dev.blocks k ≡ none → read_blocks (pos k) 1 m ≡ stop exited
unfolding read_blocks fread
read_missing k m h = rw (fread_block-none (sought m k) h)

pub zero_one : (k : ℕ) (m : Machine) → zero_blocks (pos k) 1 m ≡ ok tt (written m k zero_block)
unfolding zero_blocks
zero_one k m = rw (write_one zero_block k m refl)

-- The same, where the block number is a computed int.
module _ (k : ℕ) (m : Machine) {z : ℤ} (at : z ≡ pos k) where
  pub write_one_at : (b : Bytes) → length b ≡ 64 → write_blocks b z 1 m ≡ ok tt (written m k b)
  write_one_at b h = ap (λ i. write_blocks b i 1 m) at ∙ write_one b k m h

  pub read_one_at : (b : Bytes) → get_elem? m.dev.blocks k ≡ some b → read_blocks z 1 m ≡ ok b m
  read_one_at b h = ap (λ i. read_blocks i 1 m) at ∙ read_one k m b h

  pub zero_one_at : zero_blocks z 1 m ≡ ok tt (written m k zero_block)
  zero_one_at = ap (λ i. zero_blocks i 1 m) at ∙ zero_one k m

pub read-write :
    (b : Bytes) (k j : ℕ) (m : Machine)
    → length b ≡ 64
    → k ≢ j
    → j < length m.dev.blocks
    → (n : Machine) × (write_blocks b (pos k) 1 m ≡ ok tt n)
      × (n.dev.position ≡ m.dev.position)
      × (read_blocks (pos k) 1 n ≡ ok b n)
      × (get_elem? n.dev.blocks j ≡ get_elem? m.dev.blocks j)
read-write b k j m whole ne inside = (
  written m k b,
  write_one b k m whole,
  refl,
  read_one k (written m k b) b (get_elem?-put_block_self m.dev.blocks k b),
  get_elem?-put_block_ne m.dev.blocks k j b ne inside,
)

-- The blocks of a run of zero_blocks.
abbrev zeroed : ℕ → ℕ → List Bytes → List Bytes
zeroed k zero bs = bs
zeroed k (suc nr) bs = zeroed (k + 1) nr (put_block bs k zero_block)

zero_blocks_lem :
    (nr k : ℕ) (m : Machine)
    → zero_blocks (pos k) nr m
      ≡ ok tt (record m { dev = record (m.dev) { blocks = zeroed k nr m.dev.blocks } })
unfolding zero_blocks
zero_blocks_lem zero k m = refl
zero_blocks_lem (suc nr) k m =
    rw (write_one zero_block k m refl) (zero_blocks_lem nr (k + 1) (written m k zero_block))

pub length-put_block : (bs : List Bytes) (i : ℕ) (b : Bytes) → i < length (put_block bs i b)
unfolding put_block
length-put_block [] zero b = omega arith
length-put_block [] (suc i) b = omega (arith, length-put_block [] i b)
length-put_block (x ∷ bs) zero b = omega arith
length-put_block (x ∷ bs) (suc i) b = omega (arith, length-put_block bs i b)

zeroed_before :
    (nr k j : ℕ) (bs : List Bytes)
    → j < k
    → j < length bs
    → get_elem? (zeroed k nr bs) j ≡ get_elem? bs j
zeroed_before zero k j bs h inside = refl
zeroed_before (suc nr) k j bs h inside =
    zeroed_before nr (k + 1) j (put_block bs k zero_block) (omega arith)
      (omega (arith, length-put_block_le bs k zero_block))
    ∙ get_elem?-put_block_ne bs k j zero_block (λ e. omega arith) inside

zeroed_within :
    (nr k j : ℕ) (bs : List Bytes)
    → k ≤ j
    → j < k + nr
    → get_elem? (zeroed k nr bs) j ≡ some zero_block
zeroed_within zero k j bs lo hi = absurd (omega arith)
zeroed_within (suc nr) k j bs lo hi = elim (ℕ_discrete k j) [
  | yes e ↦
      zeroed_before nr (k + 1) j (put_block bs k zero_block) (omega arith)
        (omega (arith, length-put_block bs k zero_block))
      ∙ subst (λ i. get_elem? (put_block bs k zero_block) i ≡ some zero_block) e
          (get_elem?-put_block_self bs k zero_block)
  | no ne ↦ zeroed_within nr (k + 1) j (put_block bs k zero_block) (omega arith) (omega arith)
]

zeroed_behind :
    (nr k j : ℕ) (bs : List Bytes)
    → k + nr ≤ j
    → j < length bs
    → get_elem? (zeroed k nr bs) j ≡ get_elem? bs j
zeroed_behind zero k j bs h inside = refl
zeroed_behind (suc nr) k j bs h inside =
    zeroed_behind nr (k + 1) j (put_block bs k zero_block) (omega arith)
      (omega (arith, inside, length-put_block_le bs k zero_block))
    ∙ get_elem?-put_block_ne bs k j zero_block (λ e. omega arith) inside

length-put_block_at_most :
    (bs : List Bytes) (k : ℕ) (b : Bytes) → length (put_block bs k b) ≤ max (length bs) (k + 1)
unfolding put_block
length-put_block_at_most [] zero b = omega arith
length-put_block_at_most [] (suc k) b = omega (arith, length-put_block_at_most [] k b)
length-put_block_at_most (x ∷ bs) zero b = omega arith
length-put_block_at_most (x ∷ bs) (suc k) b = omega (arith, length-put_block_at_most bs k b)

length-zeroed : (nr k : ℕ) (bs : List Bytes) → length (zeroed k nr bs) ≤ max (length bs) (k + nr)
length-zeroed zero k bs = omega arith
length-zeroed (suc nr) k bs = omega (
  arith,
  length-zeroed nr (k + 1) (put_block bs k zero_block),
  length-put_block_at_most bs k zero_block,
)

pub zero_blocks-zero :
    (k nr : ℕ) (m : Machine)
    → (n : Machine) × (zero_blocks (pos k) nr m ≡ ok tt n)
      × ((j : ℕ) → k ≤ j → j < k + nr → get_elem? n.dev.blocks j ≡ some zero_block)
      × ((j : ℕ)
          → (j < k) ⊎ (k + nr ≤ j)
          → j < length m.dev.blocks
          → get_elem? n.dev.blocks j ≡ get_elem? m.dev.blocks j)
      × (length n.dev.blocks ≤ max (length m.dev.blocks) (k + nr))
zero_blocks-zero k nr m = (
  record m { dev = record (m.dev) { blocks = zeroed k nr m.dev.blocks } },
  zero_blocks_lem nr k m,
  λ j lo hi. zeroed_within nr k j m.dev.blocks lo hi,
  λ j outside inside. by_side j outside inside,
  length-zeroed nr k m.dev.blocks,
)
  where
    by_side :
        (j : ℕ)
        → (j < k) ⊎ (k + nr ≤ j)
        → j < length m.dev.blocks
        → get_elem? (zeroed k nr m.dev.blocks) j ≡ get_elem? m.dev.blocks j
    by_side j (inl h) inside = zeroed_before nr k j m.dev.blocks h inside
    by_side j (inr h) inside = zeroed_behind nr k j m.dev.blocks h inside
