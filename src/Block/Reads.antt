-- ===== src/Block/Reads.antt =====
-- block.c: read_blocks of several blocks that together hold a known buffer.
use klee_testfs.Common.{
  ℕ, zero, suc, ◌+◌, ◌*◌, ◌<◌, ◌≡◌, refl, sym, ap, ◌∙◌, some, [], ◌∷◌, ◌++◌, pos, get_elem?, length,
  take, slice, arith,
}
use klee_testfs.Bytes.{Bytes}
use klee_testfs.Machine.{Machine, M, ok, pure, ◌>>◌, and_then}
use klee_testfs.Machine.Run.{then_ok}
use klee_testfs.Block.{read_blocks, fread, fseek}
use klee_testfs.Block.Laws.{take-length, sought, fread_block-some}

take-nil : (n : ℕ) → take {A = ℕ} n [] ≡ []
take-nil zero = refl
take-nil (suc n) = refl

slice-nil : (i n : ℕ) → slice {A = ℕ} i n [] ≡ []
unfolding slice
slice-nil zero n = take-nil n
slice-nil (suc i) n = take-nil n

slice-none : (i : ℕ) (xs : Bytes) → slice i 0 xs ≡ []
unfolding slice
slice-none zero xs = refl
slice-none (suc i) [] = refl
slice-none (suc i) (x ∷ xs) = slice-none i xs

suc_add : (a b : ℕ) → suc a + b ≡ suc (a + b)
suc_add a b = omega arith

-- Two parts of a buffer that follow each other.
take-slice : (a b : ℕ) (xs : Bytes) → take a xs ++ slice a b xs ≡ take (a + b) xs
unfolding slice
take-slice zero b xs = ap (λ n. take n xs) zero_add
  where
    zero_add : b ≡ 0 + b
    zero_add = omega arith
take-slice (suc a) b [] = take-nil b ∙ sym (take-nil (suc a + b))
take-slice (suc a) b (x ∷ xs) =
    ap (λ r. x ∷ r) (take-slice a b xs) ∙ ap (λ n. take n (x ∷ xs)) (sym (suc_add a b))

slice-slice : (i a b : ℕ) (xs : Bytes) → slice i a xs ++ slice (i + a) b xs ≡ slice i (a + b) xs
unfolding slice
slice-slice zero a b xs = ap (λ n. take a xs ++ slice n b xs) zero_add ∙ take-slice a b xs
  where
    zero_add : 0 + a ≡ a
    zero_add = omega arith
slice-slice (suc i) a b [] =
    ap (λ bs. bs ++ slice (suc i + a) b []) (take-nil a)
    ∙ slice-nil (suc i + a) b
    ∙ sym (take-nil (a + b))
slice-slice (suc i) a b (x ∷ xs) =
    ap (λ n. slice i a xs ++ slice n b (x ∷ xs)) (suc_add i a) ∙ slice-slice i a b xs

module _ (v : Bytes) (k : ℕ) (m : Machine) where
  fread-slices :
      (nr i : ℕ)
      → ((j : ℕ) → j < i + nr → get_elem? m.dev.blocks (k + j) ≡ some (slice (j * 64) 64 v))
      → fread nr (sought m (k + i)) ≡ ok (slice (i * 64) (nr * 64) v) (sought m (k + i + nr))
  unfolding fread
  fread-slices zero i there =
      ap (λ p. ok [] (sought m p)) end
      ∙ ap (λ bs. ok bs (sought m (k + i + 0))) (sym (slice-none (i * 64) v))
    where
      end : k + i ≡ k + i + 0
      end = omega arith
  fread-slices (suc nr) i there =
      then_ok _ (fread_block-some (sought m (k + i)) (slice (i * 64) 64 v) (there i (omega arith)))
      ∙ next (fread-slices nr (i + 1) (λ j h. there j (omega arith)))
    where
      here : k + i + 1 ≡ k + (i + 1)
      here = omega arith

      end : k + (i + 1) + nr ≡ k + i + suc nr
      end = omega arith

      behind : (i + 1) * 64 ≡ i * 64 + 64
      behind = omega arith

      longer : 64 + nr * 64 ≡ suc nr * 64
      longer = omega arith

      next :
          fread nr (sought m (k + (i + 1)))
            ≡ ok (slice ((i + 1) * 64) (nr * 64) v) (sought m (k + (i + 1) + nr))
          → and_then (fread nr (sought m (k + i + 1))) (λ rest. pure (slice (i * 64) 64 v ++ rest))
            ≡ ok (slice (i * 64) (suc nr * 64) v) (sought m (k + i + suc nr))
      next read =
          ap (λ p. and_then (fread nr (sought m p)) (λ rest. pure (slice (i * 64) 64 v ++ rest)))
            here
          ∙ then_ok _ read
          ∙ ap (λ p. ok (slice (i * 64) 64 v ++ slice ((i + 1) * 64) (nr * 64) v) (sought m p)) end
          ∙ ap (λ n. ok (slice (i * 64) 64 v ++ slice n (nr * 64) v) (sought m (k + i + suc nr)))
              behind
          ∙ ap (λ bs. ok bs (sought m (k + i + suc nr))) (slice-slice (i * 64) 64 (nr * 64) v)
          ∙ ap (λ n. ok (slice (i * 64) n v) (sought m (k + i + suc nr))) longer

  -- The blocks from `k` on that hold a buffer one after the other.
  pub read_slices :
      (nr : ℕ)
      → ((j : ℕ) → j < nr → get_elem? m.dev.blocks (k + j) ≡ some (slice (j * 64) 64 v))
      → length v ≡ nr * 64
      → read_blocks (pos k) nr m ≡ ok v m
  unfolding read_blocks slice
  read_slices nr there size =
      ap (λ p. and_then (fread nr (sought m p)) back) start
      ∙ then_ok back (fread-slices nr 0 (λ j h. there j (omega arith)))
      ∙ ap (λ bs. ok bs m) (take-length (nr * 64) v size)
    where
      start : k ≡ k + 0
      start = omega arith

      back : Bytes → M Bytes
      back blocks = do fseek (pos m.dev.position); pure blocks
