-- ===== src/Common/Slices.antt =====
-- Slices of a buffer: their lengths, and what a change elsewhere leaves alone.
use Prim.Native.Nat.{ℕ, zero, suc, ◌+◌, ◌≤◌, ◌<◌}
use mathlib.Core.Path.{◌≡◌, refl, ap, sym, ◌∙◌}
use mathlib.Core.List.{List, [], ◌∷◌, ◌++◌}
use native.Mathlib.Omega.{arith}
use klee_testfs.Common.Lists.{
  length, set, take, drop, slice, splice, length-take, length-drop, length-append,
}

module _ {ℓ} {A : Type ℓ} where
  pub length-slice : (i n : ℕ) (xs : List A) → i + n ≤ length xs → length (slice i n xs) ≡ n
  unfolding slice
  length-slice i n xs h = omega (arith, length-take n (drop i xs), length-drop i xs)

  take-set_after : (n : ℕ) (xs : List A) (j : ℕ) (v : A) → n ≤ j → take n (set xs j v) ≡ take n xs
  take-set_after zero xs j v h = refl
  take-set_after (suc n) [] j v h = refl
  take-set_after (suc n) (x ∷ xs) zero v h = absurd (omega arith)
  take-set_after (suc n) (x ∷ xs) (suc j) v h =
      ap (λ r. x ∷ r) (take-set_after n xs j v (omega arith))

  pub slice-set_after :
      (i n : ℕ) (xs : List A) (j : ℕ) (v : A) → i + n ≤ j → slice i n (set xs j v) ≡ slice i n xs
  unfolding slice
  slice-set_after zero n xs j v h = take-set_after n xs j v (omega arith)
  slice-set_after (suc i) n [] j v h = refl
  slice-set_after (suc i) n (x ∷ xs) zero v h = absurd (omega arith)
  slice-set_after (suc i) n (x ∷ xs) (suc j) v h = slice-set_after i n xs j v (omega arith)

  pub slice-set_before :
      (i n : ℕ) (xs : List A) (j : ℕ) (v : A) → j < i → slice i n (set xs j v) ≡ slice i n xs
  unfolding slice
  slice-set_before zero n xs j v h = absurd (omega arith)
  slice-set_before (suc i) n [] j v h = refl
  slice-set_before (suc i) n (x ∷ xs) zero v h = refl
  slice-set_before (suc i) n (x ∷ xs) (suc j) v h = slice-set_before i n xs j v (omega arith)

  pub length-splice :
      (i : ℕ) (ys xs : List A) → i + length ys ≤ length xs → length (splice i ys xs) ≡ length xs
  unfolding splice
  length-splice i ys xs h = omega (
    arith,
    length-append (take i xs) (ys ++ drop (i + length ys) xs),
    length-append ys (drop (i + length ys) xs),
    length-take i xs,
    length-drop (i + length ys) xs,
  )

  take-append_left : (n : ℕ) (xs ys : List A) → length xs ≡ n → take n (xs ++ ys) ≡ xs
  take-append_left zero [] ys h = refl
  take-append_left zero (x ∷ xs) ys h = absurd (omega arith)
  take-append_left (suc n) [] ys h = absurd (omega arith)
  take-append_left (suc n) (x ∷ xs) ys h = ap (λ r. x ∷ r) (take-append_left n xs ys (omega arith))

  slice-splice_tail :
      (i n : ℕ) (ys zs xs : List A)
      → length ys ≡ n
      → i ≤ length xs
      → slice i n (take i xs ++ (ys ++ zs)) ≡ ys
  unfolding slice
  slice-splice_tail zero n ys zs xs e h = take-append_left n ys zs e
  slice-splice_tail (suc i) n ys zs [] e h = absurd (omega arith)
  slice-splice_tail (suc i) n ys zs (x ∷ xs) e h = slice-splice_tail i n ys zs xs e (omega arith)

  -- What was copied in is read back.
  pub slice-splice :
      (i : ℕ) (ys xs : List A) → i ≤ length xs → slice i (length ys) (splice i ys xs) ≡ ys
  unfolding splice
  slice-splice i ys xs h = slice-splice_tail i (length ys) ys (drop (i + length ys) xs) xs refl h

  drop-append : (xs ys : List A) → drop (length xs) (xs ++ ys) ≡ ys
  drop-append [] ys = refl
  drop-append (x ∷ xs) ys = drop-append xs ys

  -- The middle one of three parts.
  pub slice-append :
      (i n : ℕ) (xs ys zs : List A)
      → length xs ≡ i
      → length ys ≡ n
      → slice i n (xs ++ (ys ++ zs)) ≡ ys
  unfolding slice
  slice-append i n xs ys zs hi hn =
      ap (λ j. take n (drop j (xs ++ (ys ++ zs)))) (sym hi)
      ∙ ap (take n) (drop-append xs (ys ++ zs))
      ∙ take-append_left n ys zs hn

  -- The middle one of three parts overwritten.
  pub splice-append :
      (i : ℕ) (xs ys ys' zs : List A)
      → length xs ≡ i
      → length ys' ≡ length ys
      → splice i ys' (xs ++ (ys ++ zs)) ≡ xs ++ (ys' ++ zs)
  unfolding splice
  splice-append i xs ys ys' zs hi hy =
      ap (λ j. take j (xs ++ (ys ++ zs)) ++ (ys' ++ drop (j + length ys') (xs ++ (ys ++ zs))))
        (sym hi)
      ∙ ap (λ ts. ts ++ (ys' ++ drop (length xs + length ys') (xs ++ (ys ++ zs))))
          (take-append_left (length xs) xs (ys ++ zs) refl)
      ∙ ap (λ ts. xs ++ (ys' ++ ts)) (rest xs)
    where
      rest : (xs : List A) → drop (length xs + length ys') (xs ++ (ys ++ zs)) ≡ zs
      rest [] = ap (λ j. drop j (ys ++ zs)) (no_more hy) ∙ drop-append ys zs
        where
          no_more : length ys' ≡ length ys → 0 + length ys' ≡ length ys
          no_more e = omega arith
      rest (x ∷ xs) = ap (λ j. drop j (x ∷ (xs ++ (ys ++ zs)))) (later xs) ∙ rest xs
        where
          later : (xs : List A) → suc (length xs) + length ys' ≡ suc (length xs + length ys')
          later xs = omega arith
