-- ===== src/Csum/Xor.antt =====
-- bit_xor at variables: it can be cancelled on either side.
use Prim.Native.Nat.{differ, digits, bit_xor-bitwise}
use native.Mathlib.Decide.{ℕ_discrete}
use klee_testfs.Common.{
  ℕ, zero, suc, ◌+◌, ◌*◌, ◌/◌, ◌%◌, ◌^◌, ◌≤◌, ◌<◌, ◌≡◌, refl, ap, subst, sym, ◌∙◌, arith, bit_xor,
}

-- What `bit_xor` stands for, on `n` rounds.
abbrev xor_rounds : ℕ → ℕ → ℕ → ℕ
xor_rounds n a b = digits (λ y. y) differ n a b

-- One round more than the number has does not matter, so no number of them does.
extra_round : (n a b : ℕ) → a ≤ n → xor_rounds (suc n) a b ≡ xor_rounds n a b
extra_round zero (suc a) b h = absurd (omega arith)
extra_round (suc n) (suc a) b h =
    ap (λ r. r * 2 + differ (suc a % 2) (b % 2)) (extra_round n (suc a / 2) (b / 2) (omega arith))
extra_round zero zero b h = refl
extra_round (suc n) zero b h = refl

extra_rounds : (n m a b : ℕ) → a ≤ n → n ≤ m → xor_rounds m a b ≡ xor_rounds n a b
extra_rounds zero zero a b h le = refl
extra_rounds (suc n) zero a b h le = absurd (omega arith)
extra_rounds n (suc m) a b h le = elim (ℕ_discrete n (suc m)) [
  | yes e ↦ ap (λ k. xor_rounds k a b) (sym e)
  | no ne ↦ extra_round m a b (omega arith) ∙ extra_rounds n m a b h (omega arith)
]

-- The lowest digit.
bit_xor_step : (a b : ℕ) → bit_xor a b ≡ bit_xor (a / 2) (b / 2) * 2 + differ (a % 2) (b % 2)
bit_xor_step zero b = simp bit_xor-bitwise (omega arith)
bit_xor_step (suc a) b = simp bit_xor-bitwise (
    ap (λ r. r * 2 + differ (suc a % 2) (b % 2))
      (extra_rounds (suc a / 2) a (suc a / 2) (b / 2) (omega arith) (omega arith)))

differ-lt : (x y : ℕ) → x < 2 → y < 2 → differ x y < 2
differ-lt zero y hx hy = hy
differ-lt (suc x) zero hx hy = hx
differ-lt (suc x) (suc y) hx hy = differ-lt x y (omega arith) (omega arith)

differ-cancel : (x u y : ℕ) → x < 2 → u < 2 → y < 2 → differ x y ≡ differ u y → x ≡ u
differ-cancel zero zero y hx hu hy e = refl
differ-cancel (suc x) (suc u) zero hx hu hy e = e
differ-cancel (suc x) (suc u) (suc y) hx hu hy e = omega arith
differ-cancel zero (suc u) zero hx hu hy e = absurd (omega arith)
differ-cancel zero (suc u) (suc zero) hx hu hy e = absurd (differ_apart u hu e)
  where
    differ_apart : (u : ℕ) → suc u < 2 → ◌≡◌ {A = ℕ} 1 (differ u 0) → ⊥
    differ_apart zero h e = omega arith
    differ_apart (suc u) h e = omega arith
differ-cancel zero (suc u) (suc (suc y)) hx hu hy e = absurd (omega arith)
differ-cancel (suc x) zero zero hx hu hy e = absurd (omega arith)
differ-cancel (suc x) zero (suc zero) hx hu hy e = absurd (differ_apart x hx e)
  where
    differ_apart : (u : ℕ) → suc u < 2 → ◌≡◌ {A = ℕ} (differ u 0) 1 → ⊥
    differ_apart zero h e = omega arith
    differ_apart (suc u) h e = omega arith
differ-cancel (suc x) zero (suc (suc y)) hx hu hy e = absurd (omega arith)

differ_comm : (x y : ℕ) → differ x y ≡ differ y x
differ_comm zero zero = refl
differ_comm zero (suc y) = refl
differ_comm (suc x) zero = refl
differ_comm (suc x) (suc y) = differ_comm x y

bit_xor-cancel_fuel : (n a u b : ℕ) → a ≤ n → u ≤ n → bit_xor a b ≡ bit_xor u b → a ≡ u
bit_xor-cancel_fuel zero a u b ha hu e = omega arith
bit_xor-cancel_fuel (suc n) a u b ha hu e =
    let step : (bit_xor (a / 2) (b / 2) ≡ bit_xor (u / 2) (b / 2))
        × (differ (a % 2) (b % 2) ≡ differ (u % 2) (b % 2)) =
      omega (
        arith,
        bit_xor_step a b,
        bit_xor_step u b,
        differ-lt (a % 2) (b % 2) (omega arith) (omega arith),
        differ-lt (u % 2) (b % 2) (omega arith) (omega arith),
      ) in
    omega (
      arith,
      bit_xor-cancel_fuel n (a / 2) (u / 2) (b / 2) (omega arith) (omega arith) step.0,
      differ-cancel (a % 2) (u % 2) (b % 2) (omega arith) (omega arith) (omega arith) step.1,
    )

pub bit_xor-cancel_right : (a u b : ℕ) → bit_xor a b ≡ bit_xor u b → a ≡ u
bit_xor-cancel_right a u b e = bit_xor-cancel_fuel (a + u) a u b (omega arith) (omega arith) e

bit_xor_comm_fuel : (n a b : ℕ) → a ≤ n → b ≤ n → bit_xor a b ≡ bit_xor b a
bit_xor_comm_fuel zero zero zero ha hb = refl
bit_xor_comm_fuel zero zero (suc b) ha hb = absurd (omega arith)
bit_xor_comm_fuel zero (suc a) b ha hb = absurd (omega arith)
bit_xor_comm_fuel (suc n) a b ha hb = omega (
  arith,
  bit_xor_step a b,
  bit_xor_step b a,
  differ_comm (a % 2) (b % 2),
  bit_xor_comm_fuel n (a / 2) (b / 2) (omega arith) (omega arith),
)

pub bit_xor_comm : (a b : ℕ) → bit_xor a b ≡ bit_xor b a
bit_xor_comm a b = bit_xor_comm_fuel (a + b) a b (omega arith) (omega arith)

pub bit_xor-lt : (w a b : ℕ) → a < 2 ^ w → b < 2 ^ w → bit_xor a b < 2 ^ w
bit_xor-lt zero a b ha hb =
    let both : (a ≡ 0) × (b ≡ 0) = omega arith in
    subst (λ x. bit_xor x b < 1) (sym both.0)
      (subst (λ y. bit_xor 0 y < 1) (sym both.1) (omega arith))
bit_xor-lt (suc w) a b ha hb = omega (
  arith,
  bit_xor_step a b,
  pow_suc w,
  differ-lt (a % 2) (b % 2) (omega arith) (omega arith),
  bit_xor-lt w (a / 2) (b / 2) (omega (arith, pow_suc w)) (omega (arith, pow_suc w)),
)
  where
    pow_suc : (w : ℕ) → 2 ^ suc w ≡ 2 * 2 ^ w
    pow_suc w = omega arith
