-- ===== src/Bits.antt =====
-- The single bits of words: what setting a bit by `|=` does to a later test by `&`.
use lsmtree.Base.{
  ℕ, zero, suc, ◌+◌, ◌*◌, ◌/◌, ◌%◌, ◌^◌, ◌≤◌, ◌<◌, min, max, bit_and, bit_or, ◌≡◌, refl, ap, arith,
}
use Prim.Native.Nat.{digits, bit_and-bitwise, bit_or-bitwise}
use native.Mathlib.Nat.{pow-suc}

module _ (z : ℕ → ℕ) (f : ℕ → ℕ → ℕ) where
  -- The count of digits does not matter once it is large enough.
  digits_enough : (n m a b : ℕ) → a ≤ n → a ≤ m → digits z f n a b ≡ digits z f m a b
  digits_enough zero zero a b p q = refl
  digits_enough zero (suc m) zero b p q = refl
  digits_enough zero (suc m) (suc a) b p q = absurd (omega arith)
  digits_enough (suc n) zero zero b p q = refl
  digits_enough (suc n) zero (suc a) b p q = absurd (omega arith)
  digits_enough (suc n) (suc m) zero b p q = refl
  digits_enough (suc n) (suc m) (suc a) b p q =
      ap (λ (t : ℕ). t * 2 + f (suc a % 2) (b % 2))
        (digits_enough n m (suc a / 2) (b / 2) (omega arith) (omega arith))

  -- The lowest digit, and the others.
  digits_split :
      (a b : ℕ)
      → ((c : ℕ) → z c ≡ z (c / 2) * 2 + f 0 (c % 2))
      → digits z f a a b ≡ digits z f (a / 2) (a / 2) (b / 2) * 2 + f (a % 2) (b % 2)
  digits_split zero b h = h b
  digits_split (suc a) b h =
      ap (λ (t : ℕ). t * 2 + f (suc a % 2) (b % 2))
        (digits_enough a (suc a / 2) (suc a / 2) (b / 2) (omega arith) (omega arith))

bit_and-halves : (a b : ℕ) → bit_and a b ≡ bit_and (a / 2) (b / 2) * 2 + min (a % 2) (b % 2)
bit_and-halves a b = omega (
  arith,
  bit_and-bitwise a b,
  bit_and-bitwise (a / 2) (b / 2),
  digits_split (λ c. zero) min a b (λ c. omega arith),
)

bit_or-halves : (a b : ℕ) → bit_or a b ≡ bit_or (a / 2) (b / 2) * 2 + max (a % 2) (b % 2)
bit_or-halves a b = omega (
  arith,
  bit_or-bitwise a b,
  bit_or-bitwise (a / 2) (b / 2),
  digits_split (λ c. c) max a b (λ c. omega arith),
)

bit_and-zero_below : (n a : ℕ) → a ≤ n → bit_and a 0 ≡ 0
bit_and-zero_below zero a h =
    omega (arith, bit_and-bitwise a 0, ap (λ (t : ℕ). bit_and t 0) {x = a} {y = 0} (omega arith))
bit_and-zero_below (suc n) zero h = refl
bit_and-zero_below (suc n) (suc a) h =
    omega (arith, bit_and-halves (suc a) 0, bit_and-zero_below n (suc a / 2) (omega arith))

bit_and-zero : (a : ℕ) → bit_and a 0 ≡ 0
bit_and-zero a = bit_and-zero_below a a (omega arith)

half_pow : (k : ℕ) → 2 ^ suc k / 2 ≡ 2 ^ k
half_pow k = omega (arith, pow-suc 2 k)

half_or : (w v : ℕ) → bit_or w v / 2 ≡ bit_or (w / 2) (v / 2)
half_or w v = omega (arith, bit_or-halves w v)

-- A test of bit `k + 1` is a test of bit `k` of the half.
test_half : (k a : ℕ) → bit_and a (2 ^ suc k) ≡ bit_and (a / 2) (2 ^ k) * 2
test_half k a = omega (
  arith,
  pow-suc 2 k,
  bit_and-halves a (2 ^ suc k),
  ap (λ (t : ℕ). bit_and (a / 2) t) (half_pow k),
)

-- A bit that has been set is found set.
pub bit_set : (k w : ℕ) → 0 < bit_and (bit_or w (2 ^ k)) (2 ^ k)
bit_set zero w = omega (arith, bit_and-halves (bit_or w 1) 1, bit_or-halves w 1)
bit_set (suc k) w = omega (
  arith,
  test_half k (bit_or w (2 ^ suc k)),
  ap (λ (t : ℕ). bit_and t (2 ^ k)) (half_or w (2 ^ suc k)),
  ap (λ (t : ℕ). bit_and (bit_or (w / 2) t) (2 ^ k)) (half_pow k),
  bit_set k (w / 2),
)

-- Setting other bits clears none.
pub bit_kept : (k w v : ℕ) → bit_and w (2 ^ k) ≤ bit_and (bit_or w v) (2 ^ k)
bit_kept zero w v = omega (
  arith,
  bit_and-halves (bit_or w v) 1,
  bit_and-halves w 1,
  bit_or-halves w v,
  bit_and-zero (w / 2),
)
bit_kept (suc k) w v = omega (
  arith,
  test_half k w,
  test_half k (bit_or w v),
  ap (λ (t : ℕ). bit_and t (2 ^ k)) (half_or w v),
  bit_kept k (w / 2) (v / 2),
)

-- What is set by `|=` in a word keeps its width.
pub bit_or-bound : (k w v : ℕ) → w < 2 ^ k → v < 2 ^ k → bit_or w v < 2 ^ k
bit_or-bound zero w v h l =
    let none_w : w ≡ 0 = omega (arith, h) in
    let none_v : v ≡ 0 = omega (arith, l) in rw (none_w, none_v) (omega arith)
bit_or-bound (suc k) w v h l = omega (
  arith,
  pow-suc 2 k,
  bit_or-halves w v,
  bit_or-bound k (w / 2) (v / 2) (omega (arith, h, pow-suc 2 k)) (omega (arith, l, pow-suc 2 k)),
)
