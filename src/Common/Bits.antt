-- ===== src/Common/Bits.antt =====
-- Bounds on the bit operations at every width, from their recursion on binary digits.
use Prim.Native.Nat.{ℕ, zero, suc, ◌+◌, ◌-◌, ◌*◌, ◌/◌, ◌%◌, ◌^◌, ◌≤◌, ◌<◌, digits, bitwise, differ}
use Prim.Native.Nat.{min, max, bit_and, bit_or, bit_xor}
use Prim.Native.Nat.{bit_and-bitwise, bit_or-bitwise, bit_xor-bitwise}
use mathlib.Core.Path.{◌≡◌, refl, sym, ap, ◌∙◌}
use native.Mathlib.Nat.{pow-suc, mul_comm, div-div-eq-div-mul}
use native.Mathlib.Omega.{arith}

module _ (z : ℕ → ℕ) (f : ℕ → ℕ → ℕ) where
  digits_of_zero : (fuel y : ℕ) → digits z f fuel 0 y ≡ z y
  digits_of_zero zero y = refl
  digits_of_zero (suc fuel) y = refl

  -- Fuel beyond the number itself changes nothing.
  spare_fuel : (spare fuel x y : ℕ) → x ≤ fuel → digits z f (spare + fuel) x y ≡ digits z f fuel x y
  spare_fuel spare fuel zero y h = digits_of_zero (spare + fuel) y ∙ sym (digits_of_zero fuel y)
  spare_fuel spare zero (suc x) y h = absurd (omega arith)
  spare_fuel spare (suc fuel) (suc x) y h =
      let shift : spare + suc fuel ≡ suc (spare + fuel) = omega arith in
      ap (λ n. digits z f n (suc x) y) shift
      ∙ one_digit (spare + fuel) fuel x y (spare_fuel spare fuel (suc x / 2) (y / 2) (omega arith))
    where
      one_digit :
          (m n u v : ℕ)
          → digits z f m (suc u / 2) (v / 2) ≡ digits z f n (suc u / 2) (v / 2)
          → digits z f (suc m) (suc u) v ≡ digits z f (suc n) (suc u) v
      one_digit m n u v e = rw e

  lowest_digit :
      (x y : ℕ)
      → bitwise z f (suc x) y ≡ f (suc x % 2) (y % 2) + bitwise z f (suc x / 2) (y / 2) * 2
  lowest_digit x y =
      let half : ℕ = suc x / 2 in
      let total : x - half + half ≡ x = omega arith in
      omega (
        arith,
        ap (λ n. digits z f n half (y / 2)) total,
        spare_fuel (x - half) half half (y / 2) (omega arith),
      )

differ-le : (a b : ℕ) → a ≤ 1 → b ≤ 1 → differ a b ≤ 1
differ-le zero b p q = q
differ-le (suc a) zero p q = p
differ-le (suc a) (suc b) p q = differ-le a b (omega arith) (omega arith)

xor_digit :
    (a b : ℕ) → bit_xor (suc a) b ≡ differ (suc a % 2) (b % 2) + bit_xor (suc a / 2) (b / 2) * 2
xor_digit a b = simp bit_xor-bitwise (lowest_digit (λ y. y) differ a b)

-- Exclusive or stays below a power of two that both numbers stay below.
pub bit_xor-lt : (k a b : ℕ) → a < 2 ^ k → b < 2 ^ k → bit_xor a b < 2 ^ k
bit_xor-lt k zero b p q = simp bit_xor-bitwise q
bit_xor-lt zero (suc a) b p q = absurd (omega arith)
bit_xor-lt (suc k) (suc a) b p q = omega (
  arith,
  xor_digit a b,
  differ-le (suc a % 2) (b % 2) (omega arith) (omega arith),
  pow-suc 2 k,
  bit_xor-lt k (suc a / 2) (b / 2) (omega (arith, pow-suc 2 k)) (omega (arith, pow-suc 2 k)),
)

and_digit : (a b : ℕ) → bit_and a b ≡ min (a % 2) (b % 2) + bit_and (a / 2) (b / 2) * 2
and_digit zero b = simp bit_and-bitwise (omega arith)
and_digit (suc a) b = simp bit_and-bitwise (lowest_digit (λ y. 0) min a b)

-- `a & b` is at most `a`.
pub bit_and-le : (k a b : ℕ) → a ≤ k → bit_and a b ≤ a
bit_and-le k zero b h = simp bit_and-bitwise (omega arith)
bit_and-le zero (suc a) b h = absurd (omega arith)
bit_and-le (suc k) (suc a) b h =
    omega (arith, and_digit (suc a) b, bit_and-le k (suc a / 2) (b / 2) (omega arith))

bit_and-zero : (bound a : ℕ) → a ≤ bound → bit_and a 0 ≡ 0
bit_and-zero bound zero small = simp bit_and-bitwise refl
bit_and-zero zero (suc a) small = absurd (omega arith)
bit_and-zero (suc bound) (suc a) small =
    let halved : bit_and (suc a / 2) 0 ≡ 0 = bit_and-zero bound (suc a / 2) (omega arith) in
    omega (arith, and_digit (suc a) 0, halved)

-- `a & (1 << k)` is the digit `k` of `a`, in its place.
pub bit_and-pow : (k a : ℕ) → bit_and a (2 ^ k) ≡ a / 2 ^ k % 2 * 2 ^ k
bit_and-pow zero a = omega (arith, and_digit a 1, bit_and-zero (a / 2) (a / 2) (omega arith))
bit_and-pow (suc k) a =
    let half : 2 ^ k * 2 / 2 ≡ 2 ^ k = omega arith in
    let quotient : a / (2 ^ k * 2) ≡ a / 2 / 2 ^ k =
      rw mul_comm (sym (div-div-eq-div-mul a 2 (2 ^ k))) in
    rw (pow-suc 2 k, quotient)
      (omega (arith, rw half at (and_digit a (2 ^ k * 2)), bit_and-pow k (a / 2)))

or_digit : (a b : ℕ) → bit_or a b ≡ max (a % 2) (b % 2) + bit_or (a / 2) (b / 2) * 2
or_digit zero b = simp bit_or-bitwise (omega arith)
or_digit (suc a) b = simp bit_or-bitwise (lowest_digit (λ y. y) max a b)

bit_or-zero : (k a : ℕ) → a ≤ k → bit_or a 0 ≡ a
bit_or-zero k zero h = simp bit_or-bitwise refl
bit_or-zero zero (suc a) h = absurd (omega arith)
bit_or-zero (suc k) (suc a) h =
    omega (arith, or_digit (suc a) 0, bit_or-zero k (suc a / 2) (omega arith))

-- `a | (1 << k)` adds the digit where `a` has only lower ones.
pub bit_or-pow : (k a : ℕ) → a < 2 ^ k → bit_or a (2 ^ k) ≡ a + 2 ^ k
bit_or-pow zero zero h = simp bit_or-bitwise refl
bit_or-pow zero (suc a) h = absurd (omega arith)
bit_or-pow (suc k) a h =
    let half : 2 ^ k * 2 / 2 ≡ 2 ^ k = omega arith in
    rw (pow-suc 2 k) (
      omega (
        arith,
        rw half at (or_digit a (2 ^ k * 2)),
        bit_or-pow k (a / 2) (omega (arith, pow-suc 2 k)),
      ))
