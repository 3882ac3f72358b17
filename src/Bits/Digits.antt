-- ===== src/Bits/Digits.antt =====
-- The digits of `bit_or`, `bit_and` and `bit_xor`, and equality by digits.
use Prim.Native.Nat.{digits, bitwise, differ, bit_and-bitwise, bit_or-bitwise, bit_xor-bitwise}
use native.Mathlib.Nat.{le_refl, pow-suc, one-le-pow}
use silkware.Base.{
  ℕ, zero, suc, ◌+◌, ◌*◌, ◌/◌, ◌%◌, ◌^◌, ◌≤◌, ◌<◌, min, max, bit_and, bit_or, bit_xor, ◌≡◌, refl,
  arith,
}

-- Digit `i` of `x`.
unfoldable pub bit : ℕ → ℕ → ℕ
bit x zero = x % 2
bit x (suc i) = bit (x / 2) i

module _ (alone : ℕ → ℕ) (mix : ℕ → ℕ → ℕ) where
  -- Any two amounts of fuel that the first number does not exceed give the same digits.
  digits_fuel :
      (x y fuel more : ℕ)
      → x ≤ fuel
      → x ≤ more
      → digits alone mix fuel x y ≡ digits alone mix more x y
  digits_fuel zero y zero zero h k = refl
  digits_fuel zero y zero (suc more) h k = refl
  digits_fuel zero y (suc fuel) zero h k = refl
  digits_fuel zero y (suc fuel) (suc more) h k = refl
  digits_fuel (suc x) y zero more h k = absurd (omega arith)
  digits_fuel (suc x) y (suc fuel) zero h k = absurd (omega arith)
  digits_fuel (suc x) y (suc fuel) (suc more) h k =
      let half : suc x / 2 ≤ x = omega arith in
      rw (digits_fuel (suc x / 2) (y / 2) fuel more (omega (arith, half)) (omega (arith, half)))

  bitwise-suc :
      (x y : ℕ)
      → bitwise alone mix (suc x) y
        ≡ bitwise alone mix (suc x / 2) (y / 2) * 2 + mix (suc x % 2) (y % 2)
  bitwise-suc x y =
      let same = digits_fuel (suc x / 2) (y / 2) x (suc x / 2) (omega arith) (le_refl _) in
      omega (arith, same)

pub bit_or_lowest : (a b : ℕ) → bit_or a b ≡ bit_or (a / 2) (b / 2) * 2 + max (a % 2) (b % 2)
bit_or_lowest zero b = simp bit_or-bitwise (omega arith)
bit_or_lowest (suc a) b = simp bit_or-bitwise (bitwise-suc (λ y. y) max a b)

pub bit_and_lowest : (a b : ℕ) → bit_and a b ≡ bit_and (a / 2) (b / 2) * 2 + min (a % 2) (b % 2)
bit_and_lowest zero b = simp bit_and-bitwise (omega arith)
bit_and_lowest (suc a) b = simp bit_and-bitwise (bitwise-suc (λ y. 0) min a b)

differ_digits : (x y : ℕ) → x < 2 → y < 2 → differ x y ≡ (x + y) % 2
differ_digits zero zero p q = refl
differ_digits zero (suc y) p q = omega arith
differ_digits (suc zero) zero p q = refl
differ_digits (suc zero) (suc zero) p q = refl
differ_digits (suc zero) (suc (suc y)) p q = absurd (omega arith)
differ_digits (suc (suc x)) y p q = absurd (omega arith)

pub bit_xor_lowest : (a b : ℕ) → bit_xor a b ≡ bit_xor (a / 2) (b / 2) * 2 + (a % 2 + b % 2) % 2
bit_xor_lowest zero b = simp bit_xor-bitwise (omega arith)
bit_xor_lowest (suc a) b =
    simp (bit_xor-bitwise, ← differ_digits (suc a % 2) (b % 2) (omega arith) (omega arith))
      (bitwise-suc (λ y. y) differ a b)

pub bit-lt : (x i : ℕ) → bit x i < 2
unfolding bit
bit-lt x zero = omega arith
bit-lt x (suc i) = bit-lt (x / 2) i

pub bit-or : (i a b : ℕ) → bit (bit_or a b) i ≡ max (bit a i) (bit b i)
unfolding bit
bit-or zero a b = omega (arith, bit_or_lowest a b)
bit-or (suc i) a b =
    let e : bit_or a b / 2 ≡ bit_or (a / 2) (b / 2) = omega (arith, bit_or_lowest a b) in
    rw e (bit-or i (a / 2) (b / 2))

pub bit-and : (i a b : ℕ) → bit (bit_and a b) i ≡ min (bit a i) (bit b i)
unfolding bit
bit-and zero a b = omega (arith, bit_and_lowest a b)
bit-and (suc i) a b =
    let e : bit_and a b / 2 ≡ bit_and (a / 2) (b / 2) = omega (arith, bit_and_lowest a b) in
    rw e (bit-and i (a / 2) (b / 2))

pub bit-xor : (i a b : ℕ) → bit (bit_xor a b) i ≡ (bit a i + bit b i) % 2
unfolding bit
bit-xor zero a b = omega (arith, bit_xor_lowest a b)
bit-xor (suc i) a b =
    let e : bit_xor a b / 2 ≡ bit_xor (a / 2) (b / 2) = omega (arith, bit_xor_lowest a b) in
    rw e (bit-xor i (a / 2) (b / 2))

bit-zero : (i : ℕ) → bit 0 i ≡ 0
unfolding bit
bit-zero zero = refl
bit-zero (suc i) = bit-zero i

-- A number below `2 ^ n` has no digit from `n` on.
pub bit_of_lt : (n i x : ℕ) → x < 2 ^ n → n ≤ i → bit x i ≡ 0
unfolding bit
bit_of_lt zero i zero h le = bit-zero i
bit_of_lt zero i (suc x) h le = absurd (omega arith)
bit_of_lt (suc n) zero x h le = absurd (omega arith)
bit_of_lt (suc n) (suc i) x h le = bit_of_lt n i (x / 2) (omega (arith, pow-suc 2 n)) (omega arith)

-- Two numbers below `2 ^ n` with the same digits are equal.
pub eq_of_bits : (n x y : ℕ) → x < 2 ^ n → y < 2 ^ n → ((i : ℕ) → i < n → bit x i ≡ bit y i) → x ≡ y
unfolding bit
eq_of_bits zero x y p q h = omega arith
eq_of_bits (suc n) x y p q h =
    let half =
      eq_of_bits n (x / 2) (y / 2) (omega (arith, pow-suc 2 n)) (omega (arith, pow-suc 2 n))
        (λ i l. h (suc i) (omega arith)) in
    omega (arith, half, h 0 (omega arith))

-- With no digit from `n` on, a number is below `2 ^ n`; `m` bounds how far there is to look.
lt_of_bits_below : (m n x : ℕ) → x < 2 ^ m → ((i : ℕ) → n ≤ i → bit x i ≡ 0) → x < 2 ^ n
unfolding bit
lt_of_bits_below zero zero x p h = p
lt_of_bits_below zero (suc n) x p h = omega (arith, pow-suc 2 n, one-le-pow n 2 (omega arith))
lt_of_bits_below (suc m) zero x p h =
    let half =
      lt_of_bits_below m zero (x / 2) (omega (arith, pow-suc 2 m))
        (λ i l. h (suc i) (omega arith)) in
    omega (arith, half, h 0 (omega arith))
lt_of_bits_below (suc m) (suc n) x p h =
    let half =
      lt_of_bits_below m n (x / 2) (omega (arith, pow-suc 2 m)) (λ i l. h (suc i) (omega arith)) in
    omega (arith, half, pow-suc 2 n)

pub lt_pow_self : (x : ℕ) → x < 2 ^ x
lt_pow_self zero = omega arith
lt_pow_self (suc x) = omega (arith, lt_pow_self x, pow-suc 2 x)

pub lt_of_bits : (n x : ℕ) → ((i : ℕ) → n ≤ i → bit x i ≡ 0) → x < 2 ^ n
lt_of_bits n x = lt_of_bits_below x n x (lt_pow_self x)
