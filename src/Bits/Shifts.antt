-- ===== src/Bits/Shifts.antt =====
-- Digits under shifts and masks, and the bounds that the operators keep.
use native.Mathlib.Nat.{
  pow-suc, one-le-pow, pow-succ', div-div-eq-div-mul, div-add-mod', mod-eq_of_lt,
}
use silkware.Base.{
  ℕ, zero, suc, ◌+◌, ◌-◌, ◌*◌, ◌/◌, ◌%◌, ◌^◌, ◌≤◌, ◌<◌, bit_and, bit_or, bit_xor, ◌≡◌, sym, ap, ◌∙◌,
  arith,
}
use silkware.Bits.Digits.{
  bit, bit-lt, bit-or, bit-and, bit-xor, bit_of_lt, eq_of_bits, lt_of_bits, lt_pow_self,
  bit_or_lowest, bit_and_lowest, bit_xor_lowest,
}

div-two-pow : (x k : ℕ) → x / 2 ^ suc k ≡ x / 2 / 2 ^ k
div-two-pow x k = rw (pow-succ' 2 k) (sym (div-div-eq-div-mul x 2 (2 ^ k)))

mul-two-pow : (x k : ℕ) → x * 2 ^ suc k ≡ 2 * (x * 2 ^ k)
mul-two-pow x k = omega (arith, ap (λ (t : ℕ). x * t) (pow-suc 2 k))

-- `>>` moves the digits down.
pub bit-shr : (k x i : ℕ) → bit (x / 2 ^ k) i ≡ bit x (i + k)
unfolding bit
bit-shr zero x i =
    let e : x / 2 ^ 0 ≡ x = omega arith in let f : i + 0 ≡ i = omega arith in rw (e, f)
bit-shr (suc k) x i =
    let f : i + suc k ≡ suc (i + k) = omega arith in rw (div-two-pow x k, f) (bit-shr k (x / 2) i)

-- `<<` moves the digits up.
bit-shl : (k x i : ℕ) → bit (x * 2 ^ k) (i + k) ≡ bit x i
unfolding bit
bit-shl zero x i =
    let e : x * 2 ^ 0 ≡ x = omega arith in let f : i + 0 ≡ i = omega arith in rw (e, f)
bit-shl (suc k) x i =
    let f : i + suc k ≡ suc (i + k) = omega arith in
    let e : x * 2 ^ suc k / 2 ≡ x * 2 ^ k = omega (arith, mul-two-pow x k) in
    rw f (ap (λ (t : ℕ). bit t (i + k)) e ∙ bit-shl k x i)

-- `<<` leaves zeros below.
bit-shl_low : (k x i : ℕ) → i < k → bit (x * 2 ^ k) i ≡ 0
unfolding bit
bit-shl_low zero x i h = absurd (omega arith)
bit-shl_low (suc k) x zero h = omega (arith, mul-two-pow x k)
bit-shl_low (suc k) x (suc i) h =
    let e : x * 2 ^ suc k / 2 ≡ x * 2 ^ k = omega (arith, mul-two-pow x k) in
    rw e (bit-shl_low k x i (omega arith))

mod-two-pow : (x n : ℕ) → x % 2 ^ suc n ≡ 2 * (x / 2 % 2 ^ n) + x % 2
mod-two-pow x n = omega (
  arith,
  div-two-pow x n,
  mul-two-pow (x / 2 ^ suc n) n,
  div-add-mod' x (2 ^ suc n),
  div-add-mod' (x / 2) (2 ^ n),
  ap (λ (t : ℕ). t * 2 ^ n) (div-two-pow x n),
)

-- A remainder by a power of two keeps the digits below it.
bit-mod : (n i x : ℕ) → i < n → bit (x % 2 ^ n) i ≡ bit x i
unfolding bit
bit-mod zero i x h = absurd (omega arith)
bit-mod (suc n) zero x h = omega (arith, mod-two-pow x n)
bit-mod (suc n) (suc i) x h =
    let e : x % 2 ^ suc n / 2 ≡ x / 2 % 2 ^ n = omega (arith, mod-two-pow x n) in
    rw e (bit-mod n i (x / 2) (omega arith))

pub bit_or-lt : (n a b : ℕ) → a < 2 ^ n → b < 2 ^ n → bit_or a b < 2 ^ n
bit_or-lt n a b p q =
    lt_of_bits n _ (λ i h. omega (arith, bit-or i a b, bit_of_lt n i a p h, bit_of_lt n i b q h))

bit_and-lt : (n a b : ℕ) → a < 2 ^ n → bit_and a b < 2 ^ n
bit_and-lt n a b p = lt_of_bits n _ (λ i h. omega (arith, bit-and i a b, bit_of_lt n i a p h))

pub bit_xor-lt : (n a b : ℕ) → a < 2 ^ n → b < 2 ^ n → bit_xor a b < 2 ^ n
bit_xor-lt n a b p q =
    lt_of_bits n _ (λ i h. omega (arith, bit-xor i a b, bit_of_lt n i a p h, bit_of_lt n i b q h))

bit_or-zero : (a : ℕ) → bit_or a 0 ≡ a
bit_or-zero a =
    eq_of_bits a (bit_or a 0) a (bit_or-lt a a 0 (lt_pow_self a) (omega (arith, one-le-pow a 2)))
      (lt_pow_self a) (λ i h. omega (arith, bit-or i a 0, bit_of_lt 0 i 0))

-- `q << k | r` is a sum when `r` fits `k` digits.
pub bit_or_fields : (k q r : ℕ) → r < 2 ^ k → bit_or (q * 2 ^ k) r ≡ q * 2 ^ k + r
bit_or_fields zero q zero h = omega (arith, bit_or-zero (q * 1))
bit_or_fields zero q (suc r) h = absurd (omega arith)
bit_or_fields (suc k) q r h =
    let half : q * 2 ^ suc k / 2 ≡ q * 2 ^ k = omega (arith, mul-two-pow q k) in
    let ih = bit_or_fields k q (r / 2) (omega (arith, pow-suc 2 k)) in
    omega (
      arith,
      bit_or_lowest (q * 2 ^ suc k) r,
      ap (λ (t : ℕ). bit_or t (r / 2)) half,
      ih,
      mul-two-pow q k,
    )

-- A mask of `k` low digits is the remainder by `2 ^ k`.
pub bit_and_mask : (k a : ℕ) → bit_and a (2 ^ k - 1) ≡ a % 2 ^ k
bit_and_mask zero a =
    omega (arith, lt_of_bits 0 (bit_and a 0) (λ i h. omega (arith, bit-and i a 0, bit_of_lt 0 i 0)))
bit_and_mask (suc k) a =
    let half : (2 ^ suc k - 1) / 2 ≡ 2 ^ k - 1 = omega (arith, pow-suc 2 k, one-le-pow k 2) in
    omega (
      arith,
      bit_and_lowest a (2 ^ suc k - 1),
      ap (λ (t : ℕ). bit_and (a / 2) t) half,
      bit_and_mask k (a / 2),
      mod-two-pow a k,
      pow-suc 2 k,
      one-le-pow k 2,
    )

-- `^` twice with the same number gives the first number back.
pub bit_xor_cancel : (n a b : ℕ) → a < 2 ^ n → b < 2 ^ n → bit_xor (bit_xor a b) b ≡ a
bit_xor_cancel n a b p q =
    eq_of_bits n _ a (bit_xor-lt n _ b (bit_xor-lt n a b p q) q) p
      (λ i h. omega (arith, bit-xor i (bit_xor a b) b, bit-xor i a b, bit-lt a i, bit-lt b i))

-- A number that is a multiple of `2 ^ k` shares no digit with one below `2 ^ k`.
pub bit_xor_fields : (k q r : ℕ) → r < 2 ^ k → bit_xor (q * 2 ^ k) r ≡ q * 2 ^ k + r
bit_xor_fields zero q zero h =
    let n = q * 2 ^ 0 in
    let p : q * 2 ^ 0 < 2 ^ n = lt_pow_self (q * 2 ^ 0) in
    let same : bit_xor (q * 2 ^ 0) 0 ≡ q * 2 ^ 0 =
      eq_of_bits n _ _ (bit_xor-lt n _ 0 p (omega (arith, one-le-pow n 2))) p
        (λ i l. omega (arith, bit-xor i (q * 2 ^ 0) 0, bit_of_lt 0 i 0, bit-lt (q * 2 ^ 0) i)) in
    omega (arith, same)
bit_xor_fields zero q (suc r) h = absurd (omega arith)
bit_xor_fields (suc k) q r h =
    let half : q * 2 ^ suc k / 2 ≡ q * 2 ^ k = omega (arith, mul-two-pow q k) in
    omega (
      arith,
      bit_xor_lowest (q * 2 ^ suc k) r,
      ap (λ (t : ℕ). bit_xor t (r / 2)) half,
      bit_xor_fields k q (r / 2) (omega (arith, pow-suc 2 k)),
      mul-two-pow q k,
    )

-- The mask of `n` low digits has them all.
pub bit_of_mask : (n i : ℕ) → i < n → bit (2 ^ n - 1) i ≡ 1
unfolding bit
bit_of_mask zero i h = absurd (omega arith)
bit_of_mask (suc n) zero h = omega (arith, pow-suc 2 n, one-le-pow n 2)
bit_of_mask (suc n) (suc i) h =
    let half : (2 ^ suc n - 1) / 2 ≡ 2 ^ n - 1 = omega (arith, pow-suc 2 n, one-le-pow n 2) in
    rw half (bit_of_mask n i (omega arith))

-- The top digit.
pub bit_top : (k x : ℕ) → 2 ^ k ≤ x → x < 2 ^ suc k → bit x k ≡ 1
unfolding bit
bit_top zero x p q = omega arith
bit_top (suc k) x p q =
    bit_top k (x / 2) (omega (arith, pow-suc 2 k)) (omega (arith, pow-suc 2 (suc k), pow-suc 2 k))

-- A positive number below `2 ^ n` has a top digit.
pub top_digit : (n x : ℕ) → 0 < x → x < 2 ^ n → (k : ℕ) × (k < n) × (2 ^ k ≤ x) × (x < 2 ^ suc k)
top_digit zero x p q = absurd (omega arith)
top_digit (suc n) (suc zero) p q = (0, omega arith, omega arith, omega arith)
top_digit (suc n) (suc (suc x)) p q =
    let (k, h, l, u) = top_digit n (suc (suc x) / 2) (omega arith) (omega (arith, pow-suc 2 n)) in
    (suc k, omega arith, omega (arith, pow-suc 2 k), omega (arith, pow-suc 2 (suc k), pow-suc 2 k))
top_digit (suc n) zero p q = absurd (omega arith)

-- Clearing the low `k` digits of a number of `m + k` digits.
pub bit_and_high :
    (m k a : ℕ) → a < 2 ^ (m + k) → bit_and a ((2 ^ m - 1) * 2 ^ k) ≡ a / 2 ^ k * 2 ^ k
bit_and_high m zero a small =
    let e : (2 ^ m - 1) * 2 ^ 0 ≡ 2 ^ m - 1 = omega arith in
    let all : m + 0 ≡ m = omega arith in
    let below : a < 2 ^ m = omega (arith, ap (λ (t : ℕ). 2 ^ t) all) in
    rw e (omega (arith, bit_and_mask m a, mod-eq_of_lt below))
bit_and_high m (suc k) a small =
    let high = (2 ^ m - 1) * 2 ^ k in
    let double : (2 ^ m - 1) * 2 ^ suc k ≡ 2 * high =
      omega (arith, ap (λ (t : ℕ). (2 ^ m - 1) * t) (pow-succ' 2 k)) in
    let half : 2 * high / 2 ≡ high = omega arith in
    let all : m + suc k ≡ suc (m + k) = omega arith in
    let below : a / 2 < 2 ^ (m + k) =
      omega (arith, ap (λ (t : ℕ). 2 ^ t) all, pow-succ' 2 (m + k)) in
    let rest = bit_and_high m k (a / 2) below in
    let split : a / 2 ^ suc k ≡ a / 2 / 2 ^ k = div-two-pow a k in
    let whole : a / 2 / 2 ^ k * 2 ^ suc k ≡ 2 * (a / 2 / 2 ^ k * 2 ^ k) =
      omega (arith, ap (λ (t : ℕ). a / 2 / 2 ^ k * t) (pow-succ' 2 k)) in
    rw (double, split)
      (omega
        (arith, bit_and_lowest a (2 * high), ap (λ (t : ℕ). bit_and (a / 2) t) half, rest, whole))

-- Keeping `m` digits from digit `k` on.
pub bit_and_middle : (m k a : ℕ) → bit_and a ((2 ^ m - 1) * 2 ^ k) ≡ a / 2 ^ k % 2 ^ m * 2 ^ k
bit_and_middle m zero a =
    let e : (2 ^ m - 1) * 2 ^ 0 ≡ 2 ^ m - 1 = omega arith in
    let whole : a / 2 ^ 0 ≡ a = omega arith in rw (e, whole) (omega (arith, bit_and_mask m a))
bit_and_middle m (suc k) a =
    let high = (2 ^ m - 1) * 2 ^ k in
    let double : (2 ^ m - 1) * 2 ^ suc k ≡ 2 * high =
      omega (arith, ap (λ (t : ℕ). (2 ^ m - 1) * t) (pow-succ' 2 k)) in
    let half : 2 * high / 2 ≡ high = omega arith in
    let rest = bit_and_middle m k (a / 2) in
    let x = a / 2 / 2 ^ k % 2 ^ m in
    let whole : x * 2 ^ suc k ≡ 2 * (x * 2 ^ k) =
      omega (arith, ap (λ (t : ℕ). x * t) (pow-succ' 2 k)) in
    rw (double, div-two-pow a k)
      (omega
        (arith, bit_and_lowest a (2 * high), ap (λ (t : ℕ). bit_and (a / 2) t) half, rest, whole))

pub bit_or_comm : (a b : ℕ) → bit_or a b ≡ bit_or b a
bit_or_comm a b =
    let p : a < 2 ^ (a + b) = omega (arith, lt_pow_self (a + b)) in
    let q : b < 2 ^ (a + b) = omega (arith, lt_pow_self (a + b)) in
    eq_of_bits (a + b) (bit_or a b) (bit_or b a) (bit_or-lt (a + b) a b p q)
      (bit_or-lt (a + b) b a q p) (λ i h. omega (arith, bit-or i a b, bit-or i b a))
