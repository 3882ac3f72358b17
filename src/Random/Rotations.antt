-- ===== src/Random/Rotations.antt =====
-- kernel/rand.c: rotations of words by the numbers of digits that qround uses.
use silkware.Base.{ℕ, ◌+◌, ◌-◌, ◌*◌, ◌/◌, ◌%◌, ◌^◌, ◌<◌, ◌≡◌, u32, arith}
use silkware.Bits.Shifts.{bit_or_fields}
use silkware.Random.{rotl}

-- The upper digits of a word come below the lower ones.
rotl-sum :
    (k a : ℕ)
    → u32 (a * 2 ^ k) ≡ a % 2 ^ (32 - k) * 2 ^ k
    → a / 2 ^ (32 - k) < 2 ^ k
    → rotl a k ≡ a % 2 ^ (32 - k) * 2 ^ k + a / 2 ^ (32 - k)
unfolding rotl
rotl-sum k a e h = rw e (bit_or_fields k (a % 2 ^ (32 - k)) (a / 2 ^ (32 - k)) h)

-- A rotation by `k` keeps words words, and the rotation by the other digits takes it back.
pub record IsRotation (k : ℕ) : Type 0 where
  pub fits : (w : ℕ) → w < 2 ^ 32 → rotl w k < 2 ^ 32
  pub back : (w : ℕ) → w < 2 ^ 32 → rotl (rotl w k) (32 - k) ≡ w

rotl_7 : (a : ℕ) → a < 2 ^ 32 → rotl a 7 ≡ a % 2 ^ 25 * 2 ^ 7 + a / 2 ^ 25
rotl_7 a h = rotl-sum 7 a (omega arith) (omega arith)

rotl_8 : (a : ℕ) → a < 2 ^ 32 → rotl a 8 ≡ a % 2 ^ 24 * 2 ^ 8 + a / 2 ^ 24
rotl_8 a h = rotl-sum 8 a (omega arith) (omega arith)

rotl_12 : (a : ℕ) → a < 2 ^ 32 → rotl a 12 ≡ a % 2 ^ 20 * 2 ^ 12 + a / 2 ^ 20
rotl_12 a h = rotl-sum 12 a (omega arith) (omega arith)

rotl_16 : (a : ℕ) → a < 2 ^ 32 → rotl a 16 ≡ a % 2 ^ 16 * 2 ^ 16 + a / 2 ^ 16
rotl_16 a h = rotl-sum 16 a (omega arith) (omega arith)

rotl_20 : (a : ℕ) → a < 2 ^ 32 → rotl a 20 ≡ a % 2 ^ 12 * 2 ^ 20 + a / 2 ^ 12
rotl_20 a h = rotl-sum 20 a (omega arith) (omega arith)

rotl_24 : (a : ℕ) → a < 2 ^ 32 → rotl a 24 ≡ a % 2 ^ 8 * 2 ^ 24 + a / 2 ^ 8
rotl_24 a h = rotl-sum 24 a (omega arith) (omega arith)

rotl_25 : (a : ℕ) → a < 2 ^ 32 → rotl a 25 ≡ a % 2 ^ 7 * 2 ^ 25 + a / 2 ^ 7
rotl_25 a h = rotl-sum 25 a (omega arith) (omega arith)

pub rotl_7-IsRotation : IsRotation 7
rotl_7-IsRotation = record {
  fits = λ a h. omega (arith, rotl_7 a h);
  back = λ a h.
      let f : rotl a 7 < 2 ^ 32 = omega (arith, rotl_7 a h) in
      omega (arith, rotl_7 a h, rotl_25 (rotl a 7) f);
}

pub rotl_8-IsRotation : IsRotation 8
rotl_8-IsRotation = record {
  fits = λ a h. omega (arith, rotl_8 a h);
  back = λ a h.
      let f : rotl a 8 < 2 ^ 32 = omega (arith, rotl_8 a h) in
      omega (arith, rotl_8 a h, rotl_24 (rotl a 8) f);
}

pub rotl_12-IsRotation : IsRotation 12
rotl_12-IsRotation = record {
  fits = λ a h. omega (arith, rotl_12 a h);
  back = λ a h.
      let f : rotl a 12 < 2 ^ 32 = omega (arith, rotl_12 a h) in
      omega (arith, rotl_12 a h, rotl_20 (rotl a 12) f);
}

pub rotl_16-IsRotation : IsRotation 16
rotl_16-IsRotation = record {
  fits = λ a h. omega (arith, rotl_16 a h);
  back = λ a h.
      let f : rotl a 16 < 2 ^ 32 = omega (arith, rotl_16 a h) in
      omega (arith, rotl_16 a h, rotl_16 (rotl a 16) f);
}
