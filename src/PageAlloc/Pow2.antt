-- ===== src/PageAlloc/Pow2.antt =====
-- `prev_pow2` and `next_pow2` of kernel/page_alloc.c, which set every digit below the top one by
-- six shifts.
use native.Mathlib.Nat.{pow-suc, one-le-pow, pow-le-pow_right, div-le_self}
use silkware.Base.{
  ℕ, zero, suc, ◌+◌, ◌-◌, ◌*◌, ◌^◌, ◌≤◌, ◌<◌, bit_or, ◌≡◌, refl, sym, ◌∙◌, inl, inr, true, false,
  arith, ltb, ◌==◌, if◌then◌else◌, Bool-cases, ltb→lt, u64, shr,
}
use silkware.Bits.Digits.{bit, bit-or, bit-lt, eq_of_bits}
use silkware.Bits.Shifts.{bit-shr, bit_or-lt, bit_of_mask, bit_top, top_digit}

-- `for (s = 1; s < sizeof(s)*8; s <<= 1) x |= x >> s;` with fuel for its rounds.
smear : ℕ → ℕ → ℕ → ℕ
smear zero s x = x
smear (suc fuel) s x = elim (ltb s 64) [
  | true ↦ smear fuel (s * 2) (bit_or x (shr x s))
  | false ↦ x
]

-- The loop makes six rounds: `s` is 1, 2, 4, 8, 16 and 32.
unfoldable pub prev_pow2 : ℕ → ℕ
unfolding smear
prev_pow2 x = if x == 0 then 0 else let y = smear 7 1 x in y - shr y 1

unfoldable pub next_pow2 : ℕ → ℕ
unfolding smear
next_pow2 x = if x == 0 then 0 else u64 (smear 7 1 (x - 1) + 1)

-- The `s` digits from digit `k` down are set, and there is none above it.
record IsFilled (k s x : ℕ) : Type 0 where
  below : x < 2 ^ suc k
  ones : (i : ℕ) → i ≤ k → k < i + s → bit x i ≡ 1

-- One round doubles the filled part.
IsFilled-round : {k s x : ℕ} → IsFilled k s x → IsFilled k (s * 2) (bit_or x (shr x s))
IsFilled-round {k} {s} {x} f = record {
  below = bit_or-lt (suc k) x (shr x s) f.below (omega (arith, f.below, div-le_self x (2 ^ s)));
  ones = λ i p q. elim (Bool-cases (ltb k (i + s))) [
    | inl near ↦
        omega (arith, bit-or i x (shr x s), bit-lt (shr x s) i, f.ones i p (ltb→lt _ _ near))
    | inr far ↦
        let reach : i + s ≤ k = ground arith in
        omega (
          arith,
          bit-or i x (shr x s),
          bit-lt x i,
          bit-shr s x i,
          f.ones (i + s) reach (omega arith),
        )
  ];
}

IsFilled-mask : {k s x : ℕ} → IsFilled k s x → k < s → x ≡ 2 ^ suc k - 1
IsFilled-mask {k} {s} {x} f h =
    eq_of_bits (suc k) x (2 ^ suc k - 1) f.below (omega (arith, one-le-pow (suc k) 2))
      (λ i l. f.ones i (omega arith) (omega arith) ∙ sym (bit_of_mask (suc k) i l))

-- The six rounds fill every digit below the top digit `k`.
smear-mask : (k x : ℕ) → k < 64 → 2 ^ k ≤ x → x < 2 ^ suc k → smear 7 1 x ≡ 2 ^ suc k - 1
unfolding smear
smear-mask k x h p q = IsFilled-mask (twice (twice (twice top))) h
  where
    twice :
        {s y : ℕ}
        → IsFilled k s y
        → IsFilled k (s * 2 * 2) (bit_or (bit_or y (shr y s)) (shr (bit_or y (shr y s)) (s * 2)))
    twice f = IsFilled-round (IsFilled-round f)

    top : IsFilled k 1 x
    top = record {
      below = q;
      ones = λ i l m. let e : i ≡ k = omega arith in rw e (bit_top k x p q);
    }

-- The least power of two from `x` on.
abbrev pub IsCeiling : ℕ → ℕ → Type 0
IsCeiling x r = (k : ℕ) × (r ≡ 2 ^ k) × (x ≤ r) × (r < 2 * x)

-- The greatest power of two up to `x`.
abbrev pub IsFloor : ℕ → ℕ → Type 0
IsFloor x r = (k : ℕ) × (r ≡ 2 ^ k) × (r ≤ x) × (x < 2 * r)

-- For every positive 64-bit `x`, prev_pow2 returns the greatest power of two that is at most `x`.
pub prev_pow2-IsFloor : (x : ℕ) → 0 < x → x < 2 ^ 64 → IsFloor x (prev_pow2 x)
unfolding prev_pow2
prev_pow2-IsFloor x p q =
    let (k, h, l, u) = top_digit 64 x p q in
    let e : prev_pow2 x ≡ 2 ^ k =
      ground (arith, smear-mask k x h l u, pow-suc 2 k, one-le-pow k 2) in
    (k, e, omega arith, omega (arith, pow-suc 2 k))

-- For every positive `x` up to 2 ^ 63, next_pow2 returns the least power of two that is at least
-- `x`.
pub next_pow2-IsCeiling : (x : ℕ) → 0 < x → x ≤ 2 ^ 63 → IsCeiling x (next_pow2 x)
unfolding next_pow2
next_pow2-IsCeiling zero p q = absurd (omega arith)
next_pow2-IsCeiling (suc zero) p q = (0, refl, omega arith, omega arith)
next_pow2-IsCeiling (suc (suc y)) p q =
    let (k, h, l, u) = top_digit 63 (suc y) (omega arith) (omega arith) in
    let e : next_pow2 (suc (suc y)) ≡ 2 ^ suc k = ground (
      arith,
      smear-mask k (suc y) (omega arith) l u,
      pow-suc 2 k,
      pow-le-pow_right {n = 2} (omega arith) {i = suc k} {j = 63} (omega arith),
    ) in
    (suc k, e, omega (arith, pow-suc 2 k), omega (arith, pow-suc 2 k))

-- Above 2 ^ 63 the final increment wraps, and next_pow2 returns 0.
next_pow2-wraps : (x : ℕ) → 2 ^ 63 < x → x < 2 ^ 64 → next_pow2 x ≡ 0
unfolding next_pow2
next_pow2-wraps zero p q = absurd (omega arith)
next_pow2-wraps (suc y) p q =
    ground (arith, smear-mask 63 y (omega arith) (omega arith) (omega arith))
