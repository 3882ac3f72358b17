-- ===== src/Kalloc/Align.antt =====
-- The sizes that `kalloc` rounds to.
use native.Mathlib.Nat.{mod-eq_of_lt}
use silkware.Base.{ℕ, ◌+◌, ◌-◌, ◌*◌, ◌/◌, ◌%◌, ◌^◌, ◌<◌, ◌≤◌, ◌≡◌, bit_and, arith, u64}
use silkware.Bits.Shifts.{bit_and_high}
use silkware.Kalloc.{align_up}

-- For a size below 2 ^ 64 - 15, kalloc rounds to the least multiple of 16 that is at least the
-- size.
align_up_bounds :
    (size : ℕ)
    → size < 2 ^ 64 - 15
    → (align_up size % 16 ≡ 0) × (size ≤ align_up size) × (align_up size < size + 16)
unfolding align_up
align_up_bounds size small =
    let whole : u64 (size + 15) ≡ size + 15 = mod-eq_of_lt (omega arith) in
    let e : bit_and (size + 15) ((2 ^ 60 - 1) * 2 ^ 4) ≡ (size + 15) / 2 ^ 4 * 2 ^ 4 =
      bit_and_high 60 4 (size + 15) (omega arith) in
    rw (whole, e) (omega arith, omega arith, omega arith)
