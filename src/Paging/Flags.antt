-- ===== src/Paging/Flags.antt =====
-- The flags that `premap_pages` and `map_pages` put into an entry.
use silkware.Base.{ℕ, ◌^◌, ◌<◌, Bool, arith, bit_and, bit_or, ◌==◌, if◌then◌else◌, u32}
use silkware.Paging.{flag, x86_flags}

or_flags : Bool → Bool → Bool → Bool → Bool → ℕ
or_flags p u w n c = u32 (
    bit_or
      (bit_or (bit_or (bit_or (if p then 0 else 1) (if u then 0 else 4)) (if w then 0 else 2))
        (if n then 0 else 2 ^ 63))
      (if c then 0 else 16))

or_flags-lt : (p u w n c : Bool) → or_flags p u w n c < 2 ^ 12
unfolding or_flags
or_flags-lt p u w n c = ground arith

-- For every choice of flags the value that is put into an entry is below 2 ^ 12: the flag PAGE_NX,
-- which asks for digit 63, never reaches an entry.
pub x86_flags-lt : (flags : ℕ) → x86_flags flags < 2 ^ 12
unfolding x86_flags flag or_flags
x86_flags-lt flags =
    or_flags-lt (bit_and flags 1 == 0) (bit_and flags 4 == 0) (bit_and flags 2 == 0)
      (bit_and flags 8 == 0) (bit_and flags 16 == 0)
