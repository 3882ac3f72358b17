-- ===== src/Apic/Duration.antt =====
-- kernel/arch/x86_64/apic.c and sched.c: the time that a process runs for.
use silkware.Base.{ℕ, ◌+◌, ◌*◌, ◌^◌, ◌<◌, ◌≤◌, ◌≡◌, ap, arith, u32, u64}
use native.Mathlib.Nat.{mul-le-mul_left}
use silkware.Ports.{Bus}
use silkware.Apic.{
  Lapic, ticks_value, sweep_us, lapic_write, apic_set_duration, sched_update_duration,
}

-- Within 32 digits the count is rounded down, but is never 0.
ticks_value_bounds :
    (ticks us : ℕ)
    → ticks * us < 2 ^ 32
    → (1 ≤ ticks_value ticks us)
      × (ticks_value ticks us * 1000 ≤ ticks * us + 1000)
      × (ticks * us ≤ ticks_value ticks us * 1000 + 1000)
      × (ticks_value ticks us < 2 ^ 32)
unfolding ticks_value
ticks_value_bounds ticks us h = ground arith

sweep_us_bounds :
    (n : ℕ) → 0 < n → n ≤ 10000 → (n * sweep_us n ≤ 10000) × (10000 ≤ n * sweep_us n + n)
unfolding sweep_us
sweep_us_bounds n pos h = (ground arith, ground arith)

-- From the two bounds on the factors, that on the whole sweep.
sweep_total :
    (n ticks us value : ℕ)
    → value * 1000 ≤ ticks * us + 1000
    → n * us ≤ 10000
    → n * (value * 1000) ≤ ticks * 10000 + n * 1000
sweep_total n ticks us value h sweep =
    let each : n * (value * 1000) ≤ n * (ticks * us + 1000) = mul-le-mul_left n h in
    let all : ticks * (n * us) ≤ ticks * 10000 = mul-le-mul_left ticks sweep in grind arith

sweep_least :
    (n ticks us value : ℕ)
    → ticks * us ≤ value * 1000 + 1000
    → 10000 ≤ n * us + n
    → ticks * 10000 ≤ n * (value * 1000) + n * 1000 + n * ticks
sweep_least n ticks us value h sweep =
    let each : n * (ticks * us) ≤ n * (value * 1000 + 1000) = mul-le-mul_left n h in
    let all : ticks * 10000 ≤ ticks * (n * us + n) = mul-le-mul_left ticks sweep in grind arith

-- What programs the timer for `n` processes that share 10 milliseconds of `ticks` ticks each: the
-- writes to the registers 0x320, 0x3e0 and 0x380, and bounds on the count in the last of them.
pub record IsShared {ℓ} {S : Type ℓ} (io : Bus S) (base ticks n : ℕ) (s r : S) : Type ℓ where
  pub count : ℕ
  pub writes : r ≡ (
      io.output 4
        (u64 (base + 0x380))
        count
        (io.output 4 (u64 (base + 0x3e0)) 3 (io.output 4 (u64 (base + 0x320)) 0x20020 s)))
  pub some_time : 1 ≤ count
  pub at_most : n * (count * 1000) ≤ ticks * 10000 + n * 1000
  pub at_least : ticks * 10000 ≤ n * (count * 1000) + n * 1000 + n * ticks

-- For 1 to 10000 processes on a CPU and a timer of so few ticks in a millisecond that 10000 times
-- them fits 32 digits, sched_update_duration programs the timer as periodic on interrupt 32, with the
-- divider 16 and a count of at least 1. The n processes together get at most the ticks of 10
-- milliseconds plus one for each process, and at least those ticks less, for each process, one tick
-- and the ticks of a microsecond.
pub sched_update_duration-IsShared {ℓ} :
    {S : Type ℓ} (io : Bus S) (a : Lapic) (n : ℕ) (s : S)
    → 0 < n
    → n ≤ 10000
    → a.ticks * 10000 < 2 ^ 32
    → IsShared io a.lapic_base a.ticks n s (sched_update_duration io a n s)
unfolding sched_update_duration apic_set_duration lapic_write
sched_update_duration-IsShared io a n s pos small fits =
    let sweep = sweep_us_bounds n pos small in
    let one : sweep_us n ≤ 10000 = grind arith in
    let product : a.ticks * sweep_us n ≤ a.ticks * 10000 = mul-le-mul_left a.ticks one in
    let bounds = ticks_value_bounds a.ticks (sweep_us n) (omega arith) in
    let kept : u32 (ticks_value a.ticks (sweep_us n)) ≡ ticks_value a.ticks (sweep_us n) =
      omega (arith, bounds.3) in
    record {
      count = ticks_value a.ticks (sweep_us n);
      writes =
          ap
            (λ (v : ℕ). io.output 4 (u64 (a.lapic_base + 0x380)) v (
              io.output 4 (u64 (a.lapic_base + 0x3e0)) 3
                (io.output 4 (u64 (a.lapic_base + 0x320)) 0x20020 s)))
            kept;
      some_time = bounds.0;
      at_most = sweep_total n a.ticks (sweep_us n) _ bounds.1 sweep.0;
      at_least = sweep_least n a.ticks (sweep_us n) _ bounds.2 sweep.1;
    }
