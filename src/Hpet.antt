-- ===== src/Hpet.antt =====
-- kernel/arch/x86_64/hpet.c: the timer that the kernel waits by. Its registers are read and written
-- through a `Bus` at their addresses; the messages are left out.
pub mod Sleep
use silkware.Base.{
  ℕ, ◌+◌, ◌*◌, ◌/◌, ◌==◌, if◌then◌else◌, Bool, true, false, Option, none, some, ltb, u32, u64, shr,
}
use silkware.Base.Exec.{Exec, done, panicked, fault, ◌>>=◌}
use silkware.Base.Spin.{spin}
use silkware.Ports.{Bus}

-- `hpet`, `clk` and `hpet_ready`
pub record Hpet : Type 0 where
  pub hpet : ℕ
  pub clk : ℕ
  pub hpet_ready : Bool

-- The offsets of the members of `struct hpet`.
abbrev pub config : ℕ
config = 0x10

abbrev pub main_ctr : ℕ
main_ctr = 0xf0

module _ {ℓ} {S : Type ℓ} (io : Bus S) where
  -- `tab` is the base that the table found by acpi_find gives, and `mapped` what map_anon returns.
  unfoldable pub hpet_init : Option ℕ → ℕ → Hpet → S → Exec (Hpet × S)
  hpet_init none mapped t s = panicked
  hpet_init (some base) mapped t s =
      let cap = io.input 8 mapped s in
      let s1 = io.output 8 (mapped + config) 0 cap.1 in
      let s2 = io.output 8 (mapped + main_ctr) 0 s1 in
      let s3 = io.output 8 (mapped + config) 1 s2 in
      done (record { hpet = mapped; clk = u32 (shr cap.0 32); hpet_ready = true }, s3)

  unfoldable pub read_hpet : Hpet → S → Exec (ℕ × S)
  read_hpet t s = if t.hpet_ready then done (io.input 8 (t.hpet + main_ctr) s) else panicked

  -- `(cur = read_hpet()) < end`
  unfoldable pub before_end : Hpet → ℕ → S → Exec (Bool × S)
  unfolding read_hpet
  before_end t end s = read_hpet t s >>= λ (r : ℕ × S). done (ltb r.0 end, r.1)

  -- A division by a `clk` of 0 is a fault.
  unfoldable pub timer_sleep_us : ℕ → Hpet → ℕ → S → Exec S
  unfolding read_hpet before_end spin
  timer_sleep_us fuel t us s = read_hpet t s >>= λ (r : ℕ × S).
      if t.clk == 0
      then fault
      else spin (before_end t (u64 (r.0 + u64 (us * 1000000000) / t.clk))) fuel r.1

  unfoldable pub timer_sleep_ms : ℕ → Hpet → ℕ → S → Exec S
  unfolding timer_sleep_us
  timer_sleep_ms fuel t ms s = timer_sleep_us fuel t (u64 (ms * 1000)) s

  unfoldable pub timer_count_ms : Hpet → S → Exec (ℕ × S)
  unfolding read_hpet
  timer_count_ms t s = read_hpet t s >>= λ (r : ℕ × S). done (r.0 / 1000, r.1)
