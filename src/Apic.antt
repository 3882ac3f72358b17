-- ===== src/Apic.antt =====
-- kernel/arch/x86_64/apic.c: the local interrupt controller and its timer, with
-- kernel/arch/x86_64/sched.c. The registers are read and written through a `Bus` at their addresses;
-- the messages are left out.
pub mod Duration
pub mod Records
use silkware.Base.{
  ℕ, zero, suc, ◌+◌, ◌-◌, ◌*◌, ◌/◌, Bool, ◌||◌, not, ltb, ◌==◌, if◌then◌else◌, Option, none, some,
  bit_and, bit_or, u16, u32, u64, ◌^◌, page_size,
}
use silkware.Base.Exec.{Exec, done, panicked, out_of_fuel, ◌>>=◌, ◌>>◌, assert}
use silkware.Ports.{Bus}
use silkware.Hpet.{Hpet, timer_sleep_ms}
use silkware.Mem.{Memory}
use silkware.Map.{sign_extend}

-- `lapic_base` and `ticks`
pub record Lapic : Type 0 where
  pub lapic_base : ℕ
  pub ticks : ℕ

-- The numbers of the registers that are used.
abbrev pub reg_eoi : ℕ
reg_eoi = 0xb0

abbrev pub reg_spurious : ℕ
reg_spurious = 0xf0

abbrev pub reg_lvt_tmr : ℕ
reg_lvt_tmr = 0x320

abbrev pub reg_tmr_initial : ℕ
reg_tmr_initial = 0x380

abbrev pub reg_tmr_cur : ℕ
reg_tmr_cur = 0x390

abbrev pub reg_tmr_div : ℕ
reg_tmr_div = 0x3e0

-- The count that `apic_set_duration` programs for `us` microseconds.
unfoldable pub ticks_value : ℕ → ℕ → ℕ
ticks_value ticks us = let t = u32 (ticks * us) / 1000 in if t == 0 then 1 else t

-- The duration that `sched_update_duration` chooses when its CPU has `n` processes.
unfoldable pub sweep_us : ℕ → ℕ
sweep_us n = let us = 10000 / (if n == 0 then 1 else n) in if us == 0 then 1 else us

module _ {ℓ} {S : Type ℓ} (io : Bus S) where
  unfoldable pub lapic_read : Lapic → ℕ → S → ℕ × S
  lapic_read a reg s = let r = io.input 4 (u64 (a.lapic_base + reg)) s in (u32 r.0, r.1)

  unfoldable pub lapic_write : Lapic → ℕ → ℕ → S → S
  lapic_write a reg value s = io.output 4 (u64 (a.lapic_base + reg)) (u32 value) s

  unfoldable pub lapic_eoi : Lapic → S → S
  unfolding lapic_write
  lapic_eoi a s = lapic_write a reg_eoi 0 s

  -- The interrupt is 32, periodic; the divider is 3, for 16.
  unfoldable pub apic_set_duration : Lapic → ℕ → S → S
  unfolding ticks_value lapic_write
  apic_set_duration a us s =
      let s1 = lapic_write a reg_lvt_tmr (bit_or 32 0x20000) s in
      let s2 = lapic_write a reg_tmr_div 3 s1 in
      lapic_write a reg_tmr_initial (ticks_value a.ticks us) s2

  unfoldable pub sched_update_duration : Lapic → ℕ → S → S
  unfolding sweep_us apic_set_duration
  sched_update_duration a n s = apic_set_duration a (sweep_us n) s

  unfoldable pub apic_start : ℕ → Hpet → Lapic → S → Exec (Lapic × S)
  unfolding lapic_read lapic_write timer_sleep_ms apic_set_duration
  apic_start fuel t a s =
      let r = lapic_read a reg_spurious s in
      let s1 = lapic_write a reg_spurious (bit_or (bit_or r.0 0xff) 0x100) r.1 in
      let s2 = lapic_write a reg_tmr_div 3 s1 in
      let s3 = lapic_write a reg_tmr_initial 0xffffffff s2 in
      timer_sleep_ms io fuel t 10 s3 >>= λ (s4 : S).
      let c = lapic_read a reg_tmr_cur (lapic_write a reg_lvt_tmr 0x10000 s4) in
      let ticks = (0xffffffff - c.0) / 10 in
      let a' : Lapic = record a { ticks = if ticks == 0 then 1 else ticks } in
      done (a', apic_set_duration a' 10000 c.1)

-- `struct madt`, at its address, with the address of its member `data`.
pub record Madt : Type 0 where
  pub address : ℕ
  pub length : ℕ
  pub lapic_addr : ℕ
  pub records : ℕ

-- Eight bytes, the lowest first.
unfoldable pub load64 : Memory → ℕ → ℕ
load64 m p =
    m p
    + 2 ^ 8
      * (m (p + 1)
          + 2 ^ 8
            * (m (p + 2)
                + 2 ^ 8
                  * (m (p + 3)
                      + 2 ^ 8
                        * (m (p + 4)
                            + 2 ^ 8 * (m (p + 5) + 2 ^ 8 * (m (p + 6) + 2 ^ 8 * m (p + 7)))))))

-- The `switch` on one record at `p`: the new `numcores` and `lapic_base`. The record's data starts
-- behind its type and its length.
unfoldable pub count_record : Memory → ℕ → ℕ × ℕ → ℕ × ℕ
unfolding load64
count_record m p acc =
    let flags = m (p + 2 + 2) in
    if m p == 0
    then (
      (if not (bit_and flags 1 == 0) || not (bit_and flags 2 == 0) then u16 (acc.0 + 1) else acc.0),
      acc.1,
    )
    else if m p == 5
    then (acc.0, load64 m (p + 2))
    else acc

-- The loop of `apic_init` up to `limit`; the length of a record is an `int8_t`.
unfoldable pub walk_records : ℕ → Memory → ℕ → ℕ → ℕ × ℕ → Exec (ℕ × ℕ)
unfolding count_record sign_extend
walk_records zero m limit p acc = out_of_fuel
walk_records (suc fuel) m limit p acc =
    let rest =
      walk_records fuel m limit (u64 (p + sign_extend (m (p + 1)))) (count_record m p acc) in
    if ltb p limit then rest else done acc

-- `table` is what acpi_find returns, and `map_anon` the function of paging.c with the flags
-- PAGE_PRESENT | PAGE_WRITABLE | PAGE_NOCACHE.
unfoldable pub apic_init {ℓ} :
    {S : Type ℓ}
    → Bus S
    → ℕ
    → Memory
    → Option Madt
    → ℕ
    → (ℕ → ℕ → S → Exec (ℕ × S))
    → Hpet
    → Lapic
    → S
    → Exec (Lapic × S)
unfolding walk_records apic_start
apic_init io fuel m none ncpus map_anon t a s = panicked
apic_init io fuel m (some madt) ncpus map_anon t a s =
    walk_records fuel m (u64 (madt.address + madt.length)) madt.records (0, madt.lapic_addr)
    >>= λ (r : ℕ × ℕ).
        assert (r.0 == ncpus)
        >> (map_anon r.1 page_size s >>= λ (u : ℕ × _).
            apic_start io fuel t (record a { lapic_base = u.0 }) u.1)
