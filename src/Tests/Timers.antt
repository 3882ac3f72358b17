-- ===== src/Tests/Timers.antt =====
-- The timers, the serial port and the table of interrupt controllers at concrete values.
use silkware.Base.{
  ℕ, zero, suc, ◌+◌, ◌-◌, ◌<◌, ◌≡◌, refl, true, false, some, ◌==◌, if◌then◌else◌, [], ◌∷◌, arith,
  u64,
}
use silkware.Base.Exec.{done}
use silkware.Ports.{Bus, port_inb}
use silkware.Hpet.{Hpet, timer_sleep_us}
use silkware.Hpet.Sleep.{IsRunning, IsSlept, timer_sleep_us-IsSlept}
use silkware.Mem.{Memory}
use silkware.Apic.{Lapic, Madt, sched_update_duration, count_record, apic_start, apic_init}
use silkware.Apic.Duration.{IsShared, sched_update_duration-IsShared}
use silkware.Apic.Records.{apic_init-cores}
use silkware.Serial.{serial_write}
use silkware.Serial.Ready.{is_clear, reads, serial_write-sent}

-- A counter that goes up by one at each read.
abbrev counter : Bus ℕ
counter = record { input = λ width port s. (u64 (s + 1), s + 1); output = λ width port v s. s }

abbrev hpet : Hpet
hpet = record { hpet = 0x1000; clk = 10000000; hpet_ready = true }

counter-IsRunning : IsRunning counter hpet 1 (λ s. s)
counter-IsRunning = record {
  ready = refl;
  ticks = refl;
  shown = λ s. refl;
  bounded = λ s. (omega arith, omega arith);
}

-- One microsecond is 100 ticks of 10 nanoseconds.
timer_sleep_us-IsSlept_example : IsSlept (λ s. s) 1 5 100 (timer_sleep_us counter 101 hpet 1 5)
timer_sleep_us-IsSlept_example =
    timer_sleep_us-IsSlept counter hpet 1 (λ s. s) counter-IsRunning 101 1 5 (omega arith)
      (omega arith) (omega arith)

-- Three processes share 10 milliseconds of a timer with 62500 ticks in one.
sched_update_duration-IsShared_example :
    IsShared counter 0x1000 62500 3 0
      (sched_update_duration counter (record { lapic_base = 0x1000; ticks = 62500 }) 3 0)
sched_update_duration-IsShared_example =
    sched_update_duration-IsShared counter (record { lapic_base = 0x1000; ticks = 62500 }) 3 0
      (omega arith) (omega arith) (omega arith)

-- The number of reads that show the line busy, and the byte that was sent.
abbrev line : Bus (ℕ × ℕ)
line = record {
  input = λ width port s. if s.0 == 0 then (0x20, s) else (0, (s.0 - 1, s.1));
  output = λ width port v s. (s.0, v);
}

line_wait : (i : ℕ) → i < 1 → is_clear line 0x20 (reads line i (1, 0)) ≡ false
unfolding port_inb
line_wait zero h = refl
line_wait (suc i) h = absurd (omega arith)

serial_write-sent_example : serial_write line 2 0x141 (1, 0) ≡ done (0, 0x41)
unfolding port_inb
serial_write-sent_example = serial_write-sent line 1 2 0x141 (1, 0) (omega arith) line_wait refl

-- A controller that is enabled, another address for the controllers, and one that is not enabled.
abbrev bytes : Memory
bytes p =
    if p == 145
    then 8
    else if p == 148
    then 1
    else if p == 152
    then 5
    else if p == 153
    then 12
    else if p == 155
    then 0x20
    else if p == 165
    then 8
    else 0

abbrev table : Madt
table = record { address = 100; length = 72; lapic_addr = 0x1000; records = 144 }

abbrev lapic : Lapic
lapic = record { lapic_base = 0; ticks = 0 }

apic_init-cores_example :
    apic_init counter 4 bytes (some table) 1 (λ b len s. done (b + len, s)) hpet lapic 0
    ≡ apic_start counter 4 hpet (record lapic { lapic_base = 0x3000 }) 0
unfolding count_record
apic_init-cores_example =
    apic_init-cores counter 4 bytes table (144 ∷ 152 ∷ 164 ∷ []) 1 (λ b len s. done (b + len, s))
      hpet lapic 0 (omega arith)
      (
        refl,
        omega arith,
        omega arith,
        (refl, omega arith, omega arith, (refl, omega arith, omega arith, refl)),
      )
