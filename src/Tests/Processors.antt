-- ===== src/Tests/Processors.antt =====
-- The processor's registers at concrete values.
use silkware.Base.{ℕ, ◌≡◌, refl, none, ◌==◌, if◌then◌else◌, arith}
use silkware.Processor.{Instructions, cpuid, shr_int, get_cpuid}
use silkware.Processor.Registers.{IsStoring}
use silkware.Process.{no_proc}
use silkware.Startup.{Cpus, init_cpu_early, init_cpu_local}
use silkware.Startup.Own.{IsOwn, init_cpu_early-IsOwn}
use silkware.Tests.Mappings.{layout, mapped}

abbrev Registers : Type 0
Registers = ℕ → ℕ × ℕ

-- Controller 3 of 8.
abbrev cpu : Instructions Registers
cpu = record {
  identify = λ code s. (record { eax = 0; ebx = 0x03080800; ecx = 0; edx = 0 }, s);
  get = λ msr s. (s msr, s);
  put = λ msr low high s m. if m == msr then (low, high) else s m;
}

cpu-IsStoring : IsStoring cpu (λ s. s)
cpu-IsStoring = record {
  written = λ msr low high s. ground arith;
  kept = λ msr low high other s ne. ground arith;
  read = λ msr s. refl;
}

abbrev cleared : Registers
cleared m = (0, 0)

-- cpu_ptrs at 0x30000 and cpu_data at 0x40000.
abbrev cpus : Cpus
cpus = record {
  words = λ a. 0;
  data_of = λ i. record { id = 0; proc_current = no_proc };
  ptrs_at = 0x30000;
  data_at = 0x40000;
  kspace_map = none;
  kernel = mapped;
}

number : (s : Registers) → (get_cpuid cpu s).0 ≡ 3
unfolding get_cpuid cpuid shr_int
number s = refl

quiet : (s : Registers) (msr : ℕ) → (get_cpuid cpu s).1 msr ≡ s msr
unfolding get_cpuid cpuid shr_int
quiet s msr = refl

init_cpu_early-IsOwn_example :
    IsOwn cpu layout cpus 3 (init_cpu_early cpu 2 layout (λ p. p) cpus cleared) (init_cpu_local cpu)
init_cpu_early-IsOwn_example =
    init_cpu_early-IsOwn cpu (λ s. s) cpu-IsStoring 2 3 layout (λ p. p) cpus cleared number quiet
      (omega arith) (omega arith)
