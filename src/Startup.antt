-- ===== src/Startup.antt =====
-- kernel/arch/x86_64/mp.c: what a CPU sets up for itself. `cpu_ptrs` is words of memory at its
-- address; `cpu_data` is an array of 20 bytes for each CPU.
pub mod Own
pub mod Others
use silkware.Base.{
  ℕ, ◌+◌, ◌*◌, ◌==◌, if◌then◌else◌, Option, none, some, ltb, List, [], ◌∷◌, Bool, leb, ◌&&◌, zero,
  suc,
}
use silkware.Base.Exec.{Exec, done, fault, panicked, ◌>>=◌}
use silkware.Map.{Map, map_new}
use silkware.Paging.{Layout, set_word}
use silkware.Paging.Calls.{Kernel, flush_pages}
use silkware.Processor.{Instructions, rdmsr, wrmsr, get_cpuid}
use silkware.Process.{Current, kernel_proc}

-- `struct cpu_data`, less `kstack`, which the C code does not use.
pub record CpuData : Type 0 where
  pub id : ℕ
  pub proc_current : Current

-- `cpu_ptrs` and `cpu_data` with their addresses, and `physmap` of `kspace`, which is none for NULL.
pub record Cpus : Type 0 where
  pub words : ℕ → ℕ
  pub data_of : ℕ → CpuData
  pub ptrs_at : ℕ
  pub data_at : ℕ
  pub kspace_map : Option Map
  pub kernel : Kernel

abbrev pub msr_gs_base : ℕ
msr_gs_base = 0xc0000101

unfoldable pub mp_pages : ℕ → Layout → (ℕ → ℕ) → Kernel → Exec Kernel
unfolding flush_pages
mp_pages fuel l home k = flush_pages fuel l home none k

-- `if (cpu_data[id].proc_current->space->physmap == NULL) ... = map_new(0x10);`
unfoldable pub with_physmap : Option Map → Option Map
unfolding map_new
with_physmap none = some (map_new 0x10)
with_physmap (some m) = some m

module _ {ℓ} {S : Type ℓ} (cpu : Instructions S) where
  -- Both arrays have 128 entries; a number from 128 on is a negative `int`.
  unfoldable pub init_cpu_early : ℕ → Layout → (ℕ → ℕ) → Cpus → S → Exec (Cpus × S)
  unfolding get_cpuid set_word wrmsr mp_pages
  init_cpu_early fuel l home c s =
      let r = get_cpuid cpu s in
      let entry = c.ptrs_at + 8 * r.0 in
      let words = set_word c.words entry (c.data_at + 20 * r.0) in
      if ltb r.0 128
      then (mp_pages fuel l home c.kernel >>= λ (k : Kernel).
          done (record c { words = words; kernel = k }, wrmsr cpu msr_gs_base entry r.1))
      else fault

  unfoldable pub init_cpu_local : Cpus → S → Exec (Cpus × S)
  unfolding get_cpuid with_physmap
  init_cpu_local c s =
      let r = get_cpuid cpu s in
      let own : CpuData = record { id = r.0; proc_current = kernel_proc } in
      if ltb r.0 128
      then done (
        record c {
          data_of = λ i. if i == r.0 then own else c.data_of i;
          kspace_map = with_physmap c.kspace_map;
        },
        r.1,
      )
      else fault

  -- get_cpu_data is one instruction, which loads the word at the address in the register.
  unfoldable pub get_cpu_data : Cpus → S → ℕ × S
  unfolding rdmsr
  get_cpu_data c s = let r = rdmsr cpu msr_gs_base s in (c.words r.0, r.1)
