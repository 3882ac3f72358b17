-- ===== src/Startup/Own.antt =====
-- kernel/arch/x86_64/mp.c: each CPU finds its own data.
use silkware.Base.{
  ℕ, ◌+◌, ◌*◌, ◌^◌, ◌<◌, ◌≡◌, ◌≢◌, refl, sym, ap, ◌∙◌, true, ◌==◌, if◌then◌else◌, ltb, arith,
}
use silkware.Base.Exec.{Exec, done}
use silkware.Paging.{Layout, set_word, vk_to_physk}
use silkware.Paging.Calls.{flush_pages}
use silkware.Processor.{Instructions, wrmsr, get_cpuid}
use silkware.Processor.Registers.{IsStoring, joined, rdmsr-holds, rdmsr-wrmsr}
use silkware.Startup.{
  CpuData, Cpus, msr_gs_base, mp_pages, init_cpu_early, init_cpu_local, get_cpu_data, with_physmap,
}
use silkware.Process.{kernel_proc}

-- The CPU `id` once it ran `init_cpu_early` and `init_cpu_local`.
pub record IsOwn {ℓ} {S : Type ℓ} (cpu : Instructions S) (l : Layout) (c : Cpus) (id : ℕ)
    (early : Exec (Cpus × S)) (local : Cpus → S → Exec (Cpus × S)) : Type ℓ where
  pub placed : Cpus
  pub after : Cpus
  pub between : S
  pub state : S
  pub returns : early ≡ done (placed, between)
  pub then_local : local placed between ≡ done (after, state)
  pub finds : (get_cpu_data cpu after state).0 ≡ c.data_at + 20 * id
  pub number : (after.data_of id).id ≡ id
  pub loaded : after.kernel.cr3 ≡ vk_to_physk l l.kpml4
  pub other_data : (j : ℕ) → j ≢ id → after.data_of j ≡ c.data_of j
  pub other_ptrs : (j : ℕ) → j ≢ id → after.words (c.ptrs_at + 8 * j) ≡ c.words (c.ptrs_at + 8 * j)

-- On a CPU that keeps what is written to its registers, also over a cpuid, which gives it a number below 128, with
-- cpu_ptrs below 2 ^ 64, init_cpu_early and then init_cpu_local end. Then get_cpu_data gives the
-- address of this CPU's entry of cpu_data, which has the number; the kernel's top table is loaded,
-- and the entries of other CPUs in both arrays are as before.
pub init_cpu_early-IsOwn {ℓ} :
    {S : Type ℓ} (cpu : Instructions S) (holds : S → ℕ → ℕ × ℕ)
    → IsStoring cpu holds
    → (fuel id : ℕ) (l : Layout) (home : ℕ → ℕ) (c : Cpus) (s : S)
    → ((t : S) → (get_cpuid cpu t).0 ≡ id)
    → ((t : S) (msr : ℕ) → holds (get_cpuid cpu t).1 msr ≡ holds t msr)
    → id < 128
    → c.ptrs_at + 8 * id < 2 ^ 64
    → IsOwn cpu l c id (init_cpu_early cpu fuel l home c s) (init_cpu_local cpu)
unfolding init_cpu_early init_cpu_local get_cpu_data mp_pages flush_pages set_word
init_cpu_early-IsOwn cpu holds storing fuel id l home c s number quiet low small =
    let entry = c.ptrs_at + 8 * id in
    let in_array : ltb id 128 ≡ true = ground arith in
    let between = wrmsr cpu msr_gs_base entry (get_cpuid cpu s).1 in
    let after_local = (get_cpuid cpu between).1 in
    let read =
      rdmsr-holds cpu holds storing msr_gs_base after_local (omega arith)
      ∙ ap (joined cpu holds storing) (quiet between msr_gs_base)
      ∙ sym (rdmsr-holds cpu holds storing msr_gs_base between (omega arith))
      ∙ (rdmsr-wrmsr cpu holds storing msr_gs_base 0 entry (get_cpuid cpu s).1 (omega arith)
          (omega arith) (omega arith) small).0 in
    let placed : Cpus = record c {
      words = set_word c.words entry (c.data_at + 20 * id);
      kernel = record c.kernel { cr3 = vk_to_physk l l.kpml4 };
    } in
    let own : CpuData = record { id = id; proc_current = kernel_proc } in
    record {
      placed = placed;
      after = record placed {
        data_of = λ i. if i == id then own else c.data_of i;
        kspace_map = with_physmap c.kspace_map;
      };
      between = between;
      state = (get_cpuid cpu between).1;
      returns = rw (number s, in_array) refl;
      then_local = rw (number between, in_array) refl;
      finds = rw read (ground arith);
      number = ground arith;
      loaded = refl;
      other_data = λ j ne. ground arith;
      other_ptrs = λ j ne. ground arith;
    }
