-- ===== src/Startup/Others.antt =====
-- kernel/arch/x86_64/mp.c: mp_init, by which the first CPU starts the others.
use silkware.Base.{ℕ, zero, suc, ◌+◌, ◌*◌, Bool, not, ◌==◌, u64}
use silkware.Base.Exec.{Exec, done, ◌>>=◌, ◌>>◌, assert_eq}
use silkware.Base.Spin.{spin}
use silkware.Acpi.{Mapper}
use silkware.Sched.{assign}
use silkware.Screen.{h2phys}

-- What the boot loader says of the CPUs: their number, and the addresses of its answer, of its list
-- and of the entries of the list.
pub record Smp : Type 0 where
  pub cpu_count : ℕ
  pub response : ℕ
  pub cpus : ℕ
  pub info : ℕ → ℕ

module _ {ℓ} {S : Type ℓ} (io : Mapper S) (ready : S → ℕ × S) (high_addr : ℕ) where
  -- The loop from CPU `i`, with `left` CPUs to go, whose mappings leave out PAGE_NX: `goto_address` of
  -- each entry, where `entry` is `_mp_start`. A `struct limine_smp_info` has 32 bytes.
  unfoldable pub start_loop : ℕ → ℕ → Smp → ℕ → (ℕ → ℕ) → S → Exec ((ℕ → ℕ) × S)
  unfolding h2phys
  start_loop zero i smp entry goto s = done (goto, s)
  start_loop (suc left) i smp entry goto s =
      io.map_anon (h2phys high_addr (smp.info i)) 32 s >>= λ (t : ℕ × S).
      start_loop left (i + 1) smp entry (assign goto i entry) t.1

  -- `cpus_ready != ncpus`, where `ready` reads `cpus_ready`.
  unfoldable pub not_ready : ℕ → S → Exec (Bool × S)
  not_ready ncpus s = let r = ready s in done (not (r.0 == ncpus), r.1)

  -- The answer has 32 bytes.
  unfoldable pub mp_init : ℕ → ℕ → Smp → ℕ → (ℕ → ℕ) → S → Exec ((ℕ → ℕ) × S)
  unfolding start_loop not_ready h2phys
  mp_init fuel ncpus smp entry goto s =
      io.map_anon (h2phys high_addr smp.response) 32 s >>= λ (t : ℕ × S).
      assert_eq smp.cpu_count ncpus
      >> io.map_anon (h2phys high_addr smp.cpus) (u64 (ncpus * 8)) t.1
      >>= λ (u : ℕ × S). start_loop ncpus 0 smp entry goto u.1 >>= λ (w : (ℕ → ℕ) × S).
          spin (not_ready ncpus) fuel w.1 >>= λ (after : S). done (w.0, after)
