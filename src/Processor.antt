-- ===== src/Processor.antt =====
-- kernel/arch/x86_64/x86.c, mp.c and syscall.c: the processor's identification and its model-specific
-- registers, behind the instructions that read and write them.
pub mod Registers
pub mod Identity
use silkware.Base.{
  ℕ, ◌+◌, ◌-◌, ◌*◌, ◌/◌, ◌^◌, Bool, not, ltb, ◌==◌, if◌then◌else◌, bit_and, bit_or, u32, u64, shr,
  shl,
}
use silkware.Base.Exec.{Exec, done, ◌>>=◌, ◌>>◌, assert}

-- The four registers that `cpuid` fills, as words of 32 digits.
pub record Answer : Type 0 where
  pub eax : ℕ
  pub ebx : ℕ
  pub ecx : ℕ
  pub edx : ℕ

-- The instructions on a processor in state `s`; a register is read and written as its low and its
-- high word.
pub record Instructions {ℓ} (S : Type ℓ) : Type ℓ where
  pub identify : ℕ → S → Answer × S
  pub get : ℕ → S → (ℕ × ℕ) × S
  pub put : ℕ → ℕ → ℕ → S → S

-- `x >> k` for an `int`, as a word of 32 digits: the sign comes in from above.
unfoldable pub shr_int : ℕ → ℕ → ℕ
shr_int x k = if ltb x (2 ^ 31) then x / 2 ^ k else x / 2 ^ k + (2 ^ 32 - 2 ^ (32 - k))

module _ {ℓ} {S : Type ℓ} (cpu : Instructions S) where
  unfoldable pub cpuid : ℕ → S → Answer × S
  cpuid code s = cpu.identify code s

  unfoldable pub rdmsr : ℕ → S → ℕ × S
  rdmsr msr s = let r = cpu.get (u32 msr) s in (bit_or (shl (u32 r.0.1) 32) (u32 r.0.0), r.1)

  unfoldable pub wrmsr : ℕ → ℕ → S → S
  wrmsr msr x s = cpu.put (u32 msr) (u32 (bit_and x 0xffffffff)) (u32 (shr x 32)) s

  unfoldable pub get_cpuid : S → ℕ × S
  unfolding cpuid shr_int
  get_cpuid s = let r = cpuid 1 s in (shr_int r.0.ebx 24, r.1)

  unfoldable pub get_ncpus : S → ℕ × S
  unfolding cpuid shr_int
  get_ncpus s = let r = cpuid 1 s in (shr_int r.0.ebx 16, r.1)

  -- `flags` are those that a system call clears.
  unfoldable pub init_syscalls : ℕ → S → Exec S
  unfolding rdmsr wrmsr
  init_syscalls syscall_entry s =
      let kern_cs : ℕ = 8 in
      let user_ss : ℕ = bit_or (shl 3 3) 3 in
      let efer = rdmsr 0xc0000080 s in
      let s1 = wrmsr 0xc0000080 (bit_or efer.0 1) efer.1 in
      let again = rdmsr 0xc0000080 s1 in
      let flags : ℕ =
        bit_or (bit_or (bit_or (bit_or (bit_or (2 ^ 0) (2 ^ 8)) (2 ^ 9)) (2 ^ 10)) (2 ^ 14))
          (2 ^ 18) in
      assert (not (bit_and again.0 1 == 0))
      >> done (
          wrmsr 0xc0000082 syscall_entry (
            wrmsr 0xc0000081 (bit_or (u64 (shl (user_ss - 8) 48)) (shl kern_cs 32))
              (wrmsr 0xc0000084 flags again.1)))
