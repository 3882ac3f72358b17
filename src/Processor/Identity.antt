-- ===== src/Processor/Identity.antt =====
-- kernel/arch/x86_64/mp.c: what get_cpuid and get_ncpus read out of the processor's answer.
use silkware.Base.{ℕ, ◌+◌, ◌-◌, ◌*◌, ◌^◌, ◌<◌, ◌≡◌, ltb, if◌then◌else◌, arith}
use silkware.Processor.{Instructions, cpuid, shr_int, get_cpuid, get_ncpus}

-- Let register ebx of cpuid's answer hold the number of the controller in its upper 8 digits and the
-- count of processors in the 8 below. For a number below 128, get_cpuid returns it, and get_ncpus
-- returns 256 times it plus the count: the count alone only on the controller with number 0. From
-- 128 on both results are negative: as words of 32 digits, 256 and 65536 below 2 ^ 32 plus these.
pub get_cpuid-get_ncpus {ℓ} :
    {S : Type ℓ} (cpu : Instructions S) (s : S) (id count rest : ℕ)
    → id < 256
    → count < 256
    → rest < 2 ^ 16
    → (cpu.identify 1 s).0.ebx ≡ id * 2 ^ 24 + count * 2 ^ 16 + rest
    → ((get_cpuid cpu s).0 ≡ (if ltb id 128 then id else id + 2 ^ 32 - 256))
      × ((get_ncpus cpu s).0
          ≡ (if ltb id 128 then id * 256 + count else id * 256 + count + 2 ^ 32 - 2 ^ 16))
unfolding get_cpuid get_ncpus cpuid shr_int
get_cpuid-get_ncpus cpu s id count rest a b c e = rw e (ground arith, ground arith)
