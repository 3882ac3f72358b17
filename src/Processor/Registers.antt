-- ===== src/Processor/Registers.antt =====
-- kernel/arch/x86_64/x86.c and syscall.c: what the model-specific registers hold.
use silkware.Base.{ℕ, ◌+◌, ◌-◌, ◌*◌, ◌^◌, ◌<◌, ◌≡◌, ◌≢◌, sym, ap, ◌∙◌, bit_and, u32, shr, arith}
use silkware.Bits.Shifts.{bit_or_fields, bit_and_mask}
use silkware.Processor.{Instructions, rdmsr, wrmsr}

-- A processor that keeps what is written to the registers in `holds`.
pub record IsStoring {ℓ} {S : Type ℓ} (cpu : Instructions S) (holds : S → ℕ → ℕ × ℕ) : Type ℓ where
  pub written : (msr low high : ℕ) (s : S) → holds (cpu.put msr low high s) msr ≡ (low, high)
  pub kept :
      (msr low high msr' : ℕ) (s : S)
      → msr' ≢ msr
      → holds (cpu.put msr low high s) msr' ≡ holds s msr'
  pub read : (msr : ℕ) (s : S) → (cpu.get msr s).0 ≡ holds s msr

module _ {ℓ} {S : Type ℓ} (cpu : Instructions S) (holds : S → ℕ → ℕ × ℕ)
    (is : IsStoring cpu holds) where
  -- What rdmsr makes of the two words.
  abbrev pub joined : ℕ × ℕ → ℕ
  joined r = u32 r.1 * 2 ^ 32 + u32 r.0

  pub rdmsr-holds : (msr : ℕ) (s : S) → msr < 2 ^ 32 → (rdmsr cpu msr s).0 ≡ joined (holds s msr)
  unfolding rdmsr
  rdmsr-holds msr s h =
      let same : u32 msr ≡ msr = omega arith in
      rw (same, is.read msr s)
        (bit_or_fields 32 (u32 (holds s msr).1) (u32 (holds s msr).0) (omega arith))

  stored :
      (msr x : ℕ) (s : S)
      → msr < 2 ^ 32
      → holds (wrmsr cpu msr x s) msr ≡ (u32 (bit_and x (2 ^ 32 - 1)), u32 (shr x 32))
  unfolding wrmsr
  stored msr x s h =
      let same : u32 msr ≡ msr = omega arith in rw (wrmsr, same) (is.written msr _ _ s)

  kept_other :
      (msr other x : ℕ) (s : S)
      → msr < 2 ^ 32
      → other ≢ msr
      → holds (wrmsr cpu msr x s) other ≡ holds s other
  unfolding wrmsr
  kept_other msr other x s h ne =
      let same : u32 msr ≡ msr = omega arith in rw (wrmsr, same) (is.kept msr _ _ other s ne)

  -- On a processor that keeps what is written to its registers, rdmsr gives back a value of 64 digits
  -- that wrmsr has written to the register, and for every other register what it gave before.
  pub rdmsr-wrmsr :
      (msr other x : ℕ) (s : S)
      → msr < 2 ^ 32
      → other < 2 ^ 32
      → other ≢ msr
      → x < 2 ^ 64
      → ((rdmsr cpu msr (wrmsr cpu msr x s)).0 ≡ x)
        × ((rdmsr cpu other (wrmsr cpu msr x s)).0 ≡ (rdmsr cpu other s).0)
  rdmsr-wrmsr msr other x s h h' ne l =
      let own = rdmsr-holds msr (wrmsr cpu msr x s) h in
      let away = rdmsr-holds other (wrmsr cpu msr x s) h' in
      let before = rdmsr-holds other s h' in
      (
        own ∙ ap joined (stored msr x s h) ∙ omega (arith, bit_and_mask 32 x),
        away ∙ ap joined (kept_other msr other x s h ne) ∙ sym before,
      )
