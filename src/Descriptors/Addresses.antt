-- ===== src/Descriptors/Addresses.antt =====
-- The parts of an address in a descriptor give the address.
use silkware.Base.{ℕ, ◌+◌, ◌*◌, ◌/◌, ◌^◌, ◌<◌, ◌≡◌, arith, ==_refl}
use silkware.Bits.Shifts.{bit_and_mask}
use silkware.Descriptors.{TssDesc, tss_desc, IdtEntry, idt_set}

-- The address that the processor puts together from a descriptor of a task state.
abbrev pub tss_base : TssDesc → ℕ
tss_base d = d.base_low + d.base_middle * 2 ^ 16 + d.base_high * 2 ^ 24 + d.base_upper * 2 ^ 32

-- The address that the processor puts together from an entry of the interrupt table.
abbrev pub isr_address : IdtEntry → ℕ
isr_address e = e.isr_low + e.isr_mid * 2 ^ 16 + e.isr_high * 2 ^ 32

-- The descriptor that make_gdt writes for a 64-bit base gives the processor that base.
pub tss_base-tss_desc : (base : ℕ) → base < 2 ^ 64 → tss_base (tss_desc base) ≡ base
unfolding tss_desc
tss_base-tss_desc base small =
    omega
      (arith, bit_and_mask 16 base, bit_and_mask 8 (base / 2 ^ 16), bit_and_mask 8 (base / 2 ^ 24))

-- The entry that idt_set writes for a 64-bit handler gives the processor its address.
pub isr_address-idt_set :
    (idt : ℕ → IdtEntry) (i isr flags : ℕ)
    → isr < 2 ^ 64
    → isr_address (idt_set idt i isr flags i) ≡ isr
unfolding idt_set
isr_address-idt_set idt i isr flags small =
    rw (==_refl i) (omega (arith, bit_and_mask 16 isr, bit_and_mask 16 (isr / 2 ^ 16)))
