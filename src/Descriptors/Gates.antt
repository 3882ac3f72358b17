-- ===== src/Descriptors/Gates.antt =====
-- kernel/arch/x86_64/idt.c: what `idt_init` leaves for the processor.
use silkware.Base.{
  ℕ, zero, suc, ◌+◌, ◌*◌, ◌^◌, ◌<◌, ◌≤◌, ◌≡◌, refl, sym, ◌∙◌, arith, ◌==◌, ==_refl, true, false,
  Bool-cases, inl, inr, ◌⊎◌, ◌-◌, bit_and, shr,
}
use silkware.Descriptors.{IdtEntry, Interrupts, idt_set, set_isrs, idt_load, idt_init}
use silkware.Descriptors.Addresses.{isr_address, isr_address-idt_set}

-- A present 64-bit interrupt gate to a handler in the kernel's code segment, on the stack `ist1`,
-- that the levels 0 to `level` may call.
pub record IsGate (e : IdtEntry) (isr level : ℕ) : Type 0 where
  pub address : isr_address e ≡ isr
  pub segment : e.kernel_cs ≡ 8
  pub stack : e.ist ≡ 1
  pub kind : bit_and e.flags 0x1f ≡ 0xe
  pub level_of : bit_and (shr e.flags 5) 3 ≡ level
  pub is_present : shr e.flags 7 ≡ 1

idt_set-at :
    (idt : ℕ → IdtEntry) (i isr : ℕ) → isr < 2 ^ 64 → IsGate (idt_set idt i isr 0xee i) isr 3
unfolding idt_set
idt_set-at idt i isr small = record {
  address = isr_address-idt_set idt i isr 0xee small;
  segment = rw (==_refl i) refl;
  stack = rw (==_refl i) refl;
  kind = rw (==_refl i) refl;
  level_of = rw (==_refl i) refl;
  is_present = rw (==_refl i) refl;
}

idt_set-other :
    (idt : ℕ → IdtEntry) (i isr flags j : ℕ) → (j == i) ≡ false → idt_set idt i isr flags j ≡ idt j
unfolding idt_set
idt_set-other idt i isr flags j other = rw other refl

set_isrs-past :
    (left x j : ℕ) (isr : ℕ → ℕ) (idt : ℕ → IdtEntry)
    → (j < x) ⊎ (x + left ≤ j)
    → set_isrs left isr x idt j ≡ idt j
unfolding set_isrs
set_isrs-past zero x j isr idt out = refl
set_isrs-past (suc left) x j isr idt (inl low) =
    set_isrs-past left (x + 1) j isr _ (inl (omega arith))
    ∙ idt_set-other idt x (isr x) 0xee j (ground arith)
set_isrs-past (suc left) x j isr idt (inr high) =
    set_isrs-past left (x + 1) j isr _ (inr (omega arith))
    ∙ idt_set-other idt x (isr x) 0xee j (ground arith)

set_isrs-IsGate :
    (left x j : ℕ) (isr : ℕ → ℕ) (idt : ℕ → IdtEntry)
    → x ≤ j
    → j < x + left
    → isr j < 2 ^ 64
    → IsGate (set_isrs left isr x idt j) (isr j) 3
unfolding set_isrs
set_isrs-IsGate zero x j isr idt low high small = absurd (omega arith)
set_isrs-IsGate (suc left) x j isr idt low high small = elim (Bool-cases (j == x)) [
  | inl same ↦
      let at : j ≡ x = ground arith in
      let e = set_isrs-past left (x + 1) x isr (idt_set idt x (isr x) 0xee) (inl (omega arith)) in
      rw (at, e) (idt_set-at idt x (isr x) (rw (sym at) small))
  | inr other ↦ set_isrs-IsGate left (x + 1) j isr _ (ground arith) (omega arith) small
]

-- The interrupts once `idt_init` ran.
pub record IsHandled (isr : ℕ → ℕ) (before after : Interrupts) : Type 0 where
  pub gates : (v : ℕ) → v < 256 → IsGate (after.idt v) (isr v) 3
  pub outside : (v : ℕ) → 256 ≤ v → after.idt v ≡ before.idt v
  pub table : after.loaded ≡ (16 * 256 - 1, before.idt_at)
  pub on : after.enabled ≡ true

-- After idt_init with 64-bit handlers, each of the 256 vectors has a present interrupt gate from
-- which the processor puts together the address of the vector's own handler, in the kernel's code
-- segment and on its stack `ist1`; programs at level 3 may call every one of them. The processor has
-- the address of the table and its limit of 4095, and interrupts are on. No other entry changes.
pub idt_init-IsHandled :
    (isr : ℕ → ℕ) (s : Interrupts)
    → ((v : ℕ) → v < 256 → isr v < 2 ^ 64)
    → IsHandled isr s (idt_init isr s)
unfolding idt_init idt_load
idt_init-IsHandled isr s small = record {
  gates = λ v h. set_isrs-IsGate 256 0 v isr s.idt (omega arith) (omega arith) (small v h);
  outside = λ v h. set_isrs-past 256 0 v isr s.idt (inr (omega arith));
  table = refl;
  on = refl;
}
