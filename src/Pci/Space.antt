-- ===== src/Pci/Space.antt =====
-- kernel/acpi/pci.c: what pci_read gives after pci_write.
use mathlib.Core.Path.{subst}
use silkware.Base.{
  ◌%◌, ◌==◌, if◌then◌else◌, ℕ, zero, suc, ◌+◌, ◌*◌, ◌/◌, ◌^◌, ◌<◌, ◌≤◌, ◌≡◌, sym, ap, ◌∙◌, ◌⊎◌, inl,
  inr, arith, bit_and, u8, u16, u32,
}
use silkware.Bits.Shifts.{bit_and_mask, bit_and_middle}
use silkware.Ports.{Bus, port_inb, port_outb, port_inw, port_outw, port_ind, port_outd}
use silkware.Pci.Fields.{fields, pciaddr-fields}
use silkware.Pci.{read_data, pci_read, write_data, pci_write}

-- The number with `k` given bytes, the lowest first.
abbrev pub of_bytes : ℕ → (ℕ → ℕ) → ℕ
of_bytes zero f = 0
of_bytes (suc k) f = f 0 + 2 ^ 8 * of_bytes k (λ j. f (suc j))

-- A bus with configuration mechanism 1 of the PCI specification: port 0xCF8 holds an address and,
-- when its enable bit is set, `k` bytes at port 0xCFC + i are the bytes of the register from that
-- address plus i on. `plain` says which bytes hold what is written; others may be fixed.
pub record IsConfigSpace {ℓ} {S : Type ℓ} (io : Bus S) (latched : S → ℕ) (config : S → ℕ → ℕ)
    (plain : ℕ → Type 0) : Type ℓ where
  pub latch : (a : ℕ) (s : S) → 2 ^ 31 ≤ a → a < 2 ^ 32 → latched (io.output 4 0xcf8 a s) ≡ a
  pub untouched : (a b : ℕ) (s : S) → config (io.output 4 0xcf8 a s) b ≡ config s b
  pub written :
      (k i v j : ℕ) (s : S)
      → 2 ^ 31 ≤ latched s
      → i + k ≤ 4
      → j < k
      → plain (latched s + i + j)
      → config (io.output k (0xcfc + i) v s) (latched s + i + j) ≡ u8 (v / 2 ^ (8 * j))
  pub read :
      (k i : ℕ) (s : S)
      → 2 ^ 31 ≤ latched s
      → i + k ≤ 4
      → (io.input k (0xcfc + i) s).0 ≡ of_bytes k (λ (j : ℕ). config s (latched s + i + j))

u8-u16 : (x : ℕ) → u8 (u16 x) ≡ u8 x
u8-u16 x = omega arith

u8-u32 : (x : ℕ) → u8 (u32 x) ≡ u8 x
u8-u32 x = omega arith

-- The bytes of a value that is cut to its size.
byte_of_u8 : (x j : ℕ) → j < 1 → u8 (u8 x / 2 ^ (8 * j)) ≡ u8 (x / 2 ^ (8 * j))
byte_of_u8 x zero h = omega arith
byte_of_u8 x (suc j) h = absurd (omega arith)

byte_of_u16 : (x j : ℕ) → j < 2 → u8 (u16 x / 2 ^ (8 * j)) ≡ u8 (x / 2 ^ (8 * j))
byte_of_u16 x zero h = omega arith
byte_of_u16 x (suc zero) h = omega arith
byte_of_u16 x (suc (suc j)) h = absurd (omega arith)

byte_of_u32 : (x j : ℕ) → j < 4 → u8 (u32 x / 2 ^ (8 * j)) ≡ u8 (x / 2 ^ (8 * j))
byte_of_u32 x zero h = omega arith
byte_of_u32 x (suc zero) h = omega arith
byte_of_u32 x (suc (suc zero)) h = omega arith
byte_of_u32 x (suc (suc (suc zero))) h = omega arith
byte_of_u32 x (suc (suc (suc (suc j)))) h = absurd (omega arith)

-- The byte in a register at which an access of `size` bytes starts.
abbrev pub lane : ℕ → ℕ → ℕ
lane offset size = if size == 1 then offset % 4 else if size == 2 then offset / 2 % 2 * 2 else 0

module _ {ℓ} {S : Type ℓ} (io : Bus S) (latched : S → ℕ) (config : S → ℕ → ℕ) (plain : ℕ → Type 0)
    (is : IsConfigSpace io latched config plain) where
  -- What a write to a register leaves, and a read of the same register gives.
  pub record IsWritten (a i size val : ℕ) (after : S) (r : ℕ) : Type ℓ where
    pub bytes : (j : ℕ) → j < size → config after (a + i + j) ≡ u8 (val / 2 ^ (8 * j))
    pub again : r ≡ u8 val

  module _ (k i v a : ℕ) (s : S) (room : i + suc k ≤ 4) (enabled : 2 ^ 31 ≤ a) (small : a < 2 ^ 32)
      (free : (j : ℕ) → j < suc k → plain (a + i + j)) where
    abbrev selected : S
    selected = io.output 4 (u16 0xcf8) (u32 a) s

    abbrev stored : S
    stored = io.output (suc k) (u16 (0xcfc + i)) v selected

    abbrev loaded : ℕ
    loaded = (io.input (suc k) (u16 (0xcfc + i)) (io.output 4 (u16 0xcf8) (u32 a) stored)).0

    address : u32 a ≡ a
    address = omega arith

    port : u16 (0xcfc + i) ≡ 0xcfc + i
    port = omega arith

    latched-selected : (t : S) → latched (io.output 4 (u16 0xcf8) (u32 a) t) ≡ a
    latched-selected t =
        ap (λ (x : ℕ). latched (io.output 4 0xcf8 x t)) address ∙ is.latch a t enabled small

    config-stored : (j : ℕ) → j < suc k → config stored (a + i + j) ≡ u8 (v / 2 ^ (8 * j))
    config-stored j h =
        let e = latched-selected s in
        let here : plain (latched selected + i + j) = rw e (free j h) in
        ap (λ (x : ℕ). config stored (x + i + j)) (sym e)
        ∙ ap (λ (x : ℕ). config (io.output (suc k) x v selected) (latched selected + i + j)) port
        ∙ is.written (suc k) i v j selected (omega (arith, e)) room h here

    loaded-low : u8 loaded ≡ u8 v
    loaded-low =
        let again = io.output 4 (u16 0xcf8) (u32 a) stored in
        let e = latched-selected stored in
        let f = λ (j : ℕ). config again (latched again + i + j) in
        let first : f 0 ≡ u8 v =
          ap (λ (x : ℕ). config again (x + i + 0)) e
          ∙ is.untouched (u32 a) (a + i + 0) stored
          ∙ config-stored 0 (omega arith)
          ∙ omega arith in
        let value : loaded ≡ f 0 + 2 ^ 8 * of_bytes k (λ (j : ℕ). f (suc j)) =
          ap (λ (x : ℕ). (io.input (suc k) x again).0) port
          ∙ is.read (suc k) i again (omega (arith, e)) room in
        omega (arith, value, first)

  module _ (bus slot func offset val : ℕ) (s : S) (hb : bus < 256) (hs : slot < 32) (hf : func < 8)
      (ho : offset < 256) where
    abbrev a : ℕ
    a = fields bus slot func offset

    -- What an access of a size leads to.
    abbrev Result : ℕ → Type ℓ
    Result size =
        ((j : ℕ) → j < size → plain (a + lane offset size + j))
        → IsWritten a (lane offset size) size val (pci_write io bus slot func offset val size s)
            (pci_read io bus slot func offset size (pci_write io bus slot func offset val size s)).0

    of_one : Result 1
    unfolding pci_read pci_write read_data write_data port_inb port_outb port_inw port_outw port_ind
        port_outd
    of_one free =
        let i : bit_and offset 3 ≡ offset % 4 = bit_and_mask 2 offset in
        rw (i, pciaddr-fields bus slot func offset hb hs hf ho)
          record {
            bytes = λ j h.
                config-stored 0 (offset % 4) (u8 val) a s (omega arith) (omega arith) (omega arith)
                  free j h
                ∙ byte_of_u8 val j h;
            again =
                loaded-low 0 (offset % 4) (u8 val) a s (omega arith) (omega arith) (omega arith)
                  free
                ∙ omega arith;
          }

    of_two : Result 2
    unfolding pci_read pci_write read_data write_data port_inb port_outb port_inw port_outw port_ind
        port_outd
    of_two free =
        let i : bit_and offset 2 ≡ offset / 2 % 2 * 2 = bit_and_middle 1 1 offset in
        rw (i, pciaddr-fields bus slot func offset hb hs hf ho)
          record {
            bytes = λ j h.
                config-stored 1 (offset / 2 % 2 * 2) (u16 val) a s (omega arith) (omega arith)
                  (omega arith) free j h
                ∙ byte_of_u16 val j h;
            again =
                u8-u16 _
                ∙ loaded-low 1 (offset / 2 % 2 * 2) (u16 val) a s (omega arith) (omega arith)
                    (omega arith) free
                ∙ u8-u16 val;
          }

    of_four : Result 4
    unfolding pci_read pci_write read_data write_data port_inb port_outb port_inw port_outw port_ind
        port_outd
    of_four free = rw (pciaddr-fields bus slot func offset hb hs hf ho) record {
      bytes = λ j h.
          config-stored 3 0 (u32 val) a s (omega arith) (omega arith) (omega arith) free j h
          ∙ byte_of_u32 val j h;
      again =
          u8-u32 _
          ∙ loaded-low 3 0 (u32 val) a s (omega arith) (omega arith) (omega arith) free
          ∙ u8-u32 val;
    }

  -- On a bus with a configuration space, let the bus, slot, function and offset fit 8, 5, 3 and 8
  -- digits, `size` be 1, 2 or 4, and the bytes of the access in the device's register hold what is
  -- written. Then pci_write leaves the bytes of the value there, and pci_read with the same size then
  -- gives back the low byte of the value: all of it for size 1, and no more than its low byte for
  -- sizes 2 and 4.
  pub pci_read-pci_write :
      (bus slot func offset val size : ℕ) (s : S)
      → bus < 256
      → slot < 32
      → func < 8
      → offset < 256
      → (size ≡ 1) ⊎ (size ≡ 2) ⊎ (size ≡ 4)
      → ((j : ℕ) → j < size → plain (fields bus slot func offset + lane offset size + j))
      → IsWritten
          (fields bus slot func offset)
          (lane offset size)
          size
          val
          (pci_write io bus slot func offset val size s)
          (pci_read io bus slot func offset size (pci_write io bus slot func offset val size s)).0
  pci_read-pci_write bus slot func offset val size s hb hs hf ho which free =
      let result = Result bus slot func offset val s hb hs hf ho in
      elim which [
        | inl e ↦ subst result (sym e) (of_one bus slot func offset val s hb hs hf ho) free
        | inr (inl e) ↦ subst result (sym e) (of_two bus slot func offset val s hb hs hf ho) free
        | inr (inr e) ↦ subst result (sym e) (of_four bus slot func offset val s hb hs hf ho) free
      ]
