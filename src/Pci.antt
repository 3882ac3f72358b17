-- ===== src/Pci.antt =====
-- kernel/acpi/pci.c: reads and writes of the configuration space through ports 0xCF8 and 0xCFC.
-- The message for an access size that does not exist is left out.
pub mod Fields
pub mod Space
use silkware.Base.{ℕ, ◌==◌, if◌then◌else◌, ◌+◌, ◌*◌, ◌%◌, ◌^◌, bit_and, bit_or, u8, u32, shl}
use silkware.Ports.{Bus, port_inb, port_outb, port_inw, port_outw, port_ind, port_outd}

-- Its parameters are bytes.
unfoldable pub pciaddr : ℕ → ℕ → ℕ → ℕ → ℕ
pciaddr bus slot func offset = u32 (
    bit_or (bit_or (bit_or (bit_or (shl bus 16) (shl slot 11)) (shl func 8)) (bit_and offset 0xfc))
      0x80000000)

module _ {ℓ} {S : Type ℓ} (io : Bus S) where
  -- The `switch` of `pci_read`, whose result is cut to the `uint8_t` that it returns.
  unfoldable pub read_data : ℕ → ℕ → S → ℕ × S
  unfolding port_inb port_inw port_ind
  read_data offset size s =
      if size == 1
      then port_inb io (0xcfc + bit_and offset 3) s
      else if size == 2
      then (let r = port_inw io (0xcfc + bit_and offset 2) s in (u8 r.0, r.1))
      else if size == 4
      then (let r = port_ind io 0xcfc s in (u8 r.0, r.1))
      else (0, s)

  unfoldable pub pci_read : ℕ → ℕ → ℕ → ℕ → ℕ → S → ℕ × S
  unfolding pciaddr port_outd read_data
  pci_read bus slot func offset size s =
      read_data offset size (port_outd io 0xcf8 (pciaddr bus slot func offset) s)

  -- The `switch` of `pci_write`.
  unfoldable pub write_data : ℕ → ℕ → ℕ → S → S
  unfolding port_outb port_outw port_outd
  write_data offset val size s =
      if size == 1
      then port_outb io (0xcfc + bit_and offset 3) val s
      else if size == 2
      then port_outw io (0xcfc + bit_and offset 2) val s
      else if size == 4
      then port_outd io 0xcfc val s
      else s

  unfoldable pub pci_write : ℕ → ℕ → ℕ → ℕ → ℕ → ℕ → S → S
  unfolding pciaddr port_outd write_data
  pci_write bus slot func offset val size s =
      write_data offset val size (port_outd io 0xcf8 (pciaddr bus slot func offset) s)
