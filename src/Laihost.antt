-- ===== src/Laihost.antt =====
-- kernel/acpi/laihost.c: the functions that the ACPI library LAI calls, on ports, the
-- configuration space and the timer.
pub mod Memory
use silkware.Base.{ℕ, u8, u16, u32}
use silkware.Ports.{Bus, port_inb, port_outb, port_inw, port_outw, port_ind, port_outd}
use silkware.Pci.{pci_read, pci_write}
use silkware.Base.Exec.{Exec}
use silkware.Hpet.{Hpet, timer_sleep_ms, timer_count_ms}

module _ {ℓ} {S : Type ℓ} (io : Bus S) where
  unfoldable pub laihost_inb : ℕ → S → ℕ × S
  unfolding port_inb
  laihost_inb port s = port_inb io port s

  unfoldable pub laihost_inw : ℕ → S → ℕ × S
  unfolding port_inw
  laihost_inw port s = port_inw io port s

  unfoldable pub laihost_ind : ℕ → S → ℕ × S
  unfolding port_ind
  laihost_ind port s = port_ind io port s

  unfoldable pub laihost_outb : ℕ → ℕ → S → S
  unfolding port_outb
  laihost_outb port x s = port_outb io port x s

  -- It writes a byte, as the source does.
  unfoldable pub laihost_outw : ℕ → ℕ → S → S
  unfolding port_outb
  laihost_outw port x s = port_outb io port x s

  unfoldable pub laihost_outd : ℕ → ℕ → S → S
  unfolding port_outd
  laihost_outd port x s = port_outd io port x s

  -- The offset of 16 digits is cut to the byte that `pci_write` and `pci_read` take.
  unfoldable pub laihost_pci_writeb : ℕ → ℕ → ℕ → ℕ → ℕ → ℕ → S → S
  unfolding pci_write
  laihost_pci_writeb seg bus slot fun offset val s =
      pci_write io bus slot fun (u8 offset) (u8 val) 1 s

  unfoldable pub laihost_pci_writew : ℕ → ℕ → ℕ → ℕ → ℕ → ℕ → S → S
  unfolding pci_write
  laihost_pci_writew seg bus slot fun offset val s =
      pci_write io bus slot fun (u8 offset) (u16 val) 2 s

  unfoldable pub laihost_pci_writed : ℕ → ℕ → ℕ → ℕ → ℕ → ℕ → S → S
  unfolding pci_write
  laihost_pci_writed seg bus slot fun offset val s =
      pci_write io bus slot fun (u8 offset) (u32 val) 4 s

  unfoldable pub laihost_pci_readb : ℕ → ℕ → ℕ → ℕ → ℕ → S → ℕ × S
  unfolding pci_read
  laihost_pci_readb seg bus slot fun offset s = pci_read io bus slot fun (u8 offset) 1 s

  unfoldable pub laihost_pci_readw : ℕ → ℕ → ℕ → ℕ → ℕ → S → ℕ × S
  unfolding pci_read
  laihost_pci_readw seg bus slot fun offset s = pci_read io bus slot fun (u8 offset) 2 s

  unfoldable pub laihost_pci_readd : ℕ → ℕ → ℕ → ℕ → ℕ → S → ℕ × S
  unfolding pci_read
  laihost_pci_readd seg bus slot fun offset s = pci_read io bus slot fun (u8 offset) 4 s

  unfoldable pub laihost_sleep : ℕ → Hpet → ℕ → S → Exec S
  unfolding timer_sleep_ms
  laihost_sleep fuel t ms s = timer_sleep_ms io fuel t ms s

  unfoldable pub laihost_timer : Hpet → S → Exec (ℕ × S)
  unfolding timer_count_ms
  laihost_timer t s = timer_count_ms io t s
