-- ===== src/Ports.antt =====
-- kernel/arch/x86_64/ports.c: the processor's ports. `Bus` is what is behind them.
use silkware.Base.{ℕ, u8, u16, u32}

-- The answer of the hardware in state `s`: a read of `width` bytes from a port gives a value, and a
-- read as a write may change the state.
pub record Bus {ℓ} (S : Type ℓ) : Type ℓ where
  pub input : ℕ → ℕ → S → ℕ × S
  pub output : ℕ → ℕ → ℕ → S → S

module _ {ℓ} {S : Type ℓ} (bus : Bus S) where
  unfoldable pub port_inb : ℕ → S → ℕ × S
  port_inb port s = let r = bus.input 1 (u16 port) s in (u8 r.0, r.1)

  unfoldable pub port_outb : ℕ → ℕ → S → S
  port_outb port x s = bus.output 1 (u16 port) (u8 x) s

  unfoldable pub port_inw : ℕ → S → ℕ × S
  port_inw port s = let r = bus.input 2 (u16 port) s in (u16 r.0, r.1)

  unfoldable pub port_outw : ℕ → ℕ → S → S
  port_outw port x s = bus.output 2 (u16 port) (u16 x) s

  unfoldable pub port_ind : ℕ → S → ℕ × S
  port_ind port s = let r = bus.input 4 (u16 port) s in (u32 r.0, r.1)

  unfoldable pub port_outd : ℕ → ℕ → S → S
  port_outd port x s = bus.output 4 (u16 port) (u32 x) s
