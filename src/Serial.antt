-- ===== src/Serial.antt =====
-- kernel/arch/x86_64/serial.c: the serial port COM1.
pub mod Ready
use silkware.Base.{ℕ, ◌+◌, Bool, not, ◌==◌, if◌then◌else◌, bit_and}
use silkware.Base.Exec.{Exec, done, ◌>>=◌}
use silkware.Base.Spin.{spin}
use silkware.Ports.{Bus, port_inb, port_outb}

abbrev pub com1 : ℕ
com1 = 0x3f8

module _ {ℓ} {S : Type ℓ} (io : Bus S) where
  -- The value of `serial_ok` after the call and the state.
  unfoldable pub serial_init : ℕ → S → ℕ × S
  unfolding port_inb port_outb
  serial_init serial_ok s =
      let out : ℕ → ℕ → S → S = λ port x t. port_outb io port x t in
      let s1 = out (com1 + 3) 0x80 (out (com1 + 1) 0x00 s) in
      let s2 = out (com1 + 3) 0x03 (out (com1 + 1) 0x00 (out (com1 + 0) 0x03 s1)) in
      let s3 = out (com1 + 4) 0x1e (out (com1 + 4) 0x0b (out (com1 + 2) 0xc7 s2)) in
      let r = port_inb io com1 (out com1 0x16 s3) in
      if not (r.0 == 0x16) then (serial_ok, r.1) else (1, out (com1 + 4) 0x0f r.1)

  -- `!(port_inb(COM1 + 5) & mask)`
  unfoldable pub line_busy : ℕ → S → Exec (Bool × S)
  unfolding port_inb
  line_busy mask s = let r = port_inb io (com1 + 5) s in done (bit_and r.0 mask == 0, r.1)

  unfoldable pub serial_recv : ℕ → S → Exec (ℕ × S)
  unfolding port_inb line_busy spin
  serial_recv fuel s = spin (line_busy 1) fuel s >>= λ (s' : S). done (port_inb io com1 s')

  unfoldable pub serial_write : ℕ → ℕ → S → Exec S
  unfolding port_outb line_busy spin
  serial_write fuel x s = spin (line_busy 0x20) fuel s >>= λ (s' : S). done (port_outb io com1 x s')
