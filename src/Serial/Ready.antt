-- ===== src/Serial/Ready.antt =====
-- kernel/arch/x86_64/serial.c: a write waits until the line is clear, and then sends its byte.
use silkware.Base.{
  ℕ, zero, suc, ◌+◌, ◌<◌, ◌≡◌, refl, ◌==◌, Bool, not, true, false, bit_and, u8, arith,
}
use silkware.Base.Exec.{done}
use silkware.Base.Spin.{spin}
use silkware.Ports.{Bus, port_inb, port_outb}
use silkware.Serial.{com1, line_busy, serial_write}

not-true : (b : Bool) → not b ≡ true → b ≡ false
not-true true h = absurd cc
not-true false h = refl

not-false : (b : Bool) → not b ≡ false → b ≡ true
not-false true h = refl
not-false false h = absurd cc

-- The status after `n` reads of it, and what the next read then shows.
module _ {ℓ} {S : Type ℓ} (io : Bus S) where
  abbrev pub read_line : S → S
  read_line s = (port_inb io (com1 + 5) s).1

  abbrev pub reads : ℕ → S → S
  reads zero s = s
  reads (suc n) s = reads n (read_line s)

  abbrev pub is_clear : ℕ → S → Bool
  is_clear mask s = not (bit_and (port_inb io (com1 + 5) s).0 mask == 0)

  line_busy-clear :
      (mask : ℕ) (s : S) → is_clear mask s ≡ true → line_busy io mask s ≡ done (false, read_line s)
  unfolding line_busy
  line_busy-clear mask s h = rw (not-true _ h) refl

  line_busy-not_clear :
      (mask : ℕ) (s : S) → is_clear mask s ≡ false → line_busy io mask s ≡ done (true, read_line s)
  unfolding line_busy
  line_busy-not_clear mask s h = rw (not-false _ h) refl

  -- With the first clear status at read `n`, the loop ends after that read.
  spin-line_busy :
      (mask n fuel : ℕ) (s : S)
      → n < fuel
      → ((i : ℕ) → i < n → is_clear mask (reads i s) ≡ false)
      → is_clear mask (reads n s) ≡ true
      → spin (line_busy io mask) fuel s ≡ done (reads (suc n) s)
  unfolding spin
  spin-line_busy mask n zero s h wait clear = absurd (omega arith)
  spin-line_busy mask zero (suc fuel) s h wait clear = rw (line_busy-clear mask s clear) refl
  spin-line_busy mask (suc n) (suc fuel) s h wait clear =
      rw (line_busy-not_clear mask s (wait 0 (omega arith))) (
        spin-line_busy mask n fuel (read_line s) (omega arith) (λ i l. wait (suc i) (omega arith))
          clear)

  -- Let the line be clear for sending (bit 5 of the status) at the read after `n` others that show it
  -- busy. Then serial_write ends, on more than `n` rounds of fuel, after `n + 1` reads of the
  -- status, with one byte sent to the port, the low byte of its argument.
  pub serial_write-sent :
      (n fuel x : ℕ) (s : S)
      → n < fuel
      → ((i : ℕ) → i < n → is_clear 0x20 (reads i s) ≡ false)
      → is_clear 0x20 (reads n s) ≡ true
      → serial_write io fuel x s ≡ done (io.output 1 com1 (u8 x) (reads (suc n) s))
  unfolding serial_write port_outb
  serial_write-sent n fuel x s h wait clear = rw (spin-line_busy 0x20 n fuel s h wait clear) refl
