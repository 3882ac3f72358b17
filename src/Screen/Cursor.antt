-- ===== src/Screen/Cursor.antt =====
-- kernel/arch/x86_64/putc.c: where the console writes.
use silkware.Base.{ℕ, ◌+◌, ◌^◌, ◌<◌, ◌≤◌, ◌≡◌, refl, ◌==◌, at_branches, arith}
use silkware.Base.Exec.{Exec, done}
use silkware.Mem.{Memory}
use silkware.Ports.{Bus}
use silkware.Screen.{Framebuffer, Console, new_line, draw, echo, putc}

-- The cursor stands within a column of the right edge, and ten rows above the lower one.
pub record IsPlaced (screen : Framebuffer) (t : Console) : Type 0 where
  pub column : t.x ≤ screen.width + 10
  pub row : t.y + 10 ≤ screen.height

-- A screen whose coordinates stay within 32 digits.
pub record IsSmall (screen : Framebuffer) : Type 0 where
  pub wide : screen.width + 20 < 2 ^ 32
  pub high : screen.height + 20 < 2 ^ 32

-- After a new line, or none, there is a column left.
pub record IsMoved (screen : Framebuffer) (t : Console) : Type 0 where
  pub column : t.x ≤ screen.width
  pub row : t.y + 10 ≤ screen.height

module _ (screen : Framebuffer) (small : IsSmall screen) where
  new_line-IsMoved :
      (c : ℕ) (t : Console) (m : Memory)
      → IsPlaced screen t
      → IsMoved screen (new_line screen c t m).0
  unfolding new_line
  new_line-IsMoved c t m is = record {
    column = ground (arith, is.column, small.wide);
    row = ground (arith, is.row, small.high);
  }

  draw-IsPlaced :
      (font : ℕ → ℕ) (c : ℕ) (t : Console) (m : Memory)
      → IsPlaced screen t
      → IsPlaced screen (draw screen font c t m).0
  unfolding draw
  draw-IsPlaced font c t m is =
      let moved = new_line-IsMoved c t m is in
      record { column = omega (arith, moved.column, small.wide); row = moved.row }

-- What a call of putc leaves, when it returns.
pub record IsPrinted {ℓ} {S : Type ℓ} (screen : Framebuffer) (r : Exec ((Console × Memory) × S))
    : Type ℓ where
  pub console : Console
  pub memory : Memory
  pub device : S
  pub returns : r ≡ done ((console, memory), device)
  pub placed : IsPlaced screen console

printed {ℓ} :
    {S : Type ℓ} (screen : Framebuffer) (r : Console × Memory) (s : S)
    → IsPlaced screen r.0
    → IsPrinted screen (done (r, s))
printed screen r s is = record {
  console = r.0;
  memory = r.1;
  device = s;
  returns = refl;
  placed = is;
}

-- Let the frame buffer's width and height stay 20 below 2 ^ 32, the cursor be at most 10 columns
-- behind the right edge and at least 10 rows above the lower one, and the serial port, if it is in
-- use, take the character. Then putc returns for every character, and its cursor is within these
-- bounds again.
pub putc-IsPrinted {ℓ} :
    {S : Type ℓ} (io : Bus S) (fuel serial_ok : ℕ) (screen : Framebuffer) (font : ℕ → ℕ) (c : ℕ)
    (t : Console) (m : Memory) (s s' : S)
    → IsSmall screen
    → IsPlaced screen t
    → echo io fuel serial_ok c s ≡ done s'
    → IsPrinted screen (putc io fuel serial_ok screen font c t m s)
unfolding putc
putc-IsPrinted io fuel serial_ok screen font c t m s s' small is sent =
    let coloured = λ (color : ℕ).
      printed screen (record t { color = color }, m) s
        record { column = is.column; row = is.row } in
    at_branches (IsPrinted screen) (c == 0xfe) _ _ (coloured 0xff0000) (
      at_branches (IsPrinted screen) (c == 0xff) _ _ (coloured 0xffffff) (
        at_branches (IsPrinted screen) (c == 0xfd) _ _ (coloured 0x00ff00) (
          rw sent (
            printed screen _ s' (
              at_branches (λ (r : Console × Memory). IsPlaced screen r.0) (screen.vaddr == 0) (t, m)
                _ is (draw-IsPlaced screen small font c t m is))))))
