-- ===== src/Tests/Screens.antt =====
-- The frame buffer and the console at concrete values.
use silkware.Base.{ℕ, refl, arith}
use silkware.Mem.{Memory}
use silkware.Ports.{Bus}
use silkware.Screen.{Framebuffer, Console, Offer, putpixel, echo, putc}
use silkware.Screen.Pixels.{IsDrawn, IsWhole, IsBlueFirst, putpixel-IsDrawn}
use silkware.Screen.Cursor.{IsPrinted, putc-IsPrinted}

abbrev screen : Framebuffer
screen = record {
  vaddr = 0x10000;
  paddr = 0x10000;
  width = 640;
  height = 480;
  pitch = 2560;
  bpp = 32;
  red_mask_shift = 16;
  green_mask_shift = 8;
  blue_mask_shift = 0;
}

abbrev dark : Memory
dark a = 0

screen-IsWhole : IsWhole screen
screen-IsWhole = record { depth = refl; lines = omega arith; size = omega arith; top = omega arith }

screen-IsBlueFirst : IsBlueFirst screen
screen-IsBlueFirst = record { red = refl; green = refl; blue = refl }

putpixel-IsDrawn_example : IsDrawn screen 3 4 0x123456 dark (putpixel screen 3 4 0x123456 dark)
putpixel-IsDrawn_example =
    putpixel-IsDrawn screen 3 4 0x123456 dark screen-IsWhole screen-IsBlueFirst
      (omega arith, omega arith)

abbrev no_port : Bus ℕ
no_port = record { input = λ width port s. (0, s); output = λ width port v s. s }

abbrev last_line : Console
last_line = record { x = 30; y = 469; color = 0xffffff }

-- A line's end on the last line, without a serial port.
putc-IsPrinted_example : IsPrinted screen (putc no_port 0 0 screen (λ i. 0) 10 last_line dark 7)
unfolding echo
putc-IsPrinted_example =
    putc-IsPrinted no_port 0 0 screen (λ i. 0) 10 last_line dark 7 7
      record { wide = omega arith; high = omega arith }
      record { column = omega arith; row = omega arith } refl

abbrev offer : ℕ → ℕ → Offer
offer width height = record {
  address = 0x10000;
  fb_width = width;
  fb_height = height;
  fb_pitch = 4096;
  fb_bpp = 32;
  red_shift = 16;
  green_shift = 8;
  blue_shift = 0;
}
