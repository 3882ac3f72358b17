-- ===== src/Screen.antt =====
-- kernel/screen.c, kernel/arch/x86_64/screen.c and kernel/arch/x86_64/putc.c: the frame buffer, as
-- bytes of memory, and the console on it. `font`, the bytes of the glyphs, is a parameter.
pub mod Pixels
pub mod Cursor
pub mod Choice
use silkware.Base.{
  ℕ, zero, suc, ◌+◌, ◌-◌, ◌*◌, ◌/◌, Bool, true, false, ◌&&◌, ◌||◌, ltb, ◌==◌, if◌then◌else◌, List,
  [], ◌∷◌, Option, none, some, bit_and, bit_or, u8, u32, u64, sub64, shr, shl, ◌^◌,
}
use silkware.Base.Exec.{Exec, done, panicked, ◌>>=◌}
use silkware.Mem.{Memory, store, memmove, memset}
use silkware.Ports.{Bus}
use silkware.Serial.{serial_write}

-- `struct framebuffer`
pub record Framebuffer : Type 0 where
  pub vaddr : ℕ
  pub paddr : ℕ
  pub width : ℕ
  pub height : ℕ
  pub pitch : ℕ
  pub bpp : ℕ
  pub red_mask_shift : ℕ
  pub green_mask_shift : ℕ
  pub blue_mask_shift : ℕ

-- A store of 32 bits.
unfoldable pub store32 : Memory → ℕ → ℕ → Memory
unfolding store
store32 m p v =
    store (store (store (store m p (u8 v)) (p + 1) (u8 (shr v 8))) (p + 2) (u8 (shr v 16))) (p + 3)
      (u8 (shr v 24))

-- The address of the pixel.
unfoldable pub pixel_at : Framebuffer → ℕ → ℕ → ℕ
pixel_at screen x y = u64 (screen.vaddr + u32 (x * (screen.bpp / 8)) + u32 (y * screen.pitch))

-- Its value.
unfoldable pub pixel_of : Framebuffer → ℕ → ℕ
pixel_of screen color =
    let b = bit_and color 0xff in
    let g = bit_and (shr color 8) 0xff in
    let r = bit_and (shr color 16) 0xff in
    u32 (
      bit_or (bit_or (u32 (shl b screen.blue_mask_shift)) (u32 (shl g screen.green_mask_shift)))
        (u32 (shl r screen.red_mask_shift)))

unfoldable pub putpixel : Framebuffer → ℕ → ℕ → ℕ → Memory → Memory
unfolding store32 pixel_at pixel_of
putpixel screen x y color m = store32 m (pixel_at screen x y) (pixel_of screen color)

-- `color * (glyph[k] >> (7 - j) & 1)`
unfoldable pub shade : (ℕ → ℕ) → ℕ → ℕ → ℕ → ℕ → ℕ
shade font c color k j = u32 (color * bit_and (shr (font (256 + 8 * c * 4 + k)) (7 - j)) 1)

-- The body of the loops of `putchar`.
unfoldable pub put_dots : Framebuffer → (ℕ → ℕ) → ℕ → ℕ → ℕ → ℕ → ℕ → ℕ → Memory → Memory
unfolding putpixel shade
put_dots screen font x y c color i j m =
    let m1 = putpixel screen (u32 (x + j)) (u32 (y + i)) (shade font c color i j) m in
    let m2 = putpixel screen (u32 (x + j)) (u32 (y + i + 8)) (shade font c color (i + 8) j) m1 in
    let m3 = putpixel screen (u32 (x + j + 8)) (u32 (y + i)) (shade font c color (i + 16) j) m2 in
    putpixel screen (u32 (x + j + 8)) (u32 (y + i + 8)) (shade font c color (i + 24) j) m3

-- The inner loop from `j`, and the outer one from `i`, with `left` rounds to go.
unfoldable pub put_columns : ℕ → Framebuffer → (ℕ → ℕ) → ℕ → ℕ → ℕ → ℕ → ℕ → ℕ → Memory → Memory
unfolding put_dots
put_columns zero screen font x y c color i j m = m
put_columns (suc left) screen font x y c color i j m =
    put_columns left screen font x y c color i (j + 1) (put_dots screen font x y c color i j m)

unfoldable pub put_rows : ℕ → Framebuffer → (ℕ → ℕ) → ℕ → ℕ → ℕ → ℕ → ℕ → Memory → Memory
unfolding put_columns
put_rows zero screen font x y c color i m = m
put_rows (suc left) screen font x y c color i m =
    put_rows left screen font x y c color (i + 1) (put_columns 8 screen font x y c color i 0 m)

unfoldable pub putchar : Framebuffer → (ℕ → ℕ) → ℕ → ℕ → ℕ → ℕ → Memory → Memory
unfolding put_rows
putchar screen font x y c color m = put_rows 8 screen font x y c color 0 m

-- The static variables of `putc`.
pub record Console : Type 0 where
  pub x : ℕ
  pub y : ℕ
  pub color : ℕ

-- `if (y + 17 + 10 > screen.height)`: the text moves up by a line, and the rest is cleared.
unfoldable pub scroll : Framebuffer → ℕ → Memory → Memory
unfolding memmove memset
scroll screen y m =
    let up =
      memmove screen.vaddr (u64 (screen.vaddr + u32 (screen.pitch * 17))) (u32 (screen.pitch * y))
        m in
    memset (u64 (screen.vaddr + u32 (screen.pitch * y))) 0
      (u32 (screen.pitch * u32 (screen.height + 2 ^ 32 - y))) up

-- The new line, at a line's end or where the line is full.
unfoldable pub new_line : Framebuffer → ℕ → Console → Memory → Console × Memory
unfolding scroll
new_line screen c t m =
    if c == 10 || ltb screen.width t.x
    then if ltb screen.height (u32 (t.y + 17 + 10))
      then (record t { x = 0 }, scroll screen t.y m)
      else (record t { x = 0; y = u32 (t.y + 17) }, m)
    else (t, m)

-- What `putc` draws. A `char` is a byte here, and above 127 it is negative.
unfoldable pub draw : Framebuffer → (ℕ → ℕ) → ℕ → Console → Memory → Console × Memory
unfolding new_line putchar
draw screen font c t m =
    let r = new_line screen c t m in
    let t' : Console = record r.0 { x = u32 (r.0.x + 10) } in
    (t', (if ltb 32 c && ltb c 128 then putchar screen font t'.x t'.y c t'.color r.1 else r.1))

-- `if (serial_ok) serial_write(c);`
unfoldable pub echo {ℓ} : {S : Type ℓ} → Bus S → ℕ → ℕ → ℕ → S → Exec S
unfolding serial_write
echo io fuel serial_ok c s = if serial_ok == 0 then done s else serial_write io fuel c s

unfoldable pub putc {ℓ} :
    {S : Type ℓ}
    → Bus S
    → ℕ
    → ℕ
    → Framebuffer
    → (ℕ → ℕ)
    → ℕ
    → Console
    → Memory
    → S
    → Exec ((Console × Memory) × S)
unfolding echo draw
putc {S = S} io fuel serial_ok screen font c t m s =
    if c == 0xfe
    then done ((record t { color = 0xff0000 }, m), s)
    else if c == 0xff
    then done ((record t { color = 0xffffff }, m), s)
    else if c == 0xfd
    then done ((record t { color = 0x00ff00 }, m), s)
    else echo io fuel serial_ok c s >>= λ (s' : S).
        done ((if screen.vaddr == 0 then (t, m) else draw screen font c t m), s')

-- What the boot loader tells of a frame buffer.
pub record Offer : Type 0 where
  pub address : ℕ
  pub fb_width : ℕ
  pub fb_height : ℕ
  pub fb_pitch : ℕ
  pub fb_bpp : ℕ
  pub red_shift : ℕ
  pub green_shift : ℕ
  pub blue_shift : ℕ

-- The test of the loop of `init_fb`, whose last comparison is with the width.
unfoldable pub better : Offer → Offer → Bool
better f fb = ltb fb.fb_width f.fb_width || f.fb_width == fb.fb_width && ltb fb.fb_width f.fb_height

unfoldable pub choose : Offer → List Offer → Offer
unfolding better
choose fb [] = fb
choose fb (f ∷ fs) = choose (if better f fb then f else fb) fs

-- `H2PHYS`
unfoldable pub h2phys : ℕ → ℕ → ℕ
h2phys high_addr x = sub64 x high_addr

-- The boot loader's answer is none when there is no response.
unfoldable pub init_fb : ℕ → Option (List Offer) → Exec Framebuffer
unfolding choose h2phys
init_fb high_addr none = panicked
init_fb high_addr (some []) = panicked
init_fb high_addr (some (f ∷ fs)) =
    let fb = choose f fs in
    done record {
      vaddr = fb.address;
      paddr = h2phys high_addr fb.address;
      width = u32 fb.fb_width;
      height = u32 fb.fb_height;
      pitch = u32 fb.fb_pitch;
      bpp = fb.fb_bpp;
      red_mask_shift = fb.red_shift;
      green_mask_shift = fb.green_shift;
      blue_mask_shift = fb.blue_shift;
    }
