-- ===== src/Screen/Pixels.antt =====
-- kernel/screen.c: the pixels of the frame buffer do not overlap.
use native.Mathlib.Nat.{mul-le-mul_right, mul_comm, add-mul}
use silkware.Base.{
  ℕ, zero, suc, ◌+◌, ◌*◌, ◌/◌, ◌^◌, ◌<◌, ◌≤◌, ◌≡◌, ◌≢◌, ap, ◌⊎◌, inl, inr, u8, u32, shr, arith, ◌%◌,
  ◌∙◌, bit_or,
}
use silkware.Bits.Shifts.{bit_or_fields, bit_and_mask, bit_or_comm}
use silkware.Mem.{Memory, store}
use silkware.Screen.{Framebuffer, store32, pixel_at, pixel_of, putpixel}

-- A screen of 32 bits in a pixel, whose lines hold its width and whose bytes fit 32 digits and the
-- address space.
pub record IsWhole (screen : Framebuffer) : Type 0 where
  pub depth : screen.bpp ≡ 32
  pub lines : screen.width * 4 ≤ screen.pitch
  pub size : screen.pitch * screen.height < 2 ^ 32
  pub top : screen.vaddr + screen.pitch * screen.height < 2 ^ 64

abbrev pub IsIn : Framebuffer → ℕ → ℕ → Type 0
IsIn screen x y = (x < screen.width) × (y < screen.height)

-- The lines up to `y` end where the next one starts.
line_below : (y h pitch : ℕ) → y < h → y * pitch + pitch ≤ pitch * h
line_below y h pitch l =
    let le : (y + 1) * pitch ≤ h * pitch = mul-le-mul_right pitch (omega arith) in
    omega (arith, le, add-mul y 1 pitch, mul_comm h pitch)

line_apart : (y y' pitch : ℕ) → y < y' → y * pitch + pitch ≤ y' * pitch
line_apart y y' pitch l =
    let le : (y + 1) * pitch ≤ y' * pitch = mul-le-mul_right pitch (omega arith) in
    omega (arith, le, add-mul y 1 pitch)

ordered :
    (x y x' y' : ℕ)
    → (x ≢ x') ⊎ (y ≢ y')
    → ((y < y') ⊎ ((y ≡ y') × (x < x'))) ⊎ ((y' < y) ⊎ ((y' ≡ y) × (x' < x)))
ordered x y x' y' h = ground arith

store32-other : (m : Memory) (p v b : ℕ) → (b < p) ⊎ (p + 4 ≤ b) → store32 m p v b ≡ m b
unfolding store32 store
store32-other m p v b (inl h) = ground arith
store32-other m p v b (inr h) = ground arith

store32-own : (m : Memory) (p v k : ℕ) → k < 4 → store32 m p v (p + k) ≡ u8 (shr v (8 * k))
unfolding store32 store
store32-own m p v zero h = ground arith
store32-own m p v (suc zero) h = ground arith
store32-own m p v (suc (suc zero)) h = ground arith
store32-own m p v (suc (suc (suc zero))) h = ground arith
store32-own m p v (suc (suc (suc (suc k)))) h = absurd (omega arith)

module _ (screen : Framebuffer) (is : IsWhole screen) where
  pixel_at-sum :
      (x y : ℕ) → IsIn screen x y → pixel_at screen x y ≡ screen.vaddr + x * 4 + y * screen.pitch
  unfolding pixel_at
  pixel_at-sum x y (l, h) =
      let row = line_below y screen.height screen.pitch h in
      let four : screen.bpp / 8 ≡ 4 = omega (arith, is.depth) in
      rw four (omega (arith, is.lines, is.size, is.top, row))

  -- The pixel of an earlier line, or of an earlier column of the line, lies before.
  below :
      (x y x' y' : ℕ)
      → IsIn screen x y
      → IsIn screen x' y'
      → (y < y') ⊎ ((y ≡ y') × (x < x'))
      → pixel_at screen x y + 4 ≤ pixel_at screen x' y'
  below x y x' y' i i' (inl l) = omega (
    arith,
    pixel_at-sum x y i,
    pixel_at-sum x' y' i',
    is.lines,
    i.0,
    line_apart y y' screen.pitch l,
  )
  below x y x' y' i i' (inr (e, l)) =
      let same : y * screen.pitch ≡ y' * screen.pitch = ap (λ (t : ℕ). t * screen.pitch) e in
      omega (arith, pixel_at-sum x y i, pixel_at-sum x' y' i', same, l)

  pixel_at_apart :
      (x y x' y' : ℕ)
      → IsIn screen x y
      → IsIn screen x' y'
      → (x ≢ x') ⊎ (y ≢ y')
      → (pixel_at screen x' y' + 4 ≤ pixel_at screen x y)
        ⊎ (pixel_at screen x y + 4 ≤ pixel_at screen x' y')
  pixel_at_apart x y x' y' i i' differ = elim (ordered x y x' y' differ) [
    | inl before ↦ inr (below x y x' y' i i' before)
    | inr behind ↦ inl (below x' y' x y i' i behind)
  ]

-- The three colours in three of the four bytes, with blue in the lowest.
pub record IsBlueFirst (screen : Framebuffer) : Type 0 where
  pub red : screen.red_mask_shift ≡ 16
  pub green : screen.green_mask_shift ≡ 8
  pub blue : screen.blue_mask_shift ≡ 0

joined :
    (b g r : ℕ)
    → b < 2 ^ 8
    → g < 2 ^ 8
    → r < 2 ^ 8
    → u32 (bit_or (bit_or (u32 (b * 2 ^ 0)) (u32 (g * 2 ^ 8))) (u32 (r * 2 ^ 16)))
      ≡ r * 2 ^ 16 + (g * 2 ^ 8 + b)
joined b g r hb hg hr =
    let eb : u32 (b * 2 ^ 0) ≡ b = omega arith in
    let eg : u32 (g * 2 ^ 8) ≡ g * 2 ^ 8 = omega arith in
    let er : u32 (r * 2 ^ 16) ≡ r * 2 ^ 16 = omega arith in
    let low : bit_or b (g * 2 ^ 8) ≡ g * 2 ^ 8 + b =
      bit_or_comm b (g * 2 ^ 8) ∙ bit_or_fields 8 g b hb in
    let all : bit_or (g * 2 ^ 8 + b) (r * 2 ^ 16) ≡ r * 2 ^ 16 + (g * 2 ^ 8 + b) =
      bit_or_comm (g * 2 ^ 8 + b) (r * 2 ^ 16) ∙ bit_or_fields 16 r (g * 2 ^ 8 + b) (omega arith) in
    ap (λ (t : ℕ). u32 (bit_or (bit_or t (u32 (g * 2 ^ 8))) (u32 (r * 2 ^ 16)))) eb
    ∙ ap (λ (t : ℕ). u32 (bit_or (bit_or b t) (u32 (r * 2 ^ 16)))) eg
    ∙ ap (λ (t : ℕ). u32 (bit_or (bit_or b (g * 2 ^ 8)) t)) er
    ∙ ap (λ (t : ℕ). u32 (bit_or t (r * 2 ^ 16))) low
    ∙ ap u32 all
    ∙ omega arith

pixel_of-sum :
    (screen : Framebuffer) (color : ℕ)
    → IsBlueFirst screen
    → pixel_of screen color
      ≡ color / 2 ^ 16 % 2 ^ 8 * 2 ^ 16 + (color / 2 ^ 8 % 2 ^ 8 * 2 ^ 8 + color % 2 ^ 8)
unfolding pixel_of
pixel_of-sum screen color is =
    rw
      (
        is.red,
        is.green,
        is.blue,
        bit_and_mask 8 color,
        bit_and_mask 8 (color / 2 ^ 8),
        bit_and_mask 8 (color / 2 ^ 16),
      )
      (joined (color % 2 ^ 8) (color / 2 ^ 8 % 2 ^ 8) (color / 2 ^ 16 % 2 ^ 8) (omega arith)
        (omega arith) (omega arith))

-- The address of a byte of the pixel in column `x` of line `y`.
abbrev pub byte_at : Framebuffer → ℕ → ℕ → ℕ → ℕ
byte_at screen x y k = screen.vaddr + y * screen.pitch + 4 * x + k

-- What drawing a pixel leaves in memory.
pub record IsDrawn (screen : Framebuffer) (x y color : ℕ) (m r : Memory) : Type 0 where
  pub blue : r (byte_at screen x y 0) ≡ color % 256
  pub green : r (byte_at screen x y 1) ≡ color / 256 % 256
  pub red : r (byte_at screen x y 2) ≡ color / 65536 % 256
  pub unused : r (byte_at screen x y 3) ≡ 0
  pub others :
      (x' y' k : ℕ)
      → IsIn screen x' y'
      → (x ≢ x') ⊎ (y ≢ y')
      → k < 4
      → r (byte_at screen x' y' k) ≡ m (byte_at screen x' y' k)

-- On a screen of 32 bits in a pixel, with blue in the lowest byte, green in the next one and red in
-- the third, whose lines hold its width, whose bytes fit 32 digits and which does not wrap round the
-- address space, putpixel at a place on the screen leaves the bytes of blue, green and red of the
-- colour and a zero in the pixel, which is 4 bytes for each column from the start of its line, and
-- changes no other pixel.
pub putpixel-IsDrawn :
    (screen : Framebuffer) (x y color : ℕ) (m : Memory)
    → IsWhole screen
    → IsBlueFirst screen
    → IsIn screen x y
    → IsDrawn screen x y color m (putpixel screen x y color m)
unfolding putpixel
putpixel-IsDrawn screen x y color m is order inside =
    let p = pixel_at screen x y in
    let value = pixel_of-sum screen color order in
    let at_sum : (x' y' k : ℕ)
        → IsIn screen x' y'
        → byte_at screen x' y' k ≡ pixel_at screen x' y' + k =
      λ x' y' k i. omega (arith, pixel_at-sum screen is x' y' i) in
    let outside : (q k : ℕ) → k < 4 → (q + 4 ≤ p) ⊎ (p + 4 ≤ q) → (q + k < p) ⊎ (p + 4 ≤ q + k) =
      λ q k l h. elim h [ inl a ↦ inl (omega arith) | inr a ↦ inr (omega arith) ] in
    let own : (k : ℕ)
        → k < 4
        → store32 m p (pixel_of screen color) (byte_at screen x y k)
          ≡ u8 (shr (pixel_of screen color) (8 * k)) =
      λ k h. rw (at_sum x y k inside) (store32-own m p (pixel_of screen color) k h) in
    record {
      blue = own 0 (omega arith) ∙ omega (arith, value);
      green = own 1 (omega arith) ∙ omega (arith, value);
      red = own 2 (omega arith) ∙ omega (arith, value);
      unused = own 3 (omega arith) ∙ omega (arith, value);
      others = λ x' y' k inside' differ h. rw (at_sum x' y' k inside') (
          store32-other m p (pixel_of screen color) (pixel_at screen x' y' + k) (
            outside (pixel_at screen x' y') k h
              (pixel_at_apart screen is x y x' y' inside inside' differ)));
    }
