-- ===== src/Gpu.antt =====
-- kernel/GPU/screen.c: pixels and shapes on the framebuffer. The memory is that of
-- Ram. The fields of `fb` are those of include/LySys/mbi.h.
pub mod Pixels
pub mod Paint
pub mod Mouse
pub mod Saved
pub mod Pointer
use ly_system_os.Prelude.{
  ℕ, zero, suc, ◌+◌, ◌*◌, ◌/◌, ◌%◌, ◌^◌, bit_and, Bool, not, ◌||◌, Option, none, some, List, leb,
  ◌==◌, if◌then◌else◌, get_or,
}
use ly_system_os.Ram.{Memory, load32, store32, kernel_virtual_base}

-- `struct framebuffer_info`
pub record Framebuffer : Type 0 where
  pub addr : ℕ
  pub pitch : ℕ
  pub width : ℕ
  pub height : ℕ
  pub bpp : ℕ

-- `pixel_addr` of `put_pixel` and `get_pixel`: the products are of `uint32_t`.
unfoldable pub pixel_addr : Framebuffer → ℕ → ℕ → ℕ
pixel_addr fb x y =
    ((fb.addr + kernel_virtual_base) % 2 ^ 64 + y * fb.pitch % 2 ^ 32 + x * (fb.bpp / 8) % 2 ^ 32)
    % 2 ^ 64

-- `put_pixel`
unfoldable pub put_pixel : Framebuffer → ℕ → ℕ → ℕ → Memory → Memory
put_pixel fb x y color m =
    if leb fb.width x || leb fb.height y
    then m
    else if fb.addr == 0
    then m
    else store32 (pixel_addr fb x y) color m

-- `get_pixel`
unfoldable pub get_pixel : Framebuffer → ℕ → ℕ → Memory → ℕ
get_pixel fb x y m =
    if leb fb.width x || leb fb.height y
    then 0
    else if fb.addr == 0
    then 0
    else load32 m (pixel_addr fb x y)

-- The loops of `clear_screen`, `draw_rect` and `draw_char`, of which each puts the pixels of a rectangle
-- at (`x`, `y`) row by row: `color j i` is the color put in column `j` of row `i`, and none where the
-- loop's body puts no pixel. First a pixel, then a row from column `j` on with `n` left, then the rows.
unfoldable pub put_if : Framebuffer → Option ℕ → ℕ → ℕ → Memory → Memory
put_if fb none x y m = m
put_if fb (some color) x y m = put_pixel fb x y color m

unfoldable pub paint_row : Framebuffer → (ℕ → Option ℕ) → ℕ → ℕ → ℕ → ℕ → Memory → Memory
paint_row fb color x y j zero m = m
paint_row fb color x y j (suc n) m =
    paint_row fb color x y (j + 1) n (put_if fb (color j) ((x + j) % 2 ^ 32) y m)

unfoldable pub paint_rows : Framebuffer → (ℕ → ℕ → Option ℕ) → ℕ → ℕ → ℕ → ℕ → ℕ → Memory → Memory
paint_rows fb color x y width i zero m = m
paint_rows fb color x y width i (suc n) m =
    paint_rows fb color x y width (i + 1) n
      (paint_row fb (λ j. color j i) x ((y + i) % 2 ^ 32) 0 width m)

abbrev pub paint : Framebuffer → (ℕ → ℕ → Option ℕ) → ℕ → ℕ → ℕ → ℕ → Memory → Memory
paint fb color x y width height m = paint_rows fb color x y width 0 height m

-- `draw_rect`
unfoldable pub draw_rect : Framebuffer → ℕ → ℕ → ℕ → ℕ → ℕ → Memory → Memory
draw_rect fb x y width height color m = paint fb (λ j i. some color) x y width height m

-- `clear_screen`
unfoldable pub clear_screen : Framebuffer → ℕ → Memory → Memory
clear_screen fb color m =
    if fb.addr == 0 then m else paint fb (λ x y. some color) 0 0 fb.width fb.height m

-- `PSF1_MAGIC`
abbrev pub psf1_magic : ℕ
psf1_magic = 0x0436

-- The font that is linked into the kernel: `struct psf1_header` and the bytes of the glyphs behind it.
pub record Font : Type 0 where
  pub magic : ℕ
  pub charsize : ℕ
  pub glyphs : List ℕ

-- The test of `draw_char`: row `cy`, column `cx` of the glyph of `c`.
unfoldable pub glyph : Font → ℕ → ℕ → ℕ → Bool
glyph font c cx cy =
    not (bit_and (get_or font.glyphs (c % 256 * font.charsize + cy) 0) (0x80 / 2 ^ cx) == 0)

-- `draw_char`
unfoldable pub draw_char : Framebuffer → Font → ℕ → ℕ → ℕ → ℕ → Memory → Memory
draw_char fb font c x y color m =
    if not (font.magic == psf1_magic)
    then m
    else paint fb (λ cx cy. if glyph font c cx cy then some color else none) x y 8 font.charsize m
