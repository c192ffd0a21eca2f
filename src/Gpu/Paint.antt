-- ===== src/Gpu/Paint.antt =====
-- What a painted rectangle looks like, and with it the shapes of kernel/GPU/screen.c.
use ly_system_os.Prelude.{
  ℕ, zero, suc, ◌+◌, ◌-◌, ◌*◌, ◌/◌, ◌%◌, ◌^◌, ◌≤◌, ◌<◌, bit_and, ◌≡◌, refl, ap, inl, inr, Bool,
  true, not, ◌&&◌, Option, none, some, arith, ltb, leb, ◌==◌, if◌then◌else◌, Bool-cases, get_or,
  All, All-get_or,
}
use ly_system_os.Prelude.Bits.{test_bit, every_below, every_below-holds}
use ly_system_os.Gpu.{
  Framebuffer, get_pixel, put_if, paint_row, paint_rows, paint, draw_rect, clear_screen, psf1_magic,
  Font, glyph, draw_char,
}
use ly_system_os.Gpu.Pixels.{Fits, get_pixel-put_pixel}
use ly_system_os.Ram.{Memory}

-- The color where one is put, else the one below.
unfoldable pub over : Option ℕ → ℕ → ℕ
over none below = below
over (some color) below = color

-- Whether the rectangle at (`x`, `y`) has the pixel (`u`, `v`).
unfoldable pub inside : ℕ → ℕ → ℕ → ℕ → ℕ → ℕ → Bool
inside x y width height u v = leb x u && ltb u (x + width) && (leb y v && ltb v (y + height))

-- Colors are of 32 bits.
unfoldable pub IsColored : (ℕ → ℕ → Option ℕ) → Type 0
IsColored color = (j i c : ℕ) → color j i ≡ some c → c < 2 ^ 32

module _ (fb : Framebuffer) (fits : Fits fb) (u v : ℕ) (in_u : u < fb.width)
    (in_v : v < fb.height) where
  look : Memory → ℕ
  look m = get_pixel fb u v m

  put_if-look :
      (o : Option ℕ) (x y : ℕ) (m : Memory)
      → ((c : ℕ) → o ≡ some c → c < 2 ^ 32)
      → get_pixel fb u v (put_if fb o x y m)
        ≡ (if (x == u) && (y == v) then over o (get_pixel fb u v m) else get_pixel fb u v m)
  unfolding put_if over
  put_if-look none x y m word = ground arith
  put_if-look (some c) x y m word = get_pixel-put_pixel fb fits x y u v c m in_u in_v (word c refl)

  -- The first pixel of a row and the others.
  row_step :
      (o : Option ℕ) (c : Option ℕ) (x y j n g : ℕ)
      → x + j + suc n ≤ 2 ^ 32
      → (x + j ≡ u → o ≡ c)
      → (if leb (x + (j + 1)) u && ltb u (x + (j + 1) + n) && (y == v)
          then over c (if ((x + j) % 2 ^ 32 == u) && (y == v) then over o g else g)
          else if ((x + j) % 2 ^ 32 == u) && (y == v)
          then over o g
          else g)
        ≡ (if leb (x + j) u && ltb u (x + j + suc n) && (y == v) then over c g else g)
  row_step o c x y j n g room same = ground (arith, same)

  paint_row-look :
      (color : ℕ → Option ℕ) (x y j n : ℕ) (m : Memory)
      → ((j c : ℕ) → color j ≡ some c → c < 2 ^ 32)
      → x + j + n ≤ 2 ^ 32
      → get_pixel fb u v (paint_row fb color x y j n m) ≡ (
          if leb (x + j) u && ltb u (x + j + n) && (y == v)
          then over (color (u - x)) (get_pixel fb u v m)
          else get_pixel fb u v m)
  unfolding paint_row
  paint_row-look color x y j zero m word room = ground arith
  paint_row-look color x y j (suc n) m word room =
      rw
        (
          paint_row-look color x y (j + 1) n (put_if fb (color j) ((x + j) % 2 ^ 32) y m) word
              (omega arith),
          put_if-look (color j) ((x + j) % 2 ^ 32) y m (word j),
        )
        (row_step (color j) (color (u - x)) x y j n (get_pixel fb u v m) room
          (λ e. ap color (omega arith)))

  -- The first row and the others.
  rows_step :
      (o : Option ℕ) (c : Option ℕ) (x y w i n g : ℕ)
      → y + i + suc n ≤ 2 ^ 32
      → (y + i ≡ v → o ≡ c)
      → (if inside x (y + (i + 1)) w n u v
          then over c (
              if leb (x + 0) u && ltb u (x + 0 + w) && ((y + i) % 2 ^ 32 == v) then over o g else g)
          else if leb (x + 0) u && ltb u (x + 0 + w) && ((y + i) % 2 ^ 32 == v)
          then over o g
          else g)
        ≡ (if inside x (y + i) w (suc n) u v then over c g else g)
  unfolding inside
  rows_step o c x y w i n g room same = ground (arith, same)

  no_rows : (x y w : ℕ) (c : Option ℕ) (g : ℕ) → g ≡ (if inside x y w 0 u v then over c g else g)
  unfolding inside
  no_rows x y w c g = ground arith

  paint_rows-look :
      (color : ℕ → ℕ → Option ℕ) (x y w i n : ℕ) (m : Memory)
      → IsColored color
      → x + w ≤ 2 ^ 32
      → y + i + n ≤ 2 ^ 32
      → get_pixel fb u v (paint_rows fb color x y w i n m) ≡ (
          if inside x (y + i) w n u v
          then over (color (u - x) (v - y)) (get_pixel fb u v m)
          else get_pixel fb u v m)
  unfolding paint_rows IsColored
  paint_rows-look color x y w i zero m word wide room =
      no_rows x (y + i) w (color (u - x) (v - y)) _
  paint_rows-look color x y w i (suc n) m word wide room =
      let row = paint_row fb (λ j. color j i) x ((y + i) % 2 ^ 32) 0 w m in
      rw
        (
          paint_rows-look color x y w (i + 1) n row word wide (omega arith),
          paint_row-look (λ j. color j i) x ((y + i) % 2 ^ 32) 0 w m (λ j. word j i) (omega arith),
        )
        (rows_step (color (u - x) i) (color (u - x) (v - y)) x y w i n (get_pixel fb u v m) room
          (λ e. ap (color (u - x)) (omega arith)))

  pub paint-look :
      (color : ℕ → ℕ → Option ℕ) (x y w h : ℕ) (m : Memory)
      → IsColored color
      → x + w ≤ 2 ^ 32
      → y + h ≤ 2 ^ 32
      → get_pixel fb u v (paint fb color x y w h m) ≡ (
          if inside x y w h u v
          then over (color (u - x) (v - y)) (get_pixel fb u v m)
          else get_pixel fb u v m)
  paint-look color x y w h m word wide room =
      let start : y + 0 ≡ y = omega arith in
      let rows = paint_rows-look color x y w 0 h m word wide (omega arith) in rw start at (rows)

-- The bit of a glyph: each row of it is a byte, whose bit 7 is the leftmost column.
unfoldable pub lit : Font → ℕ → ℕ → ℕ → Bool
lit font c column row = test_bit (get_or font.glyphs (c % 256 * font.charsize + row) 0) (7 - column)

-- The test of the mask, for every byte.
mask_test : ℕ → ℕ → Bool
mask_test b k =
    let set = test_bit b (7 - k) in if bit_and b (0x80 / 2 ^ k) == 0 then not set else set

mask_table : every_below (λ b. every_below (λ k. mask_test b k) 8) 256 ≡ true
unfolding every_below mask_test test_bit
mask_table = refl

mask-lit : (b k : ℕ) → b < 256 → k < 8 → not (bit_and b (0x80 / 2 ^ k) == 0) ≡ test_bit b (7 - k)
unfolding mask_test
mask-lit b k byte small =
    let at =
      every_below-holds (λ k. mask_test b k) k 8 small
        (every_below-holds (λ b. every_below (λ k. mask_test b k) 8) b 256 byte mask_table) in
    choice (bit_and b (0x80 / 2 ^ k) == 0) (test_bit b (7 - k)) at
  where
    choice : (x y : Bool) → (if x then not y else y) ≡ true → not x ≡ y
    choice x y e = ground arith

glyph-lit :
    (font : Font) (c column row : ℕ)
    → All (λ b. b < 256) font.glyphs
    → column < 8
    → glyph font c column row ≡ lit font c column row
unfolding glyph lit
glyph-lit font c column row bytes small =
    mask-lit _ column (All-get_or (λ b. b < 256) font.glyphs _ 0 bytes (omega arith)) small

module _ (fb : Framebuffer) (fits : Fits fb) (u v : ℕ) (in_u : u < fb.width)
    (in_v : v < fb.height) where
  -- A pixel of the screen after draw_rect of a rectangle whose right and lower edge are at most 2 ^ 32: the color inside of the rectangle, outside as before.
  pub get_pixel-draw_rect :
      (x y w h color : ℕ) (m : Memory)
      → x + w ≤ 2 ^ 32
      → y + h ≤ 2 ^ 32
      → color < 2 ^ 32
      → get_pixel fb u v (draw_rect fb x y w h color m)
        ≡ (if inside x y w h u v then color else get_pixel fb u v m)
  unfolding draw_rect over IsColored
  get_pixel-draw_rect x y w h color m wide high word =
      paint-look fb fits u v in_u in_v (λ j i. some color) x y w h m (λ j i c e. ground arith) wide
        high

  -- Every pixel of the screen after clear_screen.
  pub get_pixel-clear_screen :
      (color : ℕ) (m : Memory)
      → fb.width ≤ 2 ^ 32
      → fb.height ≤ 2 ^ 32
      → color < 2 ^ 32
      → get_pixel fb u v (clear_screen fb color m) ≡ color
  unfolding clear_screen over IsColored inside
  get_pixel-clear_screen color m wide high word =
      let there = fits.present in
      let whole =
        paint-look fb fits u v in_u in_v (λ j i. some color) 0 0 fb.width fb.height m
          (λ j i c e. ground arith) (omega arith) (omega arith) in
      ground arith

  -- A pixel of the screen after draw_char with a font of the right magic number whose glyphs are of bytes, and a color of 32 bits, in a cell of 8 columns whose right and lower edge are at most 2 ^ 32, on a framebuffer at an address other than 0, of 32 bits a pixel, whose rows do not overlap and whose bytes, 2^32 at most, do not wrap around in the kernel's addresses: the color where the cell has a bit of the glyph, where each row of the glyph is a byte whose highest bit is the leftmost column, and everywhere else as before.
  pub get_pixel-draw_char :
      (font : Font) (c x y color : ℕ) (m : Memory)
      → All (λ b. b < 256) font.glyphs
      → font.magic ≡ psf1_magic
      → x + 8 ≤ 2 ^ 32
      → y + font.charsize ≤ 2 ^ 32
      → color < 2 ^ 32
      → get_pixel fb u v (draw_char fb font c x y color m) ≡ (
          if inside x y 8 font.charsize u v && lit font c (u - x) (v - y)
          then color
          else get_pixel fb u v m)
  unfolding draw_char over IsColored inside
  get_pixel-draw_char font c x y color m bytes magic wide high word =
      let cell =
        paint-look fb fits u v in_u in_v (λ cx cy. if glyph font c cx cy then some color else none)
          x y 8 font.charsize m (λ j i k e. ground arith) wide high in
      elim (Bool-cases (leb x u && ltb u (x + 8))) [
        | inl column ↦
            let same = glyph-lit font c (u - x) (v - y) bytes (ground arith) in ground arith
        | inr off ↦ ground arith
      ]
