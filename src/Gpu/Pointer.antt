-- ===== src/Gpu/Pointer.antt =====
-- That the pointer of the mouse leaves no trace on the picture.
use ly_system_os.Prelude.{
  ℕ, ◌+◌, ◌-◌, ◌*◌, ◌%◌, ◌^◌, ◌<◌, ◌≡◌, ◌∙◌, inl, inr, Bool, true, false, ◌&&◌, List, arith,
  if◌then◌else◌, Bool-cases, length, get_or,
}
use ly_system_os.Gpu.{Framebuffer, pixel_addr, get_pixel}
use ly_system_os.Ram.Words.{load8-lt}
use ly_system_os.Gpu.Pixels.{Fits}
use ly_system_os.Gpu.Paint.{inside, paint-look, IsColored, over}
use ly_system_os.Gpu.Mouse.{
  mouse_w, mouse_h, saved_color, put_back, save_rows, shape_color, draw_pointer,
}
use ly_system_os.Gpu.Saved.{on_screen, save_rows-cell}
use ly_system_os.Ram.{Memory, load32}

module _ (fb : Framebuffer) (fits : Fits fb) (u v : ℕ) (in_u : u < fb.width)
    (in_v : v < fb.height) where
  shape_color-IsColored : (x y : ℕ) → IsColored (shape_color fb x y)
  unfolding IsColored shape_color
  shape_color-IsColored x y j i c e = ground arith

  saved_color-IsColored : (x y : ℕ) (bg : List ℕ) → IsColored (saved_color fb x y bg)
  unfolding IsColored saved_color
  saved_color-IsColored x y bg j i c e = ground arith

  under : ℕ → ℕ → Bool
  under x y = inside x y mouse_w mouse_h u v && on_screen x y (u - x) (v - y)

  get_pixel-small : (m : Memory) → get_pixel fb u v m % 2 ^ 32 ≡ get_pixel fb u v m
  unfolding get_pixel load32
  get_pixel-small m =
      let a = pixel_addr fb u v in
      let b0 = load8-lt m a in
      let b1 = load8-lt m (a + 1) in
      let b2 = load8-lt m (a + 2) in let b3 = load8-lt m (a + 3) in ground arith

  module _ (x y : ℕ) (in_x : x < 1024) (in_y : y < 768) (m : Memory) where
    draw_pointer-look :
        under x y ≡ false → get_pixel fb u v (draw_pointer fb x y m) ≡ get_pixel fb u v m
    unfolding draw_pointer shape_color over under on_screen
    draw_pointer-look off =
        let drawn =
          paint-look fb fits u v in_u in_v (shape_color fb x y) x y mouse_w mouse_h m
            (shape_color-IsColored x y) (omega arith) (omega arith) in
        ground arith

    put_back-look :
        (bg : List ℕ)
        → get_pixel fb u v (put_back fb x y bg m) ≡ (
            if under x y
            then get_or bg ((v - y) * mouse_w + (u - x)) 0 % 2 ^ 32
            else get_pixel fb u v m)
    unfolding put_back saved_color over under on_screen
    put_back-look bg =
        let cleaned =
          paint-look fb fits u v in_u in_v (saved_color fb x y bg) x y mouse_w mouse_h m
            (saved_color-IsColored x y bg) (omega arith) (omega arith) in
        ground arith

    saved-look :
        (bg : List ℕ)
        → length bg ≡ 198
        → under x y ≡ true
        → get_or (save_rows fb x y m 0 mouse_h bg) ((v - y) * mouse_w + (u - x)) 0
          ≡ get_pixel fb u v m
    unfolding under inside
    saved-look bg whole on =
        let column : x + (u - x) ≡ u = ground arith in
        let row : y + (v - y) ≡ v = ground arith in
        let cell =
          save_rows-cell fb x y m (v - y) (u - x) (ground arith) 0 mouse_h bg whole (omega arith) in
        rw (column, row) at (cell) ∙ ground arith

  -- The pixels under the pointer, saved before it was drawn and put back after that, on a framebuffer at an address other than 0, of 32 bits a pixel, whose rows do not overlap and whose bytes, 2^32 at most, do not wrap around in the kernel's addresses: every pixel of the screen is as it was before the pointer was drawn, wherever it stands with x below 1024 and y below 768, the edges of the screen included.
  pub put_back-draw_pointer :
      (x y : ℕ) (bg : List ℕ) (m : Memory)
      → length bg ≡ 198
      → x < 1024
      → y < 768
      → get_pixel fb u v (put_back fb x y (save_rows fb x y m 0 mouse_h bg) (draw_pointer fb x y m))
        ≡ get_pixel fb u v m
  put_back-draw_pointer x y bg m whole in_x in_y =
      let back =
        put_back-look x y in_x in_y (draw_pointer fb x y m) (save_rows fb x y m 0 mouse_h bg) in
      elim (Bool-cases (under x y)) [
        | inl on ↦ rw (back, on, saved-look x y in_x in_y m bg whole on) (get_pixel-small m)
        | inr off ↦ rw (back, off) (draw_pointer-look x y in_x in_y m off)
      ]
