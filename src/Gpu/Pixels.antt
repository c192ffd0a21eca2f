-- ===== src/Gpu/Pixels.antt =====
-- Pixels of a framebuffer of 32 bits a pixel whose rows do not overlap: each has a word of its own.
use ly_system_os.Prelude.{
  ℕ, zero, suc, ◌+◌, ◌*◌, ◌/◌, ◌%◌, ◌^◌, ◌≤◌, ◌<◌, ◌≡◌, sym, ap, ◌⊎◌, inl, inr, false, ◌&&◌, arith,
  ◌==◌, if◌then◌else◌, Bool-cases,
}
use ly_system_os.Gpu.{Framebuffer, pixel_addr, put_pixel, get_pixel}
use ly_system_os.Ram.Words.{load32-store32, load32-store32_apart}
use ly_system_os.Ram.{Memory, load32, store32, kernel_virtual_base}

-- 4 bytes a pixel, rows at least as long as their pixels, 2 ^ 32 bytes at most, which stand behind each
-- other in the kernel's addresses.
pub record Fits (fb : Framebuffer) : Type 0 where
  pub present : ¬ (fb.addr ≡ 0)
  pub four_bytes : fb.bpp / 8 ≡ 4
  pub rows_apart : fb.width * 4 ≤ fb.pitch
  pub size_small : fb.height * fb.pitch ≤ 2 ^ 32
  pub no_wrap : (fb.addr + kernel_virtual_base) % 2 ^ 64 + fb.height * fb.pitch ≤ 2 ^ 64

unfoldable pub offset : Framebuffer → ℕ → ℕ → ℕ
offset fb x y = y * fb.pitch + x * 4

order_cases : (a b : ℕ) → (a < b) ⊎ ((b < a) ⊎ (a ≡ b))
order_cases a b = ground arith

-- The product is monotone in the row.
pub rows_le : (y h p : ℕ) → y < h → y * p + p ≤ h * p
rows_le zero zero p less = omega arith
rows_le zero (suc h) p less = omega arith
rows_le (suc y) zero p less = omega arith
rows_le (suc y) (suc h) p less = let below = rows_le y h p (omega arith) in omega arith

module _ (fb : Framebuffer) (fits : Fits fb) where
  pub offset-lt :
      (x y : ℕ) → x < fb.width → y < fb.height → offset fb x y + 4 ≤ fb.height * fb.pitch
  unfolding offset
  offset-lt x y in_x in_y =
      let below = rows_le y fb.height fb.pitch in_y in let apart = fits.rows_apart in omega arith

  offset_rows : (x y u v : ℕ) → x < fb.width → y < v → offset fb x y + 4 ≤ offset fb u v
  unfolding offset
  offset_rows x y u v in_x less =
      let below = rows_le y v fb.pitch less in let apart = fits.rows_apart in omega arith

  beside :
      (x u v : ℕ)
      → ¬ (x ≡ u)
      → (offset fb x v + 4 ≤ offset fb u v) ⊎ (offset fb u v + 4 ≤ offset fb x v)
  unfolding offset
  beside x u v ne = ground arith

  pub offset-apart :
      (x y u v : ℕ)
      → x < fb.width
      → u < fb.width
      → ((x == u) && (y == v)) ≡ false
      → (offset fb x y + 4 ≤ offset fb u v) ⊎ (offset fb u v + 4 ≤ offset fb x y)
  unfolding offset
  offset-apart x y u v in_x in_u ne = elim (order_cases y v) [
    | inl above ↦ inl (offset_rows x y u v in_x above)
    | inr (inl below) ↦ inr (offset_rows u v x y in_u below)
    | inr (inr same) ↦ rw same (beside x u v (ground arith))
  ]

  pub pixel_addr-offset :
      (x y : ℕ)
      → x < fb.width
      → y < fb.height
      → pixel_addr fb x y ≡ (fb.addr + kernel_virtual_base) % 2 ^ 64 + offset fb x y
  unfolding pixel_addr offset
  pixel_addr-offset x y in_x in_y =
      let small : y * fb.pitch + x * 4 + 4 ≤ fb.height * fb.pitch = offset-lt x y in_x in_y in
      let size = fits.size_small in let room = fits.no_wrap in rw fits.four_bytes (omega arith)

  on_screen : (x y : ℕ) → ((x < fb.width) × (y < fb.height)) ⊎ ((fb.width ≤ x) ⊎ (fb.height ≤ y))
  on_screen x y = ground arith

  unfoldable pub place : ℕ → ℕ → ℕ
  place x y = (fb.addr + kernel_virtual_base) % 2 ^ 64 + offset fb x y

  pub get_pixel-load32 :
      (x y : ℕ) (m : Memory)
      → x < fb.width
      → y < fb.height
      → get_pixel fb x y m ≡ load32 m (place x y)
  unfolding get_pixel place
  get_pixel-load32 x y m in_x in_y =
      let there = fits.present in rw (sym (pixel_addr-offset x y in_x in_y)) (ground arith)

  put_pixel-store32 :
      (x y color : ℕ) (m : Memory)
      → x < fb.width
      → y < fb.height
      → put_pixel fb x y color m ≡ store32 (place x y) color m
  unfolding put_pixel place
  put_pixel-store32 x y color m in_x in_y =
      let there = fits.present in rw (sym (pixel_addr-offset x y in_x in_y)) (ground arith)

  put_pixel_outside :
      (x y color : ℕ) (m : Memory) → (fb.width ≤ x) ⊎ (fb.height ≤ y) → put_pixel fb x y color m ≡ m
  unfolding put_pixel
  put_pixel_outside x y color m out = ground arith

  pub place-fits : (x y : ℕ) → x < fb.width → y < fb.height → place x y + 4 ≤ 2 ^ 64
  unfolding place
  place-fits x y in_x in_y =
      let small = offset-lt x y in_x in_y in let room = fits.no_wrap in omega arith

  place-apart :
      (x y u v : ℕ)
      → x < fb.width
      → u < fb.width
      → ((x == u) && (y == v)) ≡ false
      → (place x y + 4 ≤ place u v) ⊎ (place u v + 4 ≤ place x y)
  unfolding place
  place-apart x y u v in_x in_u ne = elim (offset-apart x y u v in_x in_u ne) [
    | inl before ↦ inl (omega arith)
    | inr behind ↦ inr (omega arith)
  ]

  module _ (x y u v color : ℕ) (m : Memory) (in_u : u < fb.width) (in_v : v < fb.height) where
    get_pixel_put_same :
        x ≡ u → y ≡ v → color < 2 ^ 32 → get_pixel fb u v (put_pixel fb x y color m) ≡ color
    get_pixel_put_same same_x same_y word =
        rw
          (
            same_x,
            same_y,
            put_pixel-store32 u v color m in_u in_v,
            get_pixel-load32 u v (store32 (place u v) color m) in_u in_v,
          )
          (load32-store32 m (place u v) color (place-fits u v in_u in_v) word)

    get_pixel_put_other :
        x < fb.width
        → y < fb.height
        → ((x == u) && (y == v)) ≡ false
        → get_pixel fb u v (put_pixel fb x y color m) ≡ get_pixel fb u v m
    get_pixel_put_other in_x in_y ne =
        rw
          (
            put_pixel-store32 x y color m in_x in_y,
            get_pixel-load32 u v (store32 (place x y) color m) in_u in_v,
            get_pixel-load32 u v m in_u in_v,
          )
          (load32-store32_apart m (place x y) (place u v) color (place-fits x y in_x in_y)
            (place-fits u v in_u in_v) (place-apart x y u v in_x in_u ne))

  -- get_pixel, on the screen, after put_pixel anywhere: the color that was put at its place, and the pixel as it was at every other place; a put outside the screen changes nothing.
  pub get_pixel-put_pixel :
      (x y u v color : ℕ) (m : Memory)
      → u < fb.width
      → v < fb.height
      → color < 2 ^ 32
      → get_pixel fb u v (put_pixel fb x y color m)
        ≡ (if (x == u) && (y == v) then color else get_pixel fb u v m)
  get_pixel-put_pixel x y u v color m in_u in_v word = elim (Bool-cases ((x == u) && (y == v))) [
    | inl same ↦
        rw same (get_pixel_put_same x y u v color m in_u in_v (ground arith) (ground arith) word)
    | inr other ↦ rw other (elim (on_screen x y) [
      | inl (in_x, in_y) ↦ get_pixel_put_other x y u v color m in_u in_v in_x in_y other
      | inr out ↦ ap (get_pixel fb u v) (put_pixel_outside x y color m out)
    ])
  ]
