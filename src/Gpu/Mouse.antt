-- ===== src/Gpu/Mouse.antt =====
-- The pointer of the mouse, of kernel/IRQ/traps.c: the packets that mouse_handler reads, the move of the
-- position, and the picture under the pointer, which is saved, drawn over and put back.
use ly_system_os.Prelude.{
  ℕ, zero, suc, ◌+◌, ◌-◌, ◌*◌, ◌%◌, ◌^◌, bit_and, Bool, true, ◌&&◌, ◌||◌, Option, none, some, List,
  [], ◌∷◌, ltb, leb, ◌==◌, if◌then◌else◌, set, get_or,
}
use ly_system_os.Gpu.{Framebuffer, get_pixel, paint}
use ly_system_os.Ram.{Memory}

abbrev pub mouse_w : ℕ
mouse_w = 11

abbrev pub mouse_h : ℕ
mouse_h = 18

-- `mouse_cursor_shape`
unfoldable pub mouse_cursor_shape : List ℕ
mouse_cursor_shape =
    1 ∷ 0 ∷ 0 ∷ 0 ∷ 0 ∷ 0 ∷ 0 ∷ 0 ∷ 0 ∷ 0 ∷ 0 ∷ 1 ∷ 1 ∷ 0 ∷ 0 ∷ 0 ∷ 0 ∷ 0 ∷ 0 ∷ 0 ∷ 0 ∷ 0 ∷ 1 ∷ 2
    ∷ 1 ∷ 0 ∷ 0 ∷ 0 ∷ 0 ∷ 0 ∷ 0 ∷ 0 ∷ 0 ∷ 1 ∷ 2 ∷ 2 ∷ 1 ∷ 0 ∷ 0 ∷ 0 ∷ 0 ∷ 0 ∷ 0 ∷ 0 ∷ 1 ∷ 2 ∷ 2 ∷ 2
    ∷ 1 ∷ 0 ∷ 0 ∷ 0 ∷ 0 ∷ 0 ∷ 0 ∷ 1 ∷ 2 ∷ 2 ∷ 2 ∷ 2 ∷ 1 ∷ 0 ∷ 0 ∷ 0 ∷ 0 ∷ 0 ∷ 1 ∷ 2 ∷ 2 ∷ 2 ∷ 2 ∷ 2
    ∷ 1 ∷ 0 ∷ 0 ∷ 0 ∷ 0 ∷ 1 ∷ 2 ∷ 2 ∷ 2 ∷ 2 ∷ 2 ∷ 2 ∷ 1 ∷ 0 ∷ 0 ∷ 0 ∷ 1 ∷ 2 ∷ 2 ∷ 2 ∷ 2 ∷ 2 ∷ 2 ∷ 2
    ∷ 1 ∷ 0 ∷ 0 ∷ 1 ∷ 2 ∷ 2 ∷ 2 ∷ 2 ∷ 2 ∷ 2 ∷ 2 ∷ 2 ∷ 1 ∷ 0 ∷ 1 ∷ 2 ∷ 2 ∷ 2 ∷ 2 ∷ 2 ∷ 1 ∷ 1 ∷ 1 ∷ 1
    ∷ 1 ∷ 1 ∷ 2 ∷ 2 ∷ 1 ∷ 2 ∷ 2 ∷ 1 ∷ 0 ∷ 0 ∷ 0 ∷ 0 ∷ 1 ∷ 2 ∷ 1 ∷ 0 ∷ 1 ∷ 2 ∷ 2 ∷ 1 ∷ 0 ∷ 0 ∷ 0 ∷ 1
    ∷ 1 ∷ 0 ∷ 0 ∷ 1 ∷ 2 ∷ 2 ∷ 1 ∷ 0 ∷ 0 ∷ 0 ∷ 0 ∷ 0 ∷ 0 ∷ 0 ∷ 0 ∷ 1 ∷ 2 ∷ 2 ∷ 1 ∷ 0 ∷ 0 ∷ 0 ∷ 0 ∷ 0
    ∷ 0 ∷ 0 ∷ 1 ∷ 2 ∷ 2 ∷ 1 ∷ 0 ∷ 0 ∷ 0 ∷ 0 ∷ 0 ∷ 0 ∷ 0 ∷ 0 ∷ 1 ∷ 1 ∷ 0 ∷ 0 ∷ 0 ∷ 0 ∷ 0 ∷ 0 ∷ 0 ∷ 0
    ∷ 0 ∷ 0 ∷ 0 ∷ 0 ∷ 0 ∷ 0 ∷ []

-- The state of the handler. `background` is `mouse_bg_buffer`.
pub record Mouse : Type 0 where
  pub mouse_cycle : ℕ
  pub mouse_packet : List ℕ
  pub mouse_x : ℕ
  pub mouse_y : ℕ
  pub mouse_initialized : Bool
  pub background : List ℕ

-- `WIDTH_SCREEN` and `HEIGHT_SCREEN`
abbrev pub width_screen : ℕ
width_screen = 1024

abbrev pub height_screen : ℕ
height_screen = 768

module _ (fb : Framebuffer) where
  -- The first loop: the saved picture is put back.
  unfoldable pub saved_color : ℕ → ℕ → List ℕ → ℕ → ℕ → Option ℕ
  saved_color mx my background x y =
      if ltb (mx + x) width_screen && ltb (my + y) height_screen
      then some (get_or background (y * mouse_w + x) 0 % 2 ^ 32)
      else none

  unfoldable pub put_back : ℕ → ℕ → List ℕ → Memory → Memory
  put_back mx my background m = paint fb (saved_color mx my background) mx my mouse_w mouse_h m

  -- The second loop: the picture under the pointer is saved, first a pixel, then row `y` from column `x` on with `n` left, then
  -- the rows.
  unfoldable pub save_one : ℕ → ℕ → Memory → ℕ → ℕ → List ℕ → List ℕ
  save_one mx my m y x background =
      if ltb (mx + x) width_screen && ltb (my + y) height_screen
      then set background (y * mouse_w + x) (get_pixel fb (mx + x) (my + y) m)
      else background

  unfoldable pub save_row : ℕ → ℕ → Memory → ℕ → ℕ → ℕ → List ℕ → List ℕ
  save_row mx my m y x zero background = background
  save_row mx my m y x (suc n) background =
      save_row mx my m y (x + 1) n (save_one mx my m y x background)

  unfoldable pub save_rows : ℕ → ℕ → Memory → ℕ → ℕ → List ℕ → List ℕ
  save_rows mx my m y zero background = background
  save_rows mx my m y (suc n) background =
      save_rows mx my m (y + 1) n (save_row mx my m y 0 mouse_w background)

  -- The third loop: the pointer is drawn.
  unfoldable pub shape_color : ℕ → ℕ → ℕ → ℕ → Option ℕ
  shape_color mx my x y =
      if leb width_screen (mx + x) || leb height_screen (my + y)
      then none
      else if get_or mouse_cursor_shape (y * mouse_w + x) 0 == 1
      then some 0
      else if get_or mouse_cursor_shape (y * mouse_w + x) 0 == 2
      then some 0xFFFFFF
      else none

  unfoldable pub draw_pointer : ℕ → ℕ → Memory → Memory
  draw_pointer mx my m = paint fb (shape_color mx my) mx my mouse_w mouse_h m

  -- The move by a signed byte, up to the last pixel of the screen: `moved` adds it, `moved_back` subtracts it.
  unfoldable pub moved : ℕ → ℕ → ℕ → ℕ
  moved limit p b =
      let q = if ltb b 128 then p + b else p - (256 - b) in
      if leb (limit - 1) q then limit - 1 else q

  unfoldable pub moved_back : ℕ → ℕ → ℕ → ℕ
  moved_back limit p b =
      let q = if ltb b 128 then p - b else p + (256 - b) in
      if leb (limit - 1) q then limit - 1 else q

  -- `mouse_handler` behind the tests of a whole packet.
  unfoldable pub move_pointer : List ℕ → Mouse → Memory → Mouse × Memory
  move_pointer packet s m =
      let clean = if s.mouse_initialized then put_back s.mouse_x s.mouse_y s.background m else m in
      let x = moved width_screen s.mouse_x (get_or packet 1 0) in
      let y = moved_back height_screen s.mouse_y (get_or packet 2 0) in
      (
        record {
          mouse_cycle = 0;
          mouse_packet = packet;
          mouse_x = x;
          mouse_y = y;
          mouse_initialized = true;
          background = save_rows x y clean 0 mouse_h s.background;
        },
        draw_pointer x y clean,
      )

  -- `mouse_handler` of a status and a data byte that the controller has.
  unfoldable pub mouse_handler : ℕ → ℕ → Mouse → Memory → Mouse × Memory
  mouse_handler status data_byte s m =
      let packet = set s.mouse_packet s.mouse_cycle data_byte in
      let cycle = (s.mouse_cycle + 1) % 256 in
      let read = record s { mouse_packet = packet; mouse_cycle = cycle } in
      if bit_and status 0x20 == 0
      then (s, m)
      else if ltb cycle 3
      then (read, m)
      else if bit_and (get_or packet 0 0) 0x08 == 0
      then (record s { mouse_packet = packet; mouse_cycle = 0 }, m)
      else move_pointer packet s m
