-- ===== src/Printk/Cursor.antt =====
-- The cursor of kernel/printk.c stays where a whole character fits on the screen.
use ly_system_os.Prelude.{
  ℕ, ◌+◌, ◌*◌, ◌%◌, ◌^◌, ◌≤◌, ◌<◌, ◌≡◌, refl, ◌⊎◌, inl, inr, true, some, List, [], ◌∷◌, arith, ltb,
  lt→ltb, Bool-cases, length,
}
use ly_system_os.Gpu.{Framebuffer, Font}
use ly_system_os.Gpu.Paint.{over}
use ly_system_os.Printk.{
  at, show, Arg, vsprintk, Terminal, scroll, scroll_if, move, wrap_line, putchar, put_all, printk,
  Console,
}
use ly_system_os.Ram.{Memory}

-- The cell of 8 columns and `charsize` rows at the cursor is on the screen.
pub record IsOnScreen (fb : Framebuffer) (font : Font) (t : Terminal) : Type 0 where
  pub columns : t.term_x + 8 ≤ fb.width
  pub rows : t.term_y + font.charsize ≤ fb.height

-- Two lines fit on the screen, and coordinates do not wrap around.
pub record HasRoom (fb : Framebuffer) (font : Font) : Type 0 where
  pub wide : 8 ≤ fb.width
  pub high : 2 * font.charsize ≤ fb.height
  pub small_width : fb.width < 2 ^ 31
  pub small_height : fb.height < 2 ^ 31

-- A cursor after the first tests of putchar, and one after the end of the line is wrapped.
record IsMoved (fb : Framebuffer) (font : Font) (t : Terminal) : Type 0 where
  near : t.term_x ≤ fb.width + 32
  low : t.term_y ≤ fb.height
  either : (t.term_y + font.charsize ≤ fb.height) ⊎ (t.term_x + 8 ≤ fb.width)

record IsWrapped (fb : Framebuffer) (font : Font) (t : Terminal) : Type 0 where
  columns : t.term_x + 8 ≤ fb.width
  low : t.term_y ≤ fb.height

module _ (fb : Framebuffer) (font : Font) (room : HasRoom fb font) where
  module _ (c : ℕ) (t : Terminal) (m : Memory) (is : IsOnScreen fb font t) where
    move-x : (move fb font c (t, m)).0.term_x ≤ fb.width + 32
    unfolding move at
    move-x =
        let columns = is.columns in
        let small = room.small_width in
        let none_wrapped : (t.term_x + 32) % 2 ^ 32 ≡ t.term_x + 32 = omega arith in ground arith

    move-y : (move fb font c (t, m)).0.term_y ≤ fb.height
    unfolding move at
    move-y = let rows = is.rows in let small = room.small_height in ground arith

    move_either :
        ((move fb font c (t, m)).0.term_y + font.charsize ≤ fb.height)
        ⊎ ((move fb font c (t, m)).0.term_x + 8 ≤ fb.width)
    unfolding move at
    move_either =
        let rows = is.rows in let columns = is.columns in let wide = room.wide in ground arith

    move-IsMoved : IsMoved fb font (move fb font c (t, m)).0
    move-IsMoved = record { near = move-x; low = move-y; either = move_either }

  wrap_line-IsWrapped :
      (t : Terminal) (m : Memory)
      → IsMoved fb font t
      → IsWrapped fb font (wrap_line fb font (t, m)).0
  unfolding wrap_line at
  wrap_line-IsWrapped t m is =
      let near = is.near in
      let low = is.low in
      let either = is.either in
      let wide = room.wide in
      let small = room.small_width in
      let small_height = room.small_height in
      elim (Bool-cases (ltb fb.width ((t.term_x + 8) % 2 ^ 32))) [
        | inl over ↦ rw over (record { columns = omega arith; low = ground arith })
        | inr fits ↦ rw fits (record { columns = ground arith; low = low })
      ]

  scroll_if-IsOnScreen :
      (t : Terminal) (m : Memory)
      → IsWrapped fb font t
      → IsOnScreen fb font (scroll_if fb font (t, m)).0
  unfolding scroll_if scroll
  scroll_if-IsOnScreen t m is =
      let columns = is.columns in
      let low = is.low in
      let high = room.high in
      let small = room.small_height in
      elim (Bool-cases (ltb fb.height ((t.term_y + font.charsize) % 2 ^ 32))) [
        | inl over ↦ rw over (record { columns = columns; rows = ground arith })
        | inr fits ↦ rw fits (record { columns = columns; rows = ground arith })
      ]

  putchar-IsOnScreen :
      (c : ℕ) (t : Terminal) (m : Memory)
      → IsOnScreen fb font t
      → IsOnScreen fb font (putchar fb font c (t, m)).0
  unfolding putchar
  putchar-IsOnScreen c t m is =
      let moved = move fb font c (t, m) in
      let wrapped = wrap_line fb font moved in
      scroll_if-IsOnScreen wrapped.0 wrapped.1
        (wrap_line-IsWrapped moved.0 moved.1 (move-IsMoved c t m is))

  put_all-IsOnScreen :
      (cs : List ℕ) (t : Terminal) (m : Memory)
      → IsOnScreen fb font t
      → IsOnScreen fb font (put_all fb font cs (t, m)).0
  unfolding put_all
  put_all-IsOnScreen [] t m is = is
  put_all-IsOnScreen (c ∷ cs) t m is =
      let next = putchar fb font c (t, m) in
      put_all-IsOnScreen cs next.0 next.1 (putchar-IsOnScreen c t m is)

  -- printk from a cursor where a whole character fits on a screen with room for two lines, when its output is shorter than its buffer: it returns the length of the output, and a whole character fits at the cursor again, whatever was printed, control characters, wrapped lines and scrolling included.
  pub printk-IsOnScreen :
      (buf fmt out : List ℕ) (args : List Arg) (t : Terminal) (m : Memory)
      → vsprintk buf fmt args ≡ some out
      → length out < 2048
      → IsOnScreen fb font t
      → (s : Console) × (printk fb font buf fmt args (t, m) ≡ some (length out, s))
        × IsOnScreen fb font s.0
  unfolding printk show
  printk-IsOnScreen buf fmt out args t m prints short is =
      let fits : ltb (length out) 2048 ≡ true = lt→ltb (length out) 2048 short in
      (put_all fb font out (t, m), rw (prints, fits) refl, put_all-IsOnScreen out t m is)
