-- ===== src/Tests/Printk.antt =====
-- Runs of the functions of kernel/GPU/screen.c and kernel/printk.c, and their theorems at a small screen.
use ly_system_os.Prelude.{
  ℕ, ◌+◌, ◌-◌, ◌%◌, ◌≡◌, refl, ◌&&◌, none, some, List, [], ◌∷◌, arith, ltb, ◌==◌, if◌then◌else◌,
  replicate, All,
}
use ly_system_os.CString.{codes, text, reverse_loop, reverse, digit_code, itoa_loop, itoa_end, itoa}
use ly_system_os.Gpu.{Framebuffer, pixel_addr, put_pixel, get_pixel, Font, draw_char}
use ly_system_os.Gpu.Pixels.{Fits, get_pixel-put_pixel}
use ly_system_os.Gpu.Paint.{inside, get_pixel-draw_char, lit}
use ly_system_os.CString.Digits.{Writes}
use ly_system_os.CString.Itoa.{itoa_lem}
use ly_system_os.Printk.{
  scroll_memory, print_string, printed, print_number, print_character, before, after_directive,
  directive, vsprintk_from, vsprintk, Terminal, printk, Console,
}
use ly_system_os.Printk.Format.{
  Piece, plain, text_of, byte, IsPiece, RendersAll, percent, decimal, hexadecimal, fmt_of, args_of,
  vsprintk_lem,
}
use ly_system_os.Printk.Cursor.{IsOnScreen, printk-IsOnScreen}
use ly_system_os.Printk.Scroll.{get_pixel-scroll}
use ly_system_os.Gpu.Mouse.{mouse_h, put_back, save_rows, draw_pointer}
use ly_system_os.Gpu.Pointer.{put_back-draw_pointer}
use ly_system_os.Ram.{Memory, load8, store8, load32, store32}

abbrev screen : Framebuffer
screen = record { addr = 0xFD000000; pitch = 64; width = 16; height = 8; bpp = 32 }

abbrev small_font : Font
small_font = record { magic = 0x0436; charsize = 2; glyphs = 0 ∷ 0 ∷ 0xFF ∷ 0x81 ∷ [] }

abbrev noise : Memory
noise = λ p. p % 251

screen-Fits : Fits screen
screen-Fits = record {
  present = λ e. absurd (omega arith);
  four_bytes = refl;
  rows_apart = omega arith;
  size_small = omega arith;
  no_wrap = omega arith;
}

put_and_get : get_pixel screen 5 3 (put_pixel screen 5 3 0xABCDEF noise) ≡ 0xABCDEF
unfolding get_pixel put_pixel pixel_addr load32 store32 load8 store8
put_and_get = refl

-- With 24 bits a pixel the word of a pixel reaches into the next one.
narrow_spills :
    let narrow : Framebuffer = record {
      addr = 0xFD000000;
      pitch = 48;
      width = 16;
      height = 8;
      bpp = 24;
    } in
    get_pixel narrow 6 3 (put_pixel narrow 5 3 0xFFFFFF (λ p. 0x11)) ≡ 0x11111100
unfolding get_pixel put_pixel pixel_addr load32 store32 load8 store8
narrow_spills = refl

get_pixel-put_pixel_example :
    get_pixel screen 6 3 (put_pixel screen 5 3 0xABCDEF noise)
    ≡ (if (5 == 6) && (3 == 3) then 0xABCDEF else get_pixel screen 6 3 noise)
get_pixel-put_pixel_example =
    get_pixel-put_pixel screen screen-Fits 5 3 6 3 0xABCDEF noise (omega arith) (omega arith)
      (omega arith)

get_pixel-draw_char_example :
    get_pixel screen 3 2 (draw_char screen small_font 1 3 1 0xFFFFFF noise) ≡ (
      if inside 3 1 8 2 3 2 && lit small_font 1 (3 - 3) (2 - 1)
      then 0xFFFFFF
      else get_pixel screen 3 2 noise)
get_pixel-draw_char_example =
    get_pixel-draw_char screen screen-Fits 3 2 (omega arith) (omega arith) small_font 1 3 1 0xFFFFFF
      noise (omega arith, (omega arith, (omega arith, (omega arith, tt)))) refl (omega arith)
      (omega arith) (omega arith)

get_pixel-scroll_example :
    get_pixel screen 5 1 (scroll_memory screen small_font noise)
    ≡ (if ltb (1 + 2) 8 then get_pixel screen 5 (1 + 2) noise else 0)
get_pixel-scroll_example =
    get_pixel-scroll screen screen-Fits small_font (omega arith) (omega arith) (omega arith) refl
      noise 5 1 (omega arith) (omega arith)

abbrev buffer : List ℕ
buffer = replicate 64 7

abbrev pieces : List Piece
pieces = plain (codes "n=") ∷ decimal 42 ∷ byte 10 ∷ percent ∷ hexadecimal 255 ∷ text_of none ∷ []

prints : vsprintk buffer (fmt_of pieces) (args_of pieces) ≡ some (codes "n=42\n%FF(null)")
unfolding vsprintk_from after_directive directive print_number printed print_string print_character
    before itoa itoa_loop itoa_end digit_code reverse reverse_loop fmt_of args_of
prints = refl

plain_bytes : All (λ c. (¬ (c ≡ 0)) × (¬ (c ≡ 37))) (codes "n=")
plain_bytes = (
  ((λ e. absurd (omega arith)), (λ e. absurd (omega arith))),
  (((λ e. absurd (omega arith)), (λ e. absurd (omega arith))), tt),
)

pieces_are : All IsPiece pieces
unfolding IsPiece
pieces_are = (plain_bytes, (omega arith, (tt, (tt, (omega arith, (tt, tt))))))

vsprintk_example :
    (out : List ℕ) × (vsprintk buffer (fmt_of pieces) (args_of pieces) ≡ some out)
    × RendersAll pieces out
vsprintk_example = vsprintk_lem buffer pieces refl pieces_are

itoa_example : (out : List ℕ) × (itoa 1234 buffer 16 ≡ some out) × Writes 16 1234 (text out)
itoa_example =
    itoa_lem 16 (omega arith) (omega arith) 1234 3 buffer (omega arith) (omega arith) (omega arith)
      (omega arith)

abbrev cursor : Terminal
cursor = record { term_x = 8; term_y = 6; term_color = 0xFFFFFF }

plain_output : vsprintk buffer (codes "a\n") [] ≡ some (codes "a\n")
unfolding vsprintk_from before
plain_output = refl

printk_example :
    (s : Console) × (printk screen small_font buffer (codes "a\n") [] (cursor, noise) ≡ some (2, s))
    × IsOnScreen screen small_font s.0
printk_example =
    printk-IsOnScreen screen small_font
      (record {
        wide = omega arith;
        high = omega arith;
        small_width = omega arith;
        small_height = omega arith;
      })
      buffer (codes "a\n") (codes "a\n") [] cursor noise plain_output (omega arith)
      (record { columns = omega arith; rows = omega arith })

put_back-draw_pointer_example :
    get_pixel screen 15 7 (
      put_back screen 14 6
        (save_rows screen 14 6 noise 0 mouse_h (replicate 198 0))
        (draw_pointer screen 14 6 noise))
    ≡ get_pixel screen 15 7 noise
put_back-draw_pointer_example =
    put_back-draw_pointer screen screen-Fits 15 7 (omega arith) (omega arith) 14 6 (replicate 198 0)
      noise refl (omega arith) (omega arith)
