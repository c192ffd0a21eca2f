-- ===== src/Printk.antt =====
-- kernel/printk.c: formatted messages on the screen. A console is the cursor of the terminal with the
-- memory that holds the framebuffer.
pub mod Format
pub mod Cursor
pub mod Scroll
use ly_system_os.Prelude.{
  ℕ, zero, suc, ◌+◌, ◌-◌, ◌*◌, ◌/◌, ◌%◌, ◌^◌, not, ◌||◌, Option, none, some, List, [], ◌∷◌, ◌++◌,
  ltb, leb, ◌==◌, if◌then◌else◌, length,
}
use ly_system_os.CString.{codes, text, next, itoa}
use ly_system_os.Gpu.{Framebuffer, draw_rect, Font, draw_char}
use ly_system_os.Ram.{Memory, load8, store8, store32, kernel_virtual_base}

-- An argument behind the format: a string, which may be a null pointer, a number of 64 bits, or a
-- character.
pub data Arg : Type 0 where
  string : Option (List ℕ) → Arg
  number_arg : ℕ → Arg
  character : ℕ → Arg

-- What a directive prints and the arguments it leaves. none: an argument of another kind than the
-- directive reads, which C leaves open.
unfoldable pub print_string : List Arg → Option (List ℕ × List Arg)
print_string [] = none
print_string (string none ∷ args) = some (codes "(null)", args)
print_string (string (some s) ∷ args) = some (text s, args)
print_string (number_arg v ∷ args) = none
print_string (character c ∷ args) = none

unfoldable pub printed : List Arg → Option (List ℕ) → Option (List ℕ × List Arg)
printed args none = none
printed args (some out) = some (text out, args)

unfoldable pub print_number : List ℕ → ℕ → List Arg → Option (List ℕ × List Arg)
print_number buf base [] = none
print_number buf base (string s ∷ args) = none
print_number buf base (number_arg v ∷ args) = printed args (itoa v buf base)
print_number buf base (character c ∷ args) = none

unfoldable pub print_character : List Arg → Option (List ℕ × List Arg)
print_character [] = none
print_character (string s ∷ args) = none
print_character (number_arg v ∷ args) = none
print_character (character c ∷ args) = some (c % 256 ∷ [], args)

-- The switch of `vsprintk` on the byte behind '%': 's', 'd' and 'i', 'x' and 'X', 'c', '%', others.
unfoldable pub directive : List ℕ → ℕ → List Arg → Option (List ℕ × List Arg)
directive buf d args =
    if d == 115
    then print_string args
    else if (d == 100) || (d == 105)
    then print_number buf 10 args
    else if (d == 120) || (d == 88)
    then print_number buf 16 args
    else if d == 99
    then print_character args
    else some (d ∷ [], args)

-- The output before what the rest of the format gives.
unfoldable pub before : List ℕ → Option (List ℕ) → Option (List ℕ)
before out none = none
before out (some rest) = some (out ++ rest)

-- What a directive prints, before what `rest` makes of the arguments that it leaves.
unfoldable pub after_directive :
    (List Arg → Option (List ℕ)) → Option (List ℕ × List Arg) → Option (List ℕ)
after_directive rest none = none
after_directive rest (some (out, args)) = before out (rest args)

-- The loop of `vsprintk`: what it writes from a place in the format on. `buf` is what its buffer of 64
-- bytes holds. none: a directive without its argument, or a '%' at the end of the format, behind
-- which the loop reads past it.
unfoldable pub vsprintk_from : List ℕ → List ℕ → List Arg → Option (List ℕ)
vsprintk_from buf [] args = some []
vsprintk_from buf (c ∷ []) args =
    if c == 0 then some [] else if c == 37 then none else some (c ∷ [])
vsprintk_from buf (c ∷ d ∷ cs) args =
    let next = before (c ∷ []) (vsprintk_from buf (d ∷ cs) args) in
    let converted = after_directive (λ left. vsprintk_from buf cs left) (directive buf d args) in
    if c == 0 then some [] else if not (c == 37) then next else if d == 0 then none else converted

-- `vsprintk`: the bytes before the 0 that it writes last; their number is what it returns.
abbrev pub vsprintk : List ℕ → List ℕ → List Arg → Option (List ℕ)
vsprintk buf fmt args = vsprintk_from buf fmt args

-- `term_x`, `term_y` and `term_color`.
pub record Terminal : Type 0 where
  pub term_x : ℕ
  pub term_y : ℕ
  pub term_color : ℕ

abbrev pub Console : Type 0
Console = Terminal × Memory

-- `memcpy` of `n` bytes in memory, and the loop of `scroll` that writes `n` words of 0.
unfoldable pub copy_bytes : ℕ → ℕ → ℕ → Memory → Memory
copy_bytes zero dest src m = m
copy_bytes (suc n) dest src m = copy_bytes n (dest + 1) (src + 1) (store8 dest (load8 m src) m)

unfoldable pub clear_words : ℕ → ℕ → Memory → Memory
clear_words zero a m = m
clear_words (suc n) a m = clear_words n (a + 4) (store32 a 0 m)

-- `scroll`
unfoldable pub scroll_memory : Framebuffer → Font → Memory → Memory
scroll_memory fb font m =
    let fb_virtual = (fb.addr + kernel_virtual_base) % 2 ^ 64 in
    let line_size = font.charsize * fb.pitch % 2 ^ 32 in
    let total_scroll_size = (fb.height + 2 ^ 32 - font.charsize) % 2 ^ 32 * fb.pitch % 2 ^ 32 in
    clear_words (line_size / 4) (fb_virtual + total_scroll_size)
      (copy_bytes total_scroll_size fb_virtual (fb_virtual + line_size) m)

unfoldable pub scroll : Framebuffer → Font → Console → Console
scroll fb font (t, m) = (
  record {
    term_x = t.term_x;
    term_y = (t.term_y + 2 ^ 32 - font.charsize) % 2 ^ 32;
    term_color = t.term_color;
  },
  scroll_memory fb font m,
)

-- The cursor moved.
unfoldable pub at : ℕ → ℕ → Terminal → Terminal
at x y t = record { term_x = x; term_y = y; term_color = t.term_color }

-- The first chain of tests of `putchar`: '\n', '\r', '\t', '\b' and the other characters.
unfoldable pub move : Framebuffer → Font → ℕ → Console → Console
move fb font c (t, m) =
    if c == 10
    then (at 0 ((t.term_y + font.charsize) % 2 ^ 32) t, m)
    else if c == 13
    then (at 0 t.term_y t, m)
    else if c == 9
    then (at ((t.term_x + 32) % 2 ^ 32) t.term_y t, m)
    else if c == 8
    then (if leb 8 t.term_x
        then (
          at (t.term_x - 8) t.term_y t,
          draw_rect fb (t.term_x - 8) t.term_y 8 font.charsize 0 m,
        )
        else (t, m))
    else (
      at ((t.term_x + 8) % 2 ^ 32) t.term_y t,
      draw_char fb font c t.term_x t.term_y t.term_color m,
    )

-- The two tests behind it.
unfoldable pub wrap_line : Framebuffer → Font → Console → Console
wrap_line fb font (t, m) =
    if ltb fb.width ((t.term_x + 8) % 2 ^ 32)
    then (at 0 ((t.term_y + font.charsize) % 2 ^ 32) t, m)
    else (t, m)

unfoldable pub scroll_if : Framebuffer → Font → Console → Console
scroll_if fb font (t, m) =
    if ltb fb.height ((t.term_y + font.charsize) % 2 ^ 32) then scroll fb font (t, m) else (t, m)

-- `putchar`
unfoldable pub putchar : Framebuffer → Font → ℕ → Console → Console
putchar fb font c s = scroll_if fb font (wrap_line fb font (move fb font c s))

-- The loop of `printk`.
unfoldable pub put_all : Framebuffer → Font → List ℕ → Console → Console
put_all fb font [] s = s
put_all fb font (c ∷ cs) s = put_all fb font cs (putchar fb font c s)

-- What `printk` does with the output of `vsprintk`: none where the output with its 0 is longer than the
-- buffer of 2048 bytes, behind which `vsprintk` writes then.
unfoldable pub show : Framebuffer → Font → Console → Option (List ℕ) → Option (ℕ × Console)
show fb font s none = none
show fb font s (some out) =
    if ltb (length out) 2048 then some (length out, put_all fb font out s) else none

-- `printk`
unfoldable pub printk :
    Framebuffer → Font → List ℕ → List ℕ → List Arg → Console → Option (ℕ × Console)
printk fb font buf fmt args s = show fb font s (vsprintk buf fmt args)
