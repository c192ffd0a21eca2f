-- ===== src/Printk/Scroll.antt =====
-- That scroll of kernel/printk.c moves the picture up by a line and leaves the last line black.
use ly_system_os.Prelude.{
  ℕ, zero, suc, ◌+◌, ◌-◌, ◌*◌, ◌/◌, ◌%◌, ◌^◌, ◌≤◌, ◌<◌, ◌≡◌, refl, sym, ap, ◌∙◌, ◌⊎◌, inl, inr,
  true, ◌&&◌, arith, ltb, leb, ◌==◌, if◌then◌else◌, ltb→lt, lt→ltb, Bool-cases,
}
use ly_system_os.Gpu.{Framebuffer, get_pixel, Font}
use ly_system_os.Ram.Words.{load8-store8_if, load8-lt, store32_zero, store32-below}
use ly_system_os.Gpu.Pixels.{rows_le, place, get_pixel-load32, Fits, offset}
use ly_system_os.Gpu.Paint.{inside}
use ly_system_os.Printk.{scroll_memory, copy_bytes, clear_words}
use ly_system_os.Ram.{Memory, load8, store8, load32, store32, kernel_virtual_base}
use native.Mathlib.Nat.{mod-eq_of_lt, add-mul}

-- Where a byte stands in a copy that begins at `d` and has `n` bytes more.
where_in : (d n p : ℕ) → (p ≡ d) ⊎ (((d + 1 ≤ p) × (p < d + 1 + n)) ⊎ ((p < d) ⊎ (d + suc n ≤ p)))
where_in d n p = ground arith

copy_step :
    (m : Memory) (p d k n : ℕ)
    → d + k + suc n ≤ 2 ^ 64
    → p < 2 ^ 64
    → (x : Memory)
    → ((q : ℕ) → q < 2 ^ 64 → load8 x q ≡ (if q == d then load8 m (d + k) else load8 m q))
    → (if leb (d + 1) p && ltb p (d + 1 + n) then load8 x (p + k) else load8 x p)
      ≡ (if leb d p && ltb p (d + suc n) then load8 m (p + k) else load8 m p)
copy_step m p d k n room small x stored =
    let here = stored p small in
    elim (where_in d n p) [
      | inl e ↦
          let first : load8 x d ≡ load8 m (d + k) = stored d (omega arith) ∙ ground arith in
          rw e (ground arith)
      | inr (inl (from, below)) ↦ let there = stored (p + k) (omega arith) in ground arith
      | inr (inr out) ↦ ground arith
    ]

-- A byte after a copy of `n` bytes to a lower address `d`, from `k` above it.
pub copy_bytes_lem :
    (n d k : ℕ) (m : Memory) (p : ℕ)
    → d + k + n ≤ 2 ^ 64
    → p < 2 ^ 64
    → load8 (copy_bytes n d (d + k) m) p
      ≡ (if leb d p && ltb p (d + n) then load8 m (p + k) else load8 m p)
unfolding copy_bytes
copy_bytes_lem zero d k m p room small = ground arith
copy_bytes_lem (suc n) d k m p room small =
    let from : d + k + 1 ≡ d + 1 + k = omega arith in
    let x = store8 d (load8 m (d + k)) m in
    rw (from, copy_bytes_lem n (d + 1) k x p (omega arith) small)
      (copy_step m p d k n room small x (λ q small_q.
        load8-store8_if m d q (load8 m (d + k)) (omega arith) small_q
        ∙ rw (mod-eq_of_lt (load8-lt m (d + k))) refl))

-- A byte after `n` words of 0 were written from `a` on.
pub clear_words_lem :
    (n a : ℕ) (m : Memory) (p : ℕ)
    → a + 4 * n ≤ 2 ^ 64
    → p < 2 ^ 64
    → load8 (clear_words n a m) p ≡ (if leb a p && ltb p (a + 4 * n) then 0 else load8 m p)
unfolding clear_words
clear_words_lem zero a m p room small = ground arith
clear_words_lem (suc n) a m p room small =
    let inner = store32_zero m a 0 (omega arith) refl p in
    let outer = store32-below m a p 0 (omega arith) small in
    rw (clear_words_lem n (a + 4) (store32 a 0 m) p (omega arith) small) (ground arith)

-- Words of the same bytes.
load32_eq :
    (m x : Memory) (a b : ℕ)
    → ((j : ℕ) → j < 4 → load8 x (a + j) ≡ load8 m (b + j))
    → load32 x a ≡ load32 m b
unfolding load32
load32_eq m x a b same =
    let first : load8 x a ≡ load8 m b =
      (let start : a + 0 ≡ a = omega arith in
        let start_b : b + 0 ≡ b = omega arith in
        sym (ap (load8 x) start) ∙ same 0 (omega arith) ∙ ap (load8 m) start_b) in
    rw (first, same 1 (omega arith), same 2 (omega arith), same 3 (omega arith)) refl

load32_zero : (x : Memory) (a : ℕ) → ((j : ℕ) → j < 4 → load8 x (a + j) ≡ 0) → load32 x a ≡ 0
unfolding load32
load32_zero x a null =
    let first : load8 x a ≡ 0 =
      (let start : a + 0 ≡ a = omega arith in sym (ap (load8 x) start) ∙ null 0 (omega arith)) in
    rw (first, null 1 (omega arith), null 2 (omega arith), null 3 (omega arith)) refl

-- A byte after both loops, for a copied size `t` and a cleared size `l` from `b` on.
scrolled_byte :
    (b t l : ℕ) (m : Memory) (q : ℕ)
    → b + t + l ≤ 2 ^ 64
    → l % 4 ≡ 0
    → q < t + l
    → load8 (clear_words (l / 4) (b + t) (copy_bytes t b (b + l) m)) (b + q)
      ≡ (if ltb q t then load8 m (b + q + l) else 0)
scrolled_byte b t l m q room words inside =
    rw
      (
        clear_words_lem (l / 4) (b + t) (copy_bytes t b (b + l) m) (b + q) (omega arith)
            (omega arith),
        copy_bytes_lem t b l m (b + q) (omega arith) (omega arith),
      )
      (ground arith)

module _ (fb : Framebuffer) (fits : Fits fb) (font : Font) (some_rows : 1 ≤ font.charsize)
    (high : 2 * font.charsize ≤ fb.height) (height_small : fb.height < 2 ^ 32)
    (words : font.charsize * fb.pitch % 4 ≡ 0) where
  size_split :
      (fb.height - font.charsize) * fb.pitch + font.charsize * fb.pitch ≡ fb.height * fb.pitch
  size_split =
      let whole : fb.height - font.charsize + font.charsize ≡ fb.height = omega arith in
      sym (add-mul (fb.height - font.charsize) font.charsize fb.pitch)
      ∙ ap (λ h. h * fb.pitch) whole

  module _ (m : Memory) (u v : ℕ) (in_u : u < fb.width) (in_v : v < fb.height) where
    pitch-positive : 4 ≤ fb.pitch
    pitch-positive = let apart = fits.rows_apart in omega arith

    scroll_memory_sizes :
        scroll_memory fb font m
        ≡ clear_words
            (font.charsize * fb.pitch / 4)
            ((fb.addr + kernel_virtual_base) % 2 ^ 64 + (fb.height - font.charsize) * fb.pitch)
            (copy_bytes
              ((fb.height - font.charsize) * fb.pitch)
              ((fb.addr + kernel_virtual_base) % 2 ^ 64)
              ((fb.addr + kernel_virtual_base) % 2 ^ 64 + font.charsize * fb.pitch)
              m)
    unfolding scroll_memory
    scroll_memory_sizes =
        let size = fits.size_small in
        let split = size_split in
        let positive = pitch-positive in
        let line_some : fb.pitch ≤ font.charsize * fb.pitch =
          let one_row = rows_le 0 font.charsize fb.pitch some_rows in omega arith in
        let rest_some : fb.pitch ≤ (fb.height - font.charsize) * fb.pitch =
          let one_row = rows_le 0 (fb.height - font.charsize) fb.pitch (omega arith) in
          omega arith in
        let rows : (fb.height + 2 ^ 32 - font.charsize) % 2 ^ 32 ≡ fb.height - font.charsize =
          omega arith in
        let line : font.charsize * fb.pitch % 2 ^ 32 ≡ font.charsize * fb.pitch = omega arith in
        let rest : (fb.height - font.charsize) * fb.pitch % 2 ^ 32
            ≡ (fb.height - font.charsize) * fb.pitch =
          omega arith in
        rw (rows, line, rest) refl

    row_above :
        v + font.charsize < fb.height
        → v * fb.pitch + fb.pitch ≤ (fb.height - font.charsize) * fb.pitch
    row_above above = rows_le v (fb.height - font.charsize) fb.pitch (omega arith)

    row_last : fb.height ≤ v + font.charsize → (fb.height - font.charsize) * fb.pitch ≤ v * fb.pitch
    row_last last =
        let next = rows_le (fb.height - font.charsize) (suc v) fb.pitch (omega arith) in omega arith

    unfoldable at_byte : ℕ → ℕ
    at_byte j = v * fb.pitch + u * 4 + j

    scrolled_at :
        (j : ℕ)
        → j < 4
        → load8 (scroll_memory fb font m) (place fb fits u v + j) ≡ (
            if ltb (at_byte j) ((fb.height - font.charsize) * fb.pitch)
            then load8 m
                ((fb.addr + kernel_virtual_base) % 2 ^ 64 + at_byte j + font.charsize * fb.pitch)
            else 0)
    unfolding at_byte place offset
    scrolled_at j less =
        let size = fits.size_small in
        let split = size_split in
        let room = fits.no_wrap in
        let apart = fits.rows_apart in
        let within = rows_le v fb.height fb.pitch in_v in
        let here : (fb.addr + kernel_virtual_base) % 2 ^ 64 + (v * fb.pitch + u * 4) + j
            ≡ (fb.addr + kernel_virtual_base) % 2 ^ 64 + (v * fb.pitch + u * 4 + j) =
          omega arith in
        rw (scroll_memory_sizes, here)
          (scrolled_byte ((fb.addr + kernel_virtual_base) % 2 ^ 64)
            ((fb.height - font.charsize) * fb.pitch) (font.charsize * fb.pitch) m
            (v * fb.pitch + u * 4 + j) (omega arith) words (omega arith))

    below_at :
        (j : ℕ)
        → (fb.addr + kernel_virtual_base) % 2 ^ 64 + at_byte j + font.charsize * fb.pitch
          ≡ place fb fits u (v + font.charsize) + j
    unfolding at_byte place offset
    below_at j = let rows = add-mul v font.charsize fb.pitch in omega arith

    byte_above :
        v + font.charsize < fb.height
        → (j : ℕ) → j < 4
        → load8 (scroll_memory fb font m) (place fb fits u v + j)
          ≡ load8 m (place fb fits u (v + font.charsize) + j)
    unfolding at_byte
    byte_above above j less =
        let fits_row = row_above above in
        let apart = fits.rows_apart in
        let copied : ltb (v * fb.pitch + u * 4 + j) ((fb.height - font.charsize) * fb.pitch)
            ≡ true =
          lt→ltb _ _ (omega arith) in
        scrolled_at j less ∙ rw copied (ap (load8 m) (below_at j))

    byte_last :
        fb.height ≤ v + font.charsize
        → (j : ℕ) → j < 4
        → load8 (scroll_memory fb font m) (place fb fits u v + j) ≡ 0
    unfolding at_byte
    byte_last last j less = let behind = row_last last in scrolled_at j less ∙ ground arith

  -- A pixel of the screen after scroll, of a font of 1 row or more of which two lines fit on the screen and whose lines take a multiple of 4 bytes, on a framebuffer at an address other than 0, of 32 bits a pixel, whose rows do not overlap and whose bytes, 2^32 at most, do not wrap around in the kernel's addresses: the pixel that was a line below, and black in the last line.
  pub get_pixel-scroll :
      (m : Memory) (u v : ℕ)
      → u < fb.width
      → v < fb.height
      → get_pixel fb u v (scroll_memory fb font m)
        ≡ (if ltb (v + font.charsize) fb.height then get_pixel fb u (v + font.charsize) m else 0)
  get_pixel-scroll m u v in_u in_v = elim (Bool-cases (ltb (v + font.charsize) fb.height)) [
    | inl above ↦ rw above (
        let inside = ltb→lt _ _ above in
        get_pixel-load32 fb fits u v (scroll_memory fb font m) in_u in_v
        ∙ load32_eq m (scroll_memory fb font m) (place fb fits u v)
            (place fb fits u (v + font.charsize)) (byte_above m u v in_u in_v inside)
        ∙ sym (get_pixel-load32 fb fits u (v + font.charsize) m in_u inside))
    | inr last ↦ rw last (
        get_pixel-load32 fb fits u v (scroll_memory fb font m) in_u in_v
        ∙ load32_zero (scroll_memory fb font m) (place fb fits u v)
            (byte_last m u v in_u in_v (ground arith)))
  ]
