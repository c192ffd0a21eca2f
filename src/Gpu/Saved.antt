-- ===== src/Gpu/Saved.antt =====
-- The loop of mouse_handler that saves the picture under the pointer.
use ly_system_os.Prelude.{
  ℕ, zero, suc, ◌+◌, ◌*◌, ◌≤◌, ◌<◌, ◌≡◌, refl, ◌∙◌, ◌⊎◌, inl, inr, Bool, ◌&&◌, List, arith, ltb,
  leb, ◌==◌, if◌then◌else◌, length, length-set, get_or, get_or-set,
}
use ly_system_os.Gpu.{Framebuffer, get_pixel}
use ly_system_os.Gpu.Mouse.{width_screen, height_screen, mouse_w, save_one, save_row, save_rows}
use ly_system_os.Ram.{Memory}

-- Whether a pixel that the handler counts from the pointer's position is on its screen.
unfoldable pub on_screen : ℕ → ℕ → ℕ → ℕ → Bool
on_screen mx my x y = ltb (mx + x) width_screen && ltb (my + y) height_screen

module _ (fb : Framebuffer) (mx my : ℕ) (m : Memory) where
  length-save_one : (y x : ℕ) (bg : List ℕ) → length (save_one fb mx my m y x bg) ≡ length bg
  unfolding save_one
  length-save_one y x bg =
      ground (arith, length-set bg (y * mouse_w + x) (get_pixel fb (mx + x) (my + y) m))

  length-save_row : (y x n : ℕ) (bg : List ℕ) → length (save_row fb mx my m y x n bg) ≡ length bg
  unfolding save_row
  length-save_row y x zero bg = refl
  length-save_row y x (suc n) bg =
      length-save_row y (x + 1) n (save_one fb mx my m y x bg) ∙ length-save_one y x bg

  save_one_same :
      (y x : ℕ) (bg : List ℕ)
      → length bg ≡ 198
      → y < 18
      → x < 11
      → get_or (save_one fb mx my m y x bg) (y * mouse_w + x) 0 ≡ (
          if on_screen mx my x y
          then get_pixel fb (mx + x) (my + y) m
          else get_or bg (y * mouse_w + x) 0)
  unfolding save_one on_screen
  save_one_same y x bg whole high wide =
      let stored =
        get_or-set bg (y * mouse_w + x) (y * mouse_w + x) (get_pixel fb (mx + x) (my + y) m) 0
          (omega arith) in
      ground arith

  -- The cell of column `j` and row `i` once a pixel, a row, and the rows are saved.
  module _ (i j : ℕ) (in_row : j < 11) where
    same_cell : (y x : ℕ) → x < 11 → ((i ≡ y) × (j ≡ x)) ⊎ ¬ (y * mouse_w + x ≡ i * mouse_w + j)
    same_cell y x wide = ground arith

    save_one_other :
        (y x : ℕ) (bg : List ℕ)
        → length bg ≡ 198
        → y < 18
        → x < 11
        → ¬ (y * mouse_w + x ≡ i * mouse_w + j)
        → get_or (save_one fb mx my m y x bg) (i * mouse_w + j) 0 ≡ (
            if (i == y) && (j == x) && on_screen mx my j i
            then get_pixel fb (mx + j) (my + i) m
            else get_or bg (i * mouse_w + j) 0)
    unfolding save_one on_screen
    save_one_other y x bg whole high wide apart =
        let stored =
          get_or-set bg (y * mouse_w + x) (i * mouse_w + j) (get_pixel fb (mx + x) (my + y) m) 0
            (omega arith) in
        ground arith

    save_one-cell :
        (y x : ℕ) (bg : List ℕ)
        → length bg ≡ 198
        → y < 18
        → x < 11
        → get_or (save_one fb mx my m y x bg) (i * mouse_w + j) 0 ≡ (
            if (i == y) && (j == x) && on_screen mx my j i
            then get_pixel fb (mx + j) (my + i) m
            else get_or bg (i * mouse_w + j) 0)
    unfolding save_one on_screen
    save_one-cell y x bg whole high wide = elim (same_cell y x wide) [
      | inl (e, f) ↦ rw (e, f) (let same = save_one_same y x bg whole high wide in ground arith)
      | inr apart ↦ save_one_other y x bg whole high wide apart
    ]

    save_row-cell :
        (y x n : ℕ) (bg : List ℕ)
        → length bg ≡ 198
        → x + n ≤ 11
        → y < 18
        → get_or (save_row fb mx my m y x n bg) (i * mouse_w + j) 0 ≡ (
            if (i == y) && (leb x j && ltb j (x + n)) && on_screen mx my j i
            then get_pixel fb (mx + j) (my + i) m
            else get_or bg (i * mouse_w + j) 0)
    unfolding save_row
    save_row-cell y x zero bg whole wide high = ground arith
    save_row-cell y x (suc n) bg whole wide high =
        rw
          (
            save_row-cell y (x + 1) n (save_one fb mx my m y x bg) (length-save_one y x bg ∙ whole)
                (omega arith) high,
            save_one-cell y x bg whole high (omega arith),
          )
          (ground arith)

    pub save_rows-cell :
        (y n : ℕ) (bg : List ℕ)
        → length bg ≡ 198
        → y + n ≤ 18
        → get_or (save_rows fb mx my m y n bg) (i * mouse_w + j) 0 ≡ (
            if leb y i && ltb i (y + n) && on_screen mx my j i
            then get_pixel fb (mx + j) (my + i) m
            else get_or bg (i * mouse_w + j) 0)
    unfolding save_rows
    save_rows-cell y zero bg whole high = ground arith
    save_rows-cell y (suc n) bg whole high =
        rw
          (
            save_rows-cell (y + 1) n (save_row fb mx my m y 0 mouse_w bg)
                (length-save_row y 0 mouse_w bg ∙ whole) (omega arith),
            save_row-cell y 0 mouse_w bg whole (omega arith) (omega arith),
          )
          (ground arith)
