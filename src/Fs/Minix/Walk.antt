-- ===== src/Fs/Minix/Walk.antt =====
-- FindSectorOfPathDir of kernel/fs/minix/file.c against a plain description of a path: its parts between
-- slashes, followed one by one from the root.
use ly_system_os.Prelude.{
  ℕ, zero, suc, ◌+◌, ◌≤◌, ◌≡◌, refl, ap, ◌∙◌, ◌≢◌, false, Option, none, some, List, [], ◌∷◌, arith,
  ◌==◌, length, set, length-set, drop,
}
use ly_system_os.CString.{strncpy}
use ly_system_os.Fs.Disk.{Disk, read_sector}
use ly_system_os.CString.Search.{strrchr, token_start, strtok_at, strtok}
use ly_system_os.Fs.Minix.Layout.{root_sector, find_in}
use ly_system_os.Fs.Minix.Path.{slash, temp_path, walk, find_below, find_sector, sector_at, enter}
use ly_system_os.Fs.Minix.RootNames.{length-temp_path}
use ly_system_os.Fs.Minix.Parts.{
  split, parts, delimiters, parts_of, length_of, strtok_at-none, strtok_at-some,
}
use mathlib.Core.Path.{fun_ext}

-- The directory that the parts lead to from a sector, 0 if one of them is missing or no directory.
unfoldable pub descend : List (List ℕ) → ℕ → Disk → ℕ
descend [] sector d = sector
descend (part ∷ rest) sector d =
    enter (find_in 16 0 (read_sector sector d) part) sector
      (λ next_sector. descend rest next_sector d) d

follow :
    (n : ℕ) (s : List ℕ) (ps : List (List ℕ))
    → parts s ≡ ps
    → (sector : ℕ) (d : Disk) → length s ≤ suc n
    → ((last_pos : Option (List ℕ))
        → length_of last_pos ≤ n
        → (next_sector : ℕ)
        → walk n (strtok_at last_pos delimiters).0 (strtok_at last_pos delimiters).1 next_sector d
          ≡ descend (parts_of last_pos) next_sector d)
    → walk (suc n) (strtok_at (some s) delimiters).0 (strtok_at (some s) delimiters).1 sector d
      ≡ descend (parts s) sector d
unfolding walk descend strtok
follow n s [] e sector d fuel ih = rw (strtok_at-none s e, e) refl
follow n s (part ∷ rest) e sector d fuel ih =
    let (last_pos, token, after, shorter) = strtok_at-some s part rest e in
    rw (token, e)
      (ap (λ go. enter (find_in 16 0 (read_sector sector d) part) sector go d)
        (fun_ext (λ next_sector.
          ih last_pos (omega (arith, shorter)) next_sector
          ∙ ap (λ ps. descend ps next_sector d) after)))

-- The loop over the directories, with fuel for the bytes that are left, follows the parts.
walk-descend :
    (n : ℕ) (last_pos : Option (List ℕ)) (sector : ℕ) (d : Disk)
    → length_of last_pos ≤ n
    → walk n (strtok_at last_pos delimiters).0 (strtok_at last_pos delimiters).1 sector d
      ≡ descend (parts_of last_pos) sector d
unfolding walk descend strtok_at split token_start
walk-descend zero none sector d fuel = refl
walk-descend (suc n) none sector d fuel = refl
walk-descend zero (some []) sector d fuel = refl
walk-descend zero (some (c ∷ cs)) sector d fuel = absurd (omega arith)
walk-descend (suc n) (some s) sector d fuel =
    follow n s (parts s) refl sector d fuel
      (λ last_pos short next_sector. walk-descend n last_pos next_sector d short)

-- FindSectorOfPathDir of a path whose last slash is at `i`, not its first byte: the loop ends, its sector is that of following the parts of the path before that slash from the root, 0 if one is missing or no directory, and the name is what stands behind the slash.
pub find_sector-descend :
    (unset path : List ℕ) (d : Disk) (i : ℕ)
    → strrchr (temp_path path) slash ≡ some i
    → i ≢ 0
    → find_sector unset path d ≡ (
      descend (parts (set (temp_path path) i 0)) root_sector d,
      strncpy unset (drop (i + 1) (set (temp_path path) i 0)) 30,
    )
unfolding find_sector sector_at find_below strtok
find_sector-descend unset path d i last inner =
    let later : (i == 0) ≡ false = ground arith in
    let walked =
      walk-descend 256 (some (set (temp_path path) i 0)) root_sector d
        (rw length-cut (omega arith)) in
    ap (sector_at unset path d) last
    ∙ rw later (ap (λ s. (s, strncpy unset (drop (i + 1) (set (temp_path path) i 0)) 30)) walked)
  where
    length-cut : length (set (temp_path path) i 0) ≡ 256
    length-cut = length-set (temp_path path) i 0 ∙ length-temp_path path
