-- ===== src/Fs/Minix/RootNames.antt =====
-- kernel/fs/minix/file.c: FindSectorOfPathDir and FindEntry of a name in the root directory.
use ly_system_os.Prelude.{
  ℕ, ◌+◌, ◌<◌, ◌≡◌, refl, sym, ap, ◌∙◌, ◌≢◌, inl, inr, false, Option, none, List, [], ◌∷◌, arith,
  ◌==◌, Bool-cases, length, set, length-set, replicate, get_or-set, All,
}
use ly_system_os.CString.{strncpy, text}
use ly_system_os.Fs.Disk.{Disk}
use ly_system_os.CString.Copy.{text-strncpy}
use ly_system_os.CString.Search.{strrchr_from, strrchr}
use ly_system_os.CString.Memory.{length-strncpy}
use ly_system_os.Fs.Minix.Layout.{root_sector, find_in}
use ly_system_os.Fs.Minix.Path.{slash, temp_path, find_sector, find_entry, sector_at, entry_at}
use ly_system_os.Fs.Minix.Entries.{text-agree}

-- A name without a slash that fits into a directory entry with its end.
pub record IsRootName (name : List ℕ) : Type 0 where
  pub plain : All (λ c. c ≢ slash) (text name)
  pub short : length (text name) < 30

-- The name buffer has 32 bytes.
abbrev pub IsUnset : List ℕ → Type 0
IsUnset unset = length unset ≡ 32

strrchr_from-Missing :
    (s : List ℕ) (i : ℕ) (last : Option ℕ)
    → All (λ c. c ≢ slash) (text s)
    → strrchr_from s i slash last ≡ last
unfolding strrchr_from
strrchr_from-Missing [] i last h = refl
strrchr_from-Missing (x ∷ xs) i last h = elim (Bool-cases (x == 0)) [
  | inl end ↦ rw (end, strrchr_from) refl
  | inr more ↦
      let parts : (x ≢ slash) × All (λ c. c ≢ slash) (text xs) = rw more at h in
      let other : (x == slash) ≡ false = ground (arith, parts.0) in
      rw (more, strrchr_from, other) (strrchr_from-Missing xs (i + 1) last parts.1)
]

copied_text :
    (b path : List ℕ)
    → length b ≡ 256
    → length (text path) < 255
    → text (set (strncpy b path 255) 255 0) ≡ text path
copied_text b path whole short =
    let copy : text (strncpy b path 255) ≡ text path =
      text-strncpy b path 255 short (rw whole (omega arith)) in
    sym (
      text-agree 255 (strncpy b path 255) (set (strncpy b path 255) 255 0)
        (λ k h. ground (
          arith,
          get_or-set (strncpy b path 255) 255 k 0 0
              (rw (length-strncpy b path 255, whole) (omega arith)),
        ))
        (rw copy short))
    ∙ copy

-- The copy of a path has its text.
pub text-temp_path : (path : List ℕ) → length (text path) < 255 → text (temp_path path) ≡ text path
unfolding temp_path
text-temp_path path short = copied_text (replicate 256 0) path refl short

pub length-temp_path : (path : List ℕ) → length (temp_path path) ≡ 256
unfolding temp_path
length-temp_path path =
    length-set (strncpy (replicate 256 0) path 255) 255 0
    ∙ length-strncpy (replicate 256 0) path 255

module _ (unset name : List ℕ) (h : IsRootName name) (u : IsUnset unset) where
  pub text-filename : text (strncpy unset name 30) ≡ text name
  text-filename = text-strncpy unset name 30 h.short (rw u (omega arith))

  pub find_sector-root :
      (d : Disk) → find_sector unset name d ≡ (root_sector, strncpy unset name 30)
  unfolding find_sector sector_at strrchr
  find_sector-root d = ap (sector_at unset name d) (
      strrchr_from-Missing (temp_path name) 0 none
        (rw (text-temp_path name (omega (arith, h.short))) h.plain))

  -- The entry of the name, by its search in the root directory.
  pub find_entry-root :
      (d : Disk)
      → find_entry unset name d
        ≡ entry_at (d root_sector) (find_in 16 0 (d root_sector) (strncpy unset name 30))
  unfolding find_entry
  find_entry-root d = rw (find_sector-root d) refl
