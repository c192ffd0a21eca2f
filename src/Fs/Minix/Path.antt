-- ===== src/Fs/Minix/Path.antt =====
-- kernel/fs/minix/file.c: FindSectorOfPathDir and FindEntry. `unset` stands for what the 32 bytes of the
-- uninitialised name buffer hold: the last two are never written.
use ly_system_os.Prelude.{
  ℕ, zero, suc, ◌+◌, ◌*◌, Option, none, some, List, [], ◌∷◌, ◌==◌, if◌then◌else◌, set, drop,
  replicate,
}
use ly_system_os.CString.{strncpy, next}
use ly_system_os.Fs.Disk.{Disk, read_sector}
use ly_system_os.CString.Search.{strrchr, strtok}
use ly_system_os.Fs.Minix.Layout.{root_sector, i_zone, is_dir, get_inode, entry_inode, find_in}

abbrev pub slash : ℕ
slash = 0x2F

-- The copy of the path on the stack.
unfoldable pub temp_path : List ℕ → List ℕ
temp_path path = set (strncpy (replicate 256 0) path 255) 255 0

-- Into the directory of the entry that was found, and on from its sector; 0 where there is none.
unfoldable pub enter : Option ℕ → ℕ → (ℕ → ℕ) → Disk → ℕ
enter none current_sector go d = 0
enter (some i) current_sector go d =
    let inode = get_inode (entry_inode (read_sector current_sector d) i) d in
    if is_dir inode then go (i_zone inode 0 * 2) else 0

-- The loop over the directories of a path, with `n` rounds of fuel.
unfoldable pub walk : ℕ → Option (List ℕ) → Option (List ℕ) → ℕ → Disk → ℕ
walk n none last_pos current_sector d = current_sector
walk zero (some token) last_pos current_sector d = 0
walk (suc n) (some token) last_pos current_sector d =
    let after = strtok none last_pos (slash ∷ []) in
    enter (find_in 16 0 (read_sector current_sector d) token) current_sector
      (λ next_sector. walk n after.0 after.1 next_sector d) d

-- The directory of a path with a slash at `last_slash`, which is not its first byte, and the name.
unfoldable pub find_below : List ℕ → List ℕ → ℕ → Disk → ℕ × List ℕ
find_below unset temp last_slash d =
    let cut = set temp last_slash 0 in
    let start = strtok (some cut) none (slash ∷ []) in
    (walk 256 start.0 start.1 root_sector d, strncpy unset (drop (last_slash + 1) cut) 30)

-- `FindSectorOfPathDir`, by the place of the last slash in the copy of the path.
unfoldable pub sector_at : List ℕ → List ℕ → Disk → Option ℕ → ℕ × List ℕ
sector_at unset path d none = (root_sector, strncpy unset path 30)
sector_at unset path d (some i) =
    if i == 0
    then (root_sector, strncpy unset (next path) 30)
    else find_below unset (temp_path path) i d

-- `FindSectorOfPathDir`: the sector of the directory, 0 if there is none, and the name in it.
unfoldable pub find_sector : List ℕ → List ℕ → Disk → ℕ × List ℕ
find_sector unset path d = sector_at unset path d (strrchr (temp_path path) slash)

-- The number of the inode of the entry that was found, 0 if there is none.
unfoldable pub entry_at : List ℕ → Option ℕ → ℕ
entry_at buf none = 0
entry_at buf (some i) = entry_inode buf i

-- `FindEntry`: the number of the inode, 0 if there is none.
unfoldable pub find_entry : List ℕ → List ℕ → Disk → ℕ
find_entry unset name d =
    let found = find_sector unset name d in
    let buf = read_sector found.0 d in
    if found.0 == 0 then 0 else entry_at buf (find_in 16 0 buf found.1)
