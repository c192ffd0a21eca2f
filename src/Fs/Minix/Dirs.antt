-- ===== src/Fs/Minix/Dirs.antt =====
-- kernel/fs/minix/file.c: making, deleting and listing directories.
use ly_system_os.Prelude.{
  ℕ, zero, suc, ◌+◌, ◌*◌, not, ◌||◌, Option, none, some, List, [], ◌∷◌, ◌++◌, ltb, leb, ◌==◌,
  if◌then◌else◌, set,
}
use ly_system_os.Prelude.Int.{ℤ, pos, neg, ◌==ℤ◌}
use ly_system_os.Prelude.Errno.{esuccess, eperm, enoent, eexist, enotdir, enospc}
use ly_system_os.CString.{codes, strlen, strcmp}
use ly_system_os.Fs.Disk.{Disk, read_sector, write_sector, blank_sector}
use ly_system_os.Fs.Minix.Bitmaps.{allocate_inode, free_zone, delete_inode_bit}
use ly_system_os.Prelude.Bytes.{put16, put32}
use ly_system_os.CString.Memory.{memset}
use ly_system_os.Fs.Minix.Layout.{
  root_sector, sizeof_inode, i_size, i_zone, is_dir, get_inode, edit_inode, entry_inode, entry_name,
  set_entry, clear_entry,
}
use ly_system_os.Fs.Minix.Path.{find_sector, find_entry}
use ly_system_os.Fs.Minix.Files.{add_entry, is_dots, allocate_zone}

-- The bytes of a new directory's inode.
unfoldable pub dir_inode : ℕ → List ℕ → List ℕ
dir_inode zone b = put16 (set (put32 (put16 (memset b 0 sizeof_inode) 0 0x41ED) 4 64) 13 2) 14 zone

-- The first sector of a new directory.
unfoldable pub dir_data : ℕ → ℕ → List ℕ
dir_data inode_no parent_inode =
    set_entry (set_entry (memset blank_sector 0 512) 0 inode_no (codes ".")) 1 parent_inode
      (codes "..")

-- `minix_CreateDir` behind the label `zone_allocated`.
unfoldable pub make_dir : ℕ → List ℕ → ℕ → ℕ → Disk → ℤ × Disk
make_dir dir_sector filename inode_no zone d =
    let described = edit_inode inode_no (dir_inode zone) d in
    let parent_inode = entry_inode (read_sector dir_sector described) 0 in
    let filled = write_sector (zone * 2) (dir_data inode_no parent_inode) described in
    add_entry dir_sector inode_no filename filled

-- `minix_CreateDir`
unfoldable pub create_dir : List ℕ → List ℕ → Disk → ℤ × Disk
create_dir unset name d =
    let found = find_sector unset name d in
    let (inode_no, taken) = allocate_inode d in
    if not (find_entry unset name d == 0)
    then (neg eexist, d)
    else if found.0 == 0
    then (neg enoent, d)
    else if leb inode_no 2
    then (neg enospc, taken)
    else elim (allocate_zone taken) [
      | none ↦ (neg enospc, taken)
      | some (zone, claimed) ↦ make_dir found.0 found.1 inode_no zone claimed
    ]

-- The last loop of `minix_DeleteDir`: the first entry with the number of the inode, in use or not.
unfoldable pub find_inode : ℕ → ℕ → List ℕ → ℕ → Option ℕ
find_inode zero i buf inode_no = none
find_inode (suc n) i buf inode_no =
    let rest = find_inode n (i + 1) buf inode_no in
    if entry_inode buf i == inode_no then some i else rest

-- `minix_DeleteDir` behind its checks.
unfoldable pub remove_dir : ℕ → ℕ → Disk → Disk
remove_dir dir_sector inode_no d =
    let zone = i_zone (get_inode inode_no d) 0 in
    let freed = if not (zone == 0) then free_zone zone d else d in
    let wiped = edit_inode inode_no (λ b. memset b 0 sizeof_inode) freed in
    let given = delete_inode_bit inode_no wiped in
    let buf = read_sector dir_sector given in
    elim (find_inode 16 0 buf inode_no) [
      | none ↦ given
      | some i ↦ write_sector dir_sector (clear_entry buf i) given
    ]

-- `minix_DeleteDir`
unfoldable pub delete_dir : List ℕ → List ℕ → Disk → ℤ × Disk
delete_dir unset name d =
    let found = find_sector unset name d in
    let inode_no = find_entry unset name d in
    let inode = get_inode inode_no d in
    if found.0 == 0
    then (neg enoent, d)
    else if is_dots found.1
    then (neg eperm, d)
    else if inode_no == 0
    then (neg enoent, d)
    else if not (is_dir inode)
    then (neg enotdir, d)
    else if ltb 64 (i_size inode)
    then (neg eperm, d)
    else (pos esuccess, remove_dir found.0 inode_no d)

-- What `minix_ListDir` prints, line by line.
pub data Line : Type 0 where
  not_found : Line
  not_a_dir : List ℕ → Line
  heading : List ℕ → Line
  entry : ℕ → List ℕ → Line
  ending : Line

-- The loop over the entries of a sector, from `i` on with `n` left.
unfoldable pub list_from : ℕ → ℕ → List ℕ → List Line
list_from zero i buf = []
list_from (suc n) i buf =
    let rest = list_from n (i + 1) buf in
    if not (entry_inode buf i == 0)
    then entry (entry_inode buf i) (entry_name buf i) ∷ rest
    else rest

unfoldable pub list_sector : ℕ → List ℕ → Disk → List Line
list_sector sector title d =
    heading title ∷ (list_from 16 0 (read_sector sector d) ++ (ending ∷ []))

-- `minix_ListDir` of a name; `none` is NULL.
unfoldable pub list_dir : List ℕ → Option (List ℕ) → Disk → List Line
list_dir unset none d = list_sector root_sector (codes "/") d
list_dir unset (some name) d =
    let inode_no = find_entry unset name d in
    let inode = get_inode inode_no d in
    let title = if ltb 0 (strlen name) then name else codes "/" in
    if (strcmp name (codes "/") ==ℤ pos 0) || (strcmp name [] ==ℤ pos 0)
    then list_sector root_sector title d
    else if inode_no == 0
    then not_found ∷ []
    else if not (is_dir inode)
    then not_a_dir name ∷ []
    else list_sector (i_zone inode 0 * 2) title d
