-- ===== src/Fs/Minix/Moves.antt =====
-- kernel/fs/minix/file.c: renaming and copying files.
use ly_system_os.Prelude.{ℕ, not, Option, none, some, List, ◌==◌, if◌then◌else◌}
use ly_system_os.Prelude.Int.{ℤ, pos, pos_part, ltb_ℤ, neg, ◌==ℤ◌}
use ly_system_os.Prelude.Errno.{esuccess, enoent, eexist}
use ly_system_os.Fs.Disk.{Disk, read_sector, write_sector}
use ly_system_os.Fs.Minix.Layout.{entry_inode, find_in, clear_entry}
use ly_system_os.Fs.Minix.Path.{find_sector, find_entry}
use ly_system_os.Fs.Minix.Files.{add_entry, create_file, read_file, write_file}

-- `minix_RenameFile` where the entry `i` of the old directory was found: it is cleared first.
unfoldable pub move_entry : ℕ → ℕ → ℕ → List ℕ → Disk → ℤ × Disk
move_entry old_dir_sector i new_dir_sector new_filename d =
    let buf = read_sector old_dir_sector d in
    let target_inode = entry_inode buf i in
    add_entry new_dir_sector target_inode new_filename
      (write_sector old_dir_sector (clear_entry buf i) d)

-- `minix_RenameFile` behind the search of the old entry.
unfoldable pub rename_at : ℕ → ℕ → List ℕ → Disk → Option ℕ → ℤ × Disk
rename_at old_dir_sector new_dir_sector new_filename d none = (neg enoent, d)
rename_at old_dir_sector new_dir_sector new_filename d (some i) =
    move_entry old_dir_sector i new_dir_sector new_filename d

-- `minix_RenameFile`
unfoldable pub rename_file : List ℕ → List ℕ → List ℕ → Disk → ℤ × Disk
rename_file unset old_name new_name d =
    let old = find_sector unset old_name d in
    let new = find_sector unset new_name d in
    if old.0 == 0
    then (neg enoent, d)
    else if new.0 == 0
    then (neg enoent, d)
    else if not (find_entry unset new_name d == 0)
    then (neg eexist, d)
    else rename_at old.0 new.0 new.1 d (find_in 16 0 (read_sector old.0 d) old.1)

-- `minix_CopyFile`, with what its uninitialised buffer of 512 bytes holds.
unfoldable pub copy_file : List ℕ → List ℕ → List ℕ → List ℕ → Disk → ℤ × Disk
copy_file unset unset_data source dest d =
    let (bytes_read, data_buffer) = read_file unset source unset_data 512 d in
    let (res, created) = create_file unset unset dest d in
    let (bytes_written, written) =
      write_file unset dest data_buffer (pos_part bytes_read) created in
    if ltb_ℤ bytes_read (pos 0)
    then (bytes_read, d)
    else if not (res ==ℤ pos esuccess)
    then (res, created)
    else if not (bytes_written ==ℤ bytes_read)
    then (neg 1, written)
    else (pos esuccess, written)
