-- ===== src/Fs/Minix/Files.antt =====
-- kernel/fs/minix/file.c: making, deleting, reading and writing files. An `int` parameter is its 32 bits.
use ly_system_os.Prelude.{
  ℕ, zero, suc, ◌+◌, ◌-◌, ◌*◌, ◌%◌, ◌^◌, Bool, not, ◌&&◌, ◌||◌, Option, none, some, List, ltb, ◌==◌,
  if◌then◌else◌, set, get_or,
}
use ly_system_os.Prelude.Int.{ℤ, pos, neg, ◌==ℤ◌, int32}
use ly_system_os.Prelude.Bits.{test_bit, set_bit}
use ly_system_os.Prelude.Bitmap.{bit}
use ly_system_os.Prelude.Errno.{esuccess, enoent, eacces, eexist, enospc}
use ly_system_os.CString.{codes, strcmp}
use ly_system_os.Fs.Disk.{Disk, read_sector, write_sector, blank_sector}
use ly_system_os.Fs.Minix.Bitmaps.{zone_bitmap_lba, allocate_inode, free_zone, delete_inode_bit}
use ly_system_os.Prelude.Bytes.{get16, get32, put16, put32, write_at}
use ly_system_os.CString.Memory.{memcpy, memset}
use ly_system_os.Fs.Minix.Layout.{
  sizeof_inode, i_size, i_zone, inode_sector, inode_offset, get_inode, edit_inode, entry_inode,
  find_in, free_slot, set_entry, clear_entry,
}
use ly_system_os.Fs.Minix.Path.{find_sector, find_entry}

-- The last step of `minix_CreateFile`, `minix_CreateDir` and `minix_RenameFile`: the first free entry of
-- a directory, if there is one, gets the inode and the name.
unfoldable pub add_at : ℕ → ℕ → List ℕ → Disk → Option ℕ → ℤ × Disk
add_at dir_sector inode_no filename d none = (neg enospc, d)
add_at dir_sector inode_no filename d (some i) = (
  pos esuccess,
  write_sector dir_sector (set_entry (read_sector dir_sector d) i inode_no filename) d,
)

unfoldable pub add_entry : ℕ → ℕ → List ℕ → Disk → ℤ × Disk
add_entry dir_sector inode_no filename d =
    add_at dir_sector inode_no filename d (free_slot 16 0 (read_sector dir_sector d))

-- The bytes of a new file's inode.
unfoldable pub file_inode : List ℕ → List ℕ
file_inode b = set (put32 (put16 (memset b 0 sizeof_inode) 0 0x81ED) 4 0) 13 1

-- `minix_CreateFile`, with what its own uninitialised buffer holds, and with what that of `FindEntry`
-- does.
unfoldable pub create_file : List ℕ → List ℕ → List ℕ → Disk → ℤ × Disk
create_file own unset name d =
    let found = find_sector own name d in
    let (inode_no, taken) = allocate_inode d in
    if not (find_entry unset name d == 0)
    then (neg eexist, d)
    else if found.0 == 0
    then (neg enoent, d)
    else if inode_no == 0
    then (neg enospc, taken)
    else add_entry found.0 inode_no found.1 (edit_inode inode_no file_inode taken)

-- The loop of `minix_DeleteFile` over the zones of the inode at `offset` in `buf`, from zone `z` on
-- with `n` left.
unfoldable pub free_zones : ℕ → ℕ → ℕ → List ℕ → Disk → List ℕ × Disk
free_zones zero z offset buf d = (buf, d)
free_zones (suc n) z offset buf d =
    let zone = get16 buf (offset + (14 + 2 * z)) in
    let in_use = not (zone == 0) in
    free_zones n (z + 1) offset (if in_use then put16 buf (offset + (14 + 2 * z)) 0 else buf)
      (if in_use then free_zone zone d else d)

-- The part of `minix_DeleteFile` that frees the zones of the inode and clears it.
unfoldable pub wipe_inode : ℕ → Disk → Disk
wipe_inode target_inode d =
    let sector = inode_sector target_inode in
    let offset = inode_offset target_inode in
    let freed = free_zones 7 0 offset (read_sector sector d) d in
    write_sector sector (write_at offset (λ b. memset b 0 sizeof_inode) freed.0) freed.1

-- `minix_DeleteFile` where the entry `i` of the directory was found.
unfoldable pub delete_entry : ℕ → ℕ → ℕ → Disk → Disk
delete_entry dir_sector i target_inode d =
    let given = delete_inode_bit target_inode (wipe_inode target_inode d) in
    write_sector dir_sector (clear_entry (read_sector dir_sector given) i) given

-- `"."` or `".."`
unfoldable pub is_dots : List ℕ → Bool
is_dots filename =
    (strcmp filename (codes ".") ==ℤ pos 0) || (strcmp filename (codes "..") ==ℤ pos 0)

-- `minix_DeleteFile` behind the search of the entry.
unfoldable pub delete_at : ℕ → Disk → Option ℕ → ℤ × Disk
delete_at dir_sector d none = (neg enoent, d)
delete_at dir_sector d (some i) =
    (pos esuccess, delete_entry dir_sector i (entry_inode (read_sector dir_sector d) i) d)

-- `minix_DeleteFile`
unfoldable pub delete_file : List ℕ → List ℕ → Disk → ℤ × Disk
delete_file unset name d =
    let found = find_sector unset name d in
    if found.0 == 0
    then (neg enoent, d)
    else if is_dots found.1
    then (neg eacces, d)
    else delete_at found.0 d (find_in 16 0 (read_sector found.0 d) found.1)

-- `x > 0` for the bits of an `int`.
unfoldable pub is_positive : ℕ → Bool
is_positive x = ltb 0 x && ltb x (2 ^ 31)

-- `minix_ReadFile`, behind the search of the inode: the result, and the bytes of `output`.
unfoldable pub read_inode_data : List ℕ → List ℕ → ℕ → Disk → ℤ × List ℕ
read_inode_data inode output count d =
    let short = ltb (i_size inode) count in
    let actual_to_read = if short then i_size inode else count in
    let padding_needed = if short then count - i_size inode else 0 in
    let copied =
      if is_positive actual_to_read && not (i_zone inode 0 == 0)
      then memcpy output (read_sector (i_zone inode 0 * 2) d) actual_to_read
      else output in
    (
      int32 actual_to_read,
      if is_positive padding_needed
          then write_at actual_to_read (λ b. memset b 0 padding_needed) copied
          else copied,
    )

-- `minix_ReadFile`
unfoldable pub read_file : List ℕ → List ℕ → List ℕ → ℕ → Disk → ℤ × List ℕ
read_file unset name output count d =
    let inode_no = find_entry unset name d in
    if inode_no == 0
    then (neg enoent, output)
    else read_inode_data (get_inode inode_no d) output count d

-- The loops that take a zone, as in `minix_WriteFile` and `minix_CreateDir`: over the bits of a byte,
-- from `bit` on with `n` left, and over the bytes, from `i` on with `n` left.
unfoldable pub zone_bit_from : ℕ → ℕ → ℕ → Option ℕ
zone_bit_from zero bit byte = none
zone_bit_from (suc n) bit byte =
    let rest = zone_bit_from n (bit + 1) byte in if not (test_bit byte bit) then some bit else rest

unfoldable pub zone_byte_from : ℕ → ℕ → List ℕ → Option (ℕ × ℕ)
zone_byte_from zero i bitmap = none
zone_byte_from (suc n) i bitmap =
    let byte = get_or bitmap i 0 in
    let rest = zone_byte_from n (i + 1) bitmap in
    if not (byte == 0xFF)
    then elim (zone_bit_from 8 0 byte) [ none ↦ rest | some bit ↦ some (i, bit) ]
    else rest

unfoldable pub take_zone : Disk → Option (ℕ × ℕ) → Option (ℕ × Disk)
take_zone d none = none
take_zone d (some (i, bit)) =
    let bitmap = read_sector zone_bitmap_lba d in
    some (
      (i * 8 + bit) % 2 ^ 16,
      write_sector zone_bitmap_lba (set bitmap i (set_bit (get_or bitmap i 0) bit)) d,
    )

unfoldable pub allocate_zone : Disk → Option (ℕ × Disk)
allocate_zone d = take_zone d (zone_byte_from 512 0 (read_sector zone_bitmap_lba d))

-- `minix_WriteFile` behind the label `zone_found`: `buf` is the sector of the inode at `offset`.
unfoldable pub write_data : ℕ → ℕ → List ℕ → List ℕ → ℕ → Disk → ℤ × Disk
write_data sector offset buf input count d =
    let data_lba = get16 buf (offset + 14) * 2 in
    let to_write = if ltb 512 count && ltb count (2 ^ 31) then 512 else count in
    let written = write_sector data_lba (memcpy blank_sector input to_write) d in
    let sized =
      if ltb (get32 buf (offset + 4)) to_write then put32 buf (offset + 4) to_write else buf in
    (int32 to_write, write_sector sector sized written)

-- `minix_WriteFile` of an inode without a zone, behind the search for a free one.
unfoldable pub write_new : ℕ → ℕ → List ℕ → List ℕ → ℕ → Disk → Option (ℕ × Disk) → ℤ × Disk
write_new sector offset buf input count d none = (neg enospc, d)
write_new sector offset buf input count d (some (zone, taken)) =
    write_data sector offset (put16 buf (offset + 14) zone) input count taken

-- `minix_WriteFile`
unfoldable pub write_file : List ℕ → List ℕ → List ℕ → ℕ → Disk → ℤ × Disk
write_file unset name input count d =
    let inode_no = find_entry unset name d in
    let sector = inode_sector inode_no in
    let offset = inode_offset inode_no in
    let buf = read_sector sector d in
    if inode_no == 0
    then (neg enoent, d)
    else if get16 buf (offset + 14) == 0
    then write_new sector offset buf input count d (allocate_zone d)
    else write_data sector offset buf input count d
