-- ===== src/Fs/Minix/Bitmaps.antt =====
-- kernel/fs/minix/inode.c and file.c: taking and giving back inodes and zones.
use ly_system_os.Prelude.{
  ℕ, zero, suc, ◌+◌, ◌-◌, ◌*◌, ◌%◌, ◌^◌, true, false, not, ◌&&◌, Option, none, some, List, leb,
  ◌==◌, if◌then◌else◌, set, get_or,
}
use ly_system_os.Prelude.Bits.{test_bit, set_bit}
use ly_system_os.Prelude.Bitmap.{bit, clear_at}
use ly_system_os.Fs.Disk.{Disk, read_sector, write_sector}

abbrev pub inode_bitmap_lba : ℕ
inode_bitmap_lba = 2

abbrev pub zone_bitmap_lba : ℕ
zone_bitmap_lba = 3

-- The loop over the bits of byte `i`, from `bit` on with `n` left: the first clear one whose inode
-- number is above 2.
unfoldable pub inode_bit_from : ℕ → ℕ → ℕ → ℕ → Option ℕ
inode_bit_from zero bit byte i = none
inode_bit_from (suc n) bit byte i =
    let found = (i * 8 + bit + 1) % 2 ^ 16 in
    elim (not (test_bit byte bit) && not (leb found 2)) [
      | true ↦ some bit
      | false ↦ inode_bit_from n (bit + 1) byte i
    ]

-- The loop over the bytes, from `i` on with `n` left: the byte and the bit found.
unfoldable pub inode_byte_from : ℕ → ℕ → List ℕ → Option (ℕ × ℕ)
inode_byte_from zero i bitmap = none
inode_byte_from (suc n) i bitmap =
    let byte = get_or bitmap i 0 in
    let rest = inode_byte_from n (i + 1) bitmap in
    if not (byte == 0xFF)
    then elim (inode_bit_from 8 0 byte i) [ none ↦ rest | some bit ↦ some (i, bit) ]
    else rest

-- What `minix_AllocateInode` does with the byte and the bit it found.
unfoldable pub take_inode : Disk → Option (ℕ × ℕ) → ℕ × Disk
take_inode d none = (0, d)
take_inode d (some (i, bit)) =
    let bitmap = read_sector inode_bitmap_lba d in
    (
      (i * 8 + bit + 1) % 2 ^ 16,
      write_sector inode_bitmap_lba (set bitmap i (set_bit (get_or bitmap i 0) bit)) d,
    )

-- `minix_AllocateInode`: the inode's number, 0 if there is none.
unfoldable pub allocate_inode : Disk → ℕ × Disk
allocate_inode d = take_inode d (inode_byte_from 512 0 (read_sector inode_bitmap_lba d))

-- `minix_FreeInode`, of a `uint16_t`.
unfoldable pub free_inode : ℕ → Disk → Disk
free_inode inode_no d =
    if inode_no == 0
    then d
    else write_sector inode_bitmap_lba (clear_at (read_sector inode_bitmap_lba d) (inode_no - 1)) d

-- `FreeZone`, of a `uint16_t`.
unfoldable pub free_zone : ℕ → Disk → Disk
free_zone zone_no d =
    if zone_no == 0
    then d
    else write_sector zone_bitmap_lba (clear_at (read_sector zone_bitmap_lba d) zone_no) d

-- The step of `minix_DeleteFile` and `minix_DeleteDir` that gives the inode back in the bitmap.
unfoldable pub delete_inode_bit : ℕ → Disk → Disk
delete_inode_bit target_inode d =
    write_sector inode_bitmap_lba (clear_at (read_sector inode_bitmap_lba d) target_inode) d
