-- ===== src/Fs/Minix/Layout.antt =====
-- include/LySys/fs/minix.h and kernel/fs/minix/inode.c: inodes and directory entries in the bytes of a
-- sector. A `struct minix2_inode` is the list of its bytes.
use ly_system_os.Prelude.{
  ℕ, zero, suc, ◌+◌, ◌-◌, ◌*◌, ◌/◌, ◌%◌, ◌^◌, bit_and, Bool, not, ◌&&◌, Option, none, some, List,
  ◌==◌, if◌then◌else◌, drop, replicate,
}
use ly_system_os.Prelude.Int.{pos, ◌==ℤ◌}
use ly_system_os.CString.{strncpy, strcmp}
use ly_system_os.Fs.Disk.{Disk, read_sector, write_sector}
use ly_system_os.Prelude.Bytes.{get16, get32, put16, write_at}
use ly_system_os.CString.Memory.{memcpy, memset}

abbrev pub root_sector : ℕ
root_sector = 438

-- sizeof(struct minix2_inode): the fields take two bytes more than the 32 between one inode and the next.
abbrev pub sizeof_inode : ℕ
sizeof_inode = 34

unfoldable pub i_mode : List ℕ → ℕ
i_mode inode = get16 inode 0

unfoldable pub i_size : List ℕ → ℕ
i_size inode = get32 inode 4

unfoldable pub i_zone : List ℕ → ℕ → ℕ
i_zone inode k = get16 inode (14 + 2 * k)

unfoldable pub is_dir : List ℕ → Bool
is_dir inode = bit_and (i_mode inode) 0x4000 == 0x4000

-- Where the inode of a number stands. For number 0 the offset is -32 as a `uint32_t`.
unfoldable pub inode_sector : ℕ → ℕ
inode_sector inode_no = 10 + (inode_no - 1) / 16

unfoldable pub inode_offset : ℕ → ℕ
inode_offset inode_no = if inode_no == 0 then 2 ^ 32 - 32 else (inode_no - 1) % 16 * 32

-- `minix_GetInode` and `minix_ReadInode`
unfoldable pub get_inode : ℕ → Disk → List ℕ
get_inode inode_no d =
    memcpy (replicate sizeof_inode 0)
      (drop (inode_offset inode_no) (read_sector (inode_sector inode_no) d)) sizeof_inode

-- A change of the bytes of an inode, from its offset in the sector on.
unfoldable pub edit_inode : ℕ → (List ℕ → List ℕ) → Disk → Disk
edit_inode inode_no f d =
    let sector = inode_sector inode_no in
    write_sector sector (write_at (inode_offset inode_no) f (read_sector sector d)) d

-- `minix_WriteInode`
unfoldable pub write_inode : ℕ → List ℕ → Disk → Disk
write_inode inode_no inode d = edit_inode inode_no (λ b. memcpy b inode sizeof_inode) d

-- The directory entry `i` of a sector: the number of its inode, and its name.
unfoldable pub entry_inode : List ℕ → ℕ → ℕ
entry_inode buf i = get16 buf (i * 32)

unfoldable pub entry_name : List ℕ → ℕ → List ℕ
entry_name buf i = drop (i * 32 + 2) buf

-- `entries[i].inode != 0 && strcmp(entries[i].name, name) == 0`
unfoldable pub names : List ℕ → List ℕ → ℕ → Bool
names buf name i = not (entry_inode buf i == 0) && (strcmp (entry_name buf i) name ==ℤ pos 0)

-- The search of an entry by its name, from `i` on with `n` left.
unfoldable pub find_in : ℕ → ℕ → List ℕ → List ℕ → Option ℕ
find_in zero i buf name = none
find_in (suc n) i buf name =
    let rest = find_in n (i + 1) buf name in if names buf name i then some i else rest

-- The search of an entry that is not in use.
unfoldable pub free_slot : ℕ → ℕ → List ℕ → Option ℕ
free_slot zero i buf = none
free_slot (suc n) i buf =
    let rest = free_slot n (i + 1) buf in if entry_inode buf i == 0 then some i else rest

unfoldable pub set_entry : List ℕ → ℕ → ℕ → List ℕ → List ℕ
set_entry buf i inode_no name =
    write_at (i * 32 + 2) (λ b. strncpy b name 30) (put16 buf (i * 32) inode_no)

unfoldable pub clear_entry : List ℕ → ℕ → List ℕ
clear_entry buf i = write_at (i * 32 + 2) (λ b. memset b 0 30) (put16 buf (i * 32) 0)
