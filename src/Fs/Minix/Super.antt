-- ===== src/Fs/Minix/Super.antt =====
-- kernel/fs/minix/superblock.c, root.c and fs.c: the superblock, the root inode and the root directory.
use ly_system_os.Prelude.{
  ℕ, zero, suc, ◌+◌, bit_and, Bool, not, ◌&&◌, ◌||◌, Option, none, some, List, [], ◌∷◌, ◌++◌, ◌==◌,
  if◌then◌else◌, get_or, drop,
}
use ly_system_os.Prelude.Int.{ℤ, pos, neg, ◌==ℤ◌}
use ly_system_os.Prelude.Errno.{esuccess, einval}
use ly_system_os.CString.{codes, strcmp}
use ly_system_os.Fs.Disk.{Disk, read_sector}
use ly_system_os.Prelude.Bytes.{get16, get32}
use ly_system_os.Fs.Minix.Layout.{
  i_mode, i_size, i_zone, inode_sector, inode_offset, entry_inode, entry_name,
}

pub record SuperBlock : Type 0 where
  pub s_ninodes : ℕ
  pub s_nzones : ℕ
  pub s_imap_blocks : ℕ
  pub s_zmap_blocks : ℕ
  pub s_firstdatazone : ℕ
  pub s_log_zone_size : ℕ
  pub s_max_size : ℕ
  pub s_magic : ℕ
  pub s_state : ℕ
  pub s_zones : ℕ

-- `struct minix2_superblock` in the bytes of a sector.
unfoldable pub super_block_of : List ℕ → SuperBlock
super_block_of buf = record {
  s_ninodes = get16 buf 0;
  s_nzones = get16 buf 2;
  s_imap_blocks = get16 buf 4;
  s_zmap_blocks = get16 buf 6;
  s_firstdatazone = get16 buf 8;
  s_log_zone_size = get16 buf 10;
  s_max_size = get32 buf 12;
  s_magic = get16 buf 16;
  s_state = get16 buf 18;
  s_zones = get32 buf 20;
}

-- `minix_GetSuperBlock`: the result, and `current_sb`.
unfoldable pub get_super_block : Disk → ℤ × SuperBlock
get_super_block d =
    let current_sb = super_block_of (read_sector 2 d) in
    (
      if (current_sb.s_magic == 0x2478) || (current_sb.s_magic == 0x2479)
          then pos esuccess
          else neg einval,
      current_sb,
    )

-- What `minix_GetRootInode` prints of the root inode: its numbers, and those that it takes for ten zones.
pub record RootInfo : Type 0 where
  pub mode : ℕ
  pub uid : ℕ
  pub gid : ℕ
  pub size : ℕ
  pub mtime : ℕ
  pub nlinks : ℕ
  pub zones : List ℕ

unfoldable pub zones_from : ℕ → ℕ → List ℕ → List ℕ
zones_from zero i root = []
zones_from (suc n) i root = i_zone root i ∷ zones_from n (i + 1) root

-- `minix_GetRootInode`
unfoldable pub get_root_inode : Disk → RootInfo
get_root_inode d =
    let root = read_sector 10 d in
    record {
      mode = i_mode root;
      uid = get16 root 2;
      gid = get_or root 12 0;
      size = i_size root;
      mtime = get32 root 8;
      nlinks = get_or root 13 0;
      zones = zones_from 10 0 root;
    }

-- `minixfs_init`: the result, and what it prints.
unfoldable pub minixfs_init : Disk → ℤ × Option RootInfo
minixfs_init d =
    if (get_super_block d).0 ==ℤ neg einval
    then (neg einval, none)
    else (pos esuccess, some (get_root_inode d))

-- The loop of `minix_List` over the entries of the root directory, from `i` on with `n` left: the name
-- of each, and whether a slash follows it.
unfoldable pub root_from : ℕ → ℕ → List ℕ → Disk → List (List ℕ × Bool)
root_from zero i sector_buffer d = []
root_from (suc n) i sector_buffer d =
    let rest = root_from n (i + 1) sector_buffer d in
    let inode =
      drop (inode_offset (entry_inode sector_buffer i))
        (read_sector (inode_sector (entry_inode sector_buffer i)) d) in
    let name = entry_name sector_buffer i in
    let is_named =
      not (strcmp name (codes ".") ==ℤ pos 0) && not (strcmp name (codes "..") ==ℤ pos 0) in
    if not (entry_inode sector_buffer i == 0)
    then (name, not (bit_and (i_mode inode) 0x4000 == 0) && is_named) ∷ rest
    else rest

-- `minix_List`
unfoldable pub list_root : Disk → List (List ℕ × Bool)
list_root d = root_from 32 0 (read_sector 438 d ++ read_sector 439 d) d
