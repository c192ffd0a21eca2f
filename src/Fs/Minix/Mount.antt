-- ===== src/Fs/Minix/Mount.antt =====
-- kernel/fs/minix/superblock.c and inode.c together: the superblock is read from the sector that holds the
-- inode bitmap.
use ly_system_os.Prelude.{
  ℕ, ◌+◌, ◌*◌, ◌/◌, ◌%◌, ◌≤◌, ◌<◌, ◌≡◌, refl, sym, ap, subst, ◌≢◌, ◌⊎◌, inl, inr, true, false, not,
  ◌&&◌, ◌||◌, List, arith, ltb, leb, ◌==◌, if◌then◌else◌, Bool-cases, get_or, get_or-set,
  All-get_or,
}
use ly_system_os.Prelude.Int.{pos, neg}
use ly_system_os.Prelude.Bits.{test_bit, set_bit, every_below, every_below-holds, set_bit-lt}
use ly_system_os.Prelude.Bitmap.{bit, set_at}
use ly_system_os.Prelude.Errno.{esuccess, einval}
use ly_system_os.CString.{first}
use ly_system_os.Fs.Disk.{Disk, write_sector, write_sector_eq}
use ly_system_os.Fs.Minix.Bitmaps.{inode_bitmap_lba, allocate_inode}
use ly_system_os.Fs.Minix.Alloc.{IsBitmap, Took, clear_of_usable}
use ly_system_os.Prelude.Bytes.{get16}
use ly_system_os.Fs.Minix.Super.{super_block_of, get_super_block, minixfs_init}

low_table :
    every_below
      (λ m.
        (m == 0)
        || (test_bit 0x78 m || not (leb 0x78 (set_bit 0x78 m) && leb (set_bit 0x78 m) 0x79))
          && (test_bit 0x79 m || not (leb 0x78 (set_bit 0x79 m) && leb (set_bit 0x79 m) 0x79)))
      8
    ≡ true
unfolding every_below test_bit set_bit
low_table = refl

high_table :
    every_below (λ m. test_bit 0x24 m || not (set_bit 0x24 m == 0x24) && ltb (set_bit 0x24 m) 256) 8
    ≡ true
unfolding every_below test_bit set_bit
high_table = refl

magic_fails :
    (low high : ℕ)
    → low < 256
    → (high ≢ 0x24) ⊎ ((low ≢ 0x78) × (low ≢ 0x79))
    → (low + 256 * high ≢ 0x2478) × (low + 256 * high ≢ 0x2479)
magic_fails low high small h = ground arith

-- minix_GetSuperBlock accepts the magic number of a sector.
abbrev pub Mounts : Disk → Type 0
Mounts d = (get_super_block d).0 ≡ pos esuccess

low_changes :
    (low m : ℕ)
    → (low ≡ 0x78) ⊎ (low ≡ 0x79)
    → 0 < m
    → m < 8
    → test_bit low m ≡ false
    → (set_bit low m ≢ 0x78) × (set_bit low m ≢ 0x79)
low_changes low m (inl e) some_bit h free =
    rw e (ground (arith, rw e at free, every_below-holds _ m 8 h low_table))
low_changes low m (inr e) some_bit h free =
    rw e (ground (arith, rw e at free, every_below-holds _ m 8 h low_table))

high_changes : (high m : ℕ) → high ≡ 0x24 → m < 8 → test_bit high m ≡ false → set_bit high m ≢ 0x24
high_changes high m e h free =
    rw e (ground (arith, rw e at free, every_below-holds _ m 8 h high_table))

-- The two bytes of the magic number.
magic_bytes :
    (low high : ℕ)
    → low < 256
    → (low + 256 * high ≡ 0x2478) ⊎ (low + 256 * high ≡ 0x2479)
    → ((low ≡ 0x78) ⊎ (low ≡ 0x79)) × (high ≡ 0x24)
magic_bytes low high small (inl e) = (inl (omega arith), omega arith)
magic_bytes low high small (inr e) = (inr (omega arith), omega arith)

module _ (bm : List ℕ) (k : ℕ) (h : IsBitmap bm) (free : bit bm k ≡ false) where
  byte_at : (i : ℕ) → get_or bm i 0 < 256
  byte_at i = All-get_or (λ b. b < 256) bm i 0 h.bytes (omega arith)

  byte_after :
      (i : ℕ)
      → k < 4096
      → get_or (set_at bm k) i 0
        ≡ (if k / 8 == i then set_bit (get_or bm (k / 8) 0) (k % 8) else get_or bm i 0)
  unfolding set_at
  byte_after i hk =
      get_or-set bm (k / 8) i (set_bit (get_or bm (k / 8) 0) (k % 8)) 0 (rw h.whole (omega arith))

  magic_after :
      (get16 bm 16 ≡ 0x2478) ⊎ (get16 bm 16 ≡ 0x2479)
      → 129 ≤ k
      → k < 144
      → (get16 (set_at bm k) 16 ≢ 0x2478) × (get16 (set_at bm k) 16 ≢ 0x2479)
  unfolding get16 bit
  magic_after magic lo hi =
      let (low, high) = magic_bytes (get_or bm 16 0) (get_or bm 17 0) (byte_at 16) magic in
      elim (Bool-cases (ltb k 136)) [
        | inl below ↦
            let here : k / 8 ≡ 16 = ground arith in
            let changed =
              low_changes (get_or bm 16 0) (k % 8) low (ground arith) (omega arith)
                (subst (λ i. test_bit (get_or bm i 0) (k % 8) ≡ false) here free) in
            let e16 : get_or (set_at bm k) 16 0 ≡ set_bit (get_or bm 16 0) (k % 8) = ground (
              arith,
              byte_after 16 (omega arith),
              ap (λ i. set_bit (get_or bm i 0) (k % 8)) here,
            ) in
            let e17 : get_or (set_at bm k) 17 0 ≡ get_or bm 17 0 =
              ground (arith, byte_after 17 (omega arith), here) in
            rw (e16, e17)
              (magic_fails (set_bit (get_or bm 16 0) (k % 8)) (get_or bm 17 0)
                (set_bit-lt (get_or bm 16 0) (k % 8) (byte_at 16) (omega arith)) (inr changed))
        | inr above ↦
            let here : k / 8 ≡ 17 = ground arith in
            let changed =
              high_changes (get_or bm 17 0) (k % 8) high (omega arith)
                (subst (λ i. test_bit (get_or bm i 0) (k % 8) ≡ false) here free) in
            let e16 : get_or (set_at bm k) 16 0 ≡ get_or bm 16 0 =
              ground (arith, byte_after 16 (omega arith), here) in
            let e17 : get_or (set_at bm k) 17 0 ≡ set_bit (get_or bm 17 0) (k % 8) = ground (
              arith,
              byte_after 17 (omega arith),
              ap (λ i. set_bit (get_or bm i 0) (k % 8)) here,
            ) in
            rw (e16, e17)
              (magic_fails (get_or bm 16 0) (set_bit (get_or bm 17 0) (k % 8)) (byte_at 16)
                (inl changed))
      ]

super_magic : (d : Disk) → Mounts d → (get16 (d 2) 16 ≡ 0x2478) ⊎ (get16 (d 2) 16 ≡ 0x2479)
unfolding get_super_block super_block_of
super_magic d m = elim (Bool-cases (get16 (d 2) 16 == 0x2478)) [
  | inl first ↦ inl (ground arith)
  | inr other ↦ inr (second (get16 (d 2) 16) other m)
]
  where
    second :
        (x : ℕ)
        → (x == 0x2478) ≡ false
        → (if (x == 0x2478) || (x == 0x2479) then pos 0 else neg einval) ≡ pos 0
        → x ≡ 0x2479
    second x other m = ground arith

refused :
    (d : Disk)
    → (get16 (d 2) 16 ≢ 0x2478) × (get16 (d 2) 16 ≢ 0x2479)
    → (minixfs_init d).0 ≡ neg einval
unfolding minixfs_init get_super_block super_block_of
refused d (a, b) = ground arith

-- A disk that mounts, on which minix_AllocateInode takes one of the inodes 130 to 144, does not mount any more: minixfs_init returns -EINVAL.
pub allocate_inode-Unmounts :
    (d : Disk)
    → IsBitmap (d inode_bitmap_lba)
    → Mounts d
    → (k : ℕ) → Took d k (allocate_inode d)
    → 129 ≤ k
    → k < 144
    → (minixfs_init (allocate_inode d).1).0 ≡ neg einval
allocate_inode-Unmounts d h m k t lo hi = rw t.after (
    refused (write_sector inode_bitmap_lba (set_at (d inode_bitmap_lba) k) d) (
      subst (λ b. (get16 b 16 ≢ 0x2478) × (get16 b 16 ≢ 0x2479))
        (sym (write_sector_eq inode_bitmap_lba (set_at (d inode_bitmap_lba) k) d (omega arith)))
        (magic_after (d inode_bitmap_lba) k h
          (clear_of_usable (d inode_bitmap_lba) k t.was_usable).0 (super_magic d m) lo hi)))
