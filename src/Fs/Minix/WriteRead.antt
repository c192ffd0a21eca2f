-- ===== src/Fs/Minix/WriteRead.antt =====
-- What minix_ReadFile gives back of what minix_WriteFile wrote (kernel/fs/minix/file.c), for a name in the
-- root directory.
use ly_system_os.Prelude.{
  ℕ, ◌+◌, ◌*◌, ◌^◌, ◌≤◌, ◌<◌, ◌≡◌, refl, sym, ap, ◌∙◌, ◌≢◌, ◌⊎◌, inl, inr, true, false, Option,
  none, some, List, arith, ◌==◌, ==_iff, length, get_or,
}
use ly_system_os.Prelude.Int.{pos}
use ly_system_os.CString.{strncpy}
use ly_system_os.Fs.Disk.{Disk, read_sector, write_sector_ne}
use ly_system_os.Fs.Minix.Bitmaps.{zone_bitmap_lba}
use ly_system_os.Prelude.Bytes.{get16, put16, length-put16, get16-put16}
use ly_system_os.Fs.Minix.Layout.{
  root_sector, i_zone, inode_sector, inode_offset, get_inode, find_in,
}
use ly_system_os.Fs.Minix.Path.{find_entry, entry_at}
use ly_system_os.Fs.Minix.Files.{
  read_file, zone_byte_from, allocate_zone, write_data, write_file, write_new, take_zone,
}
use ly_system_os.Fs.Minix.Edit.{IsInodeNo, inode_offset-le, read_inode_sector, get16-get_inode}
use ly_system_os.Fs.Minix.RootNames.{IsRootName, IsUnset, find_entry-root}
use ly_system_os.Fs.Minix.Create.{IsDisk}
use ly_system_os.Fs.Minix.Written.{written, write_data-written, written-root, read_back}

-- The zone that the data of inode `n` goes to, and the disk that minix_WriteFile then writes on: the zone
-- that the inode has, or the one that is allocated.
abbrev pub Zone : Disk → ℕ → ℕ → Disk → Type 0
Zone d n z d' =
    ((i_zone (get_inode n d) 0 ≡ z) × (z ≢ 0) × (d' ≡ d))
    ⊎ ((i_zone (get_inode n d) 0 ≡ 0) × (allocate_zone d ≡ some (z, d')))

taken :
    (r : Option (ℕ × ℕ)) (d d' : Disk) (z : ℕ)
    → take_zone d r ≡ some (z, d')
    → (s : ℕ) → s ≢ zone_bitmap_lba
    → d' s ≡ d s
unfolding take_zone
taken none d d' z e s away = absurd (ground arith)
taken (some (i, b)) d d' z e s away =
    sym (ap (λ r. disk_of r s) e) ∙ write_sector_ne zone_bitmap_lba _ d (omega arith) s away
  where
    disk_of : Option (ℕ × Disk) → Disk
    disk_of none = d
    disk_of (some (y, x)) = x

zero_test : {x y : ℕ} → x ≡ y → y ≢ 0 → (x == 0) ≡ false
zero_test e nonzero = ground arith

allocate_zone-elsewhere :
    (d d' : Disk) (z : ℕ)
    → allocate_zone d ≡ some (z, d')
    → (s : ℕ) → s ≢ zone_bitmap_lba
    → d' s ≡ d s
unfolding allocate_zone
allocate_zone-elsewhere d d' z e s away =
    taken (zone_byte_from 512 0 (read_sector zone_bitmap_lba d)) d d' z e s away

module _ (unset name : List ℕ) (d d' : Disk) (z count : ℕ) (input output : List ℕ)
    (n : IsRootName name) (u : IsUnset unset) (h : IsDisk d)
    (known : IsInodeNo (find_entry unset name d)) (zone : Zone d (find_entry unset name d) z d')
    (above : 440 ≤ z * 2) (below : z < 2 ^ 16) (some_bytes : 0 < count) (fits : count ≤ 512)
    (room : count ≤ length output) where
  abbrev no : ℕ
  no = find_entry unset name d

  -- The write is one of the data and the inode, with the zone in it.
  Writes : Type 0
  Writes =
      (buf : List ℕ) × (whole : length buf ≡ 512) × (has_zone : get16 buf (inode_offset no + 14)
        ≡ z)
      × (d' root_sector ≡ d root_sector)
      × (write_file unset name input count d
          ≡ write_data (inode_sector no) (inode_offset no) buf input count d')

  used : (no == 0) ≡ false
  used = ground arith

  own_sector : read_sector (inode_sector no) d ≡ d (inode_sector no)
  own_sector = read_inode_sector no d known

  own_zone :
      i_zone (get_inode no d) 0 ≡ get16 (read_sector (inode_sector no) d) (inode_offset no + 14)
  unfolding i_zone
  own_zone =
      get16-get_inode no d known 14 (omega arith)
      ∙ ap (λ b. get16 b (inode_offset no + 14)) (sym own_sector)

  own_length : length (read_sector (inode_sector no) d) ≡ 512
  own_length = ap length own_sector ∙ h.sectors (inode_sector no)

  write_old :
      (no == 0) ≡ false
      → (get16 (read_sector (inode_sector no) d) (inode_offset no + 14) == 0) ≡ false
      → write_file unset name input count d
        ≡ write_data
            (inode_sector no)
            (inode_offset no)
            (read_sector (inode_sector no) d)
            input
            count
            d
  unfolding write_file
  write_old here has = rw (here, has) refl

  write_fresh :
      (no == 0) ≡ false
      → (get16 (read_sector (inode_sector no) d) (inode_offset no + 14) == 0) ≡ true
      → allocate_zone d ≡ some (z, d')
      → write_file unset name input count d
        ≡ write_data
            (inode_sector no)
            (inode_offset no)
            (put16 (read_sector (inode_sector no) d) (inode_offset no + 14) z)
            input
            count
            d'
  unfolding write_file write_new
  write_fresh here lacks taken =
      rw (here, lacks)
        (ap
          (write_new (inode_sector no) (inode_offset no) (read_sector (inode_sector no) d) input
            count d)
          taken)

  writes : Writes
  unfolding Writes
  writes = elim zone [
    | inl (same, nonzero, disk) ↦ (
      read_sector (inode_sector no) d,
      own_length,
      sym own_zone ∙ same,
      ap (λ e. e root_sector) disk,
      write_old used (zero_test (sym own_zone ∙ same) nonzero)
          ∙ ap
              (write_data (inode_sector no) (inode_offset no) (read_sector (inode_sector no) d)
                input count)
              (sym disk),
    )
    | inr (missing, taken) ↦ (
      put16 (read_sector (inode_sector no) d) (inode_offset no + 14) z,
      length-put16 (read_sector (inode_sector no) d) (inode_offset no + 14) z ∙ own_length,
      get16-put16 (read_sector (inode_sector no) d) (inode_offset no + 14) z
          (rw own_length (omega (arith, inode_offset-le no known))) below,
      allocate_zone-elsewhere d d' z taken root_sector (omega arith),
      write_fresh used ((==_iff _ 0).1 (sym own_zone ∙ missing)) taken,
    )
  ]

  finish :
      (buf : List ℕ) (whole : length buf ≡ 512) (has_zone : get16 buf (inode_offset no + 14) ≡ z)
      → d' root_sector ≡ d root_sector
      → write_file unset name input count d
        ≡ write_data (inode_sector no) (inode_offset no) buf input count d'
      → ((write_file unset name input count d).0 ≡ pos count)
        × ((read_file unset name output count (write_file unset name input count d).1).0
            ≡ pos count)
        × ((k : ℕ)
            → k < count
            → get_or
                (read_file unset name output count (write_file unset name input count d).1).1
                k
                0
              ≡ get_or input k 0)
  unfolding read_file
  finish buf whole has_zone root e =
      let after : Disk = written d' no z count buf input known whole has_zone above below fits in
      let done : write_file unset name input count d ≡ (pos count, after) =
        e ∙ write_data-written d' no z count buf input known whole has_zone above below fits in
      let same_root : after root_sector ≡ d root_sector =
        written-root d' no z count buf input known whole has_zone above below fits ∙ root in
      let found : find_entry unset name after ≡ no =
        find_entry-root unset name n u after
        ∙ ap (λ b. entry_at b (find_in 16 0 b (strncpy unset name 30))) same_root
        ∙ sym (find_entry-root unset name n u d) in
      rw (done, found, used)
        (
          refl,
          (read_back d' no z count buf input known whole has_zone above below fits output some_bytes
              room).0,
          (read_back d' no z count buf input known whole has_zone above below fits output some_bytes
              room).1,
        )

  -- minix_WriteFile of 1 to 512 bytes to a name in the root directory that FindEntry finds, with an inode number of at most 4096, whose zone, its own or the one allocated, lies in the data area: it returns the count, and minix_ReadFile of as many bytes then returns the count and gives back those bytes.
  pub read_file-write_file :
      ((write_file unset name input count d).0 ≡ pos count)
      × ((read_file unset name output count (write_file unset name input count d).1).0 ≡ pos count)
      × ((k : ℕ)
          → k < count
          → get_or (read_file unset name output count (write_file unset name input count d).1).1 k 0
            ≡ get_or input k 0)
  unfolding Writes
  read_file-write_file =
      let (buf, whole, has_zone, root, e) = writes in finish buf whole has_zone root e
