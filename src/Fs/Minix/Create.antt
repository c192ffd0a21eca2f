-- ===== src/Fs/Minix/Create.antt =====
-- What minix_CreateFile of kernel/fs/minix/file.c does with a name in the root directory.
use ly_system_os.Prelude.{
  ℕ, ◌+◌, ◌≤◌, ◌<◌, ◌≡◌, refl, sym, ap, ◌∙◌, ◌≢◌, inl, true, false, List, arith, length, set,
  get_or, drop, length-drop,
}
use ly_system_os.Prelude.Int.{ℤ, pos}
use ly_system_os.Prelude.Bitmap.{IsBytes}
use ly_system_os.Prelude.Errno.{esuccess}
use ly_system_os.CString.{strncpy, text}
use ly_system_os.Fs.Disk.{Disk}
use ly_system_os.Fs.Minix.Bitmaps.{inode_bitmap_lba, allocate_inode}
use ly_system_os.Fs.Minix.Alloc.{IsBitmap, Took}
use ly_system_os.Prelude.Bytes.{
  get16, get32, put16, put32, length-put16, get16-put16, get16-put16_ne, get16-set_ne,
}
use ly_system_os.CString.Memory.{memset, length-memset}
use ly_system_os.Fs.Minix.Layout.{
  root_sector, sizeof_inode, i_mode, i_size, inode_sector, inode_offset, get_inode, edit_inode,
  set_entry,
}
use ly_system_os.Fs.Minix.Path.{find_entry, entry_at}
use ly_system_os.Fs.Minix.Files.{file_inode}
use ly_system_os.Fs.Minix.Entries.{IsSector, unused}
use ly_system_os.Fs.Minix.Edit.{
  IsInodeNo, inode_sector-lt, inode_offset-le, edit_inode_there, edit_inode_elsewhere,
  get_or-get_inode_edited,
}
use ly_system_os.Fs.Minix.RootNames.{IsRootName, IsUnset, text-filename, find_entry-root}
use ly_system_os.Fs.Minix.Lookup.{
  Absent-of_none, find_in-set_entry, entry_inode-set_entry, entry_at-set_entry_other,
}

-- Every sector has 512 bytes, and those of the inode bitmap are bytes.
pub record IsDisk (d : Disk) : Type 0 where
  pub sectors : (s : ℕ) → IsSector (d s)
  pub bitmap : IsBytes (d inode_bitmap_lba)

pub inodes-IsBitmap : (d : Disk) → IsDisk d → IsBitmap (d inode_bitmap_lba)
inodes-IsBitmap d h = record { bytes = h.bitmap; whole = h.sectors inode_bitmap_lba }

-- No entry of the root directory is free.
abbrev pub RootFull : Disk → Type 0
RootFull d = (j : ℕ) → j < 16 → unused (d root_sector) j ≡ false

-- The new file has inode `k + 1`, FindEntry finds it under its name, all other names are found as before,
-- and it is an empty file.
pub record Created (unset name : List ℕ) (d : Disk) (k : ℕ) (r : ℤ × Disk) : Type 0 where
  pub result : r.0 ≡ pos esuccess
  pub found : find_entry unset name r.1 ≡ k + 1
  pub others :
      (name' : List ℕ)
      → IsRootName name'
      → text name' ≢ text name
      → find_entry unset name' r.1 ≡ find_entry unset name' d
  pub mode : i_mode (get_inode (k + 1) r.1) ≡ 0x81ED
  pub size : i_size (get_inode (k + 1) r.1) ≡ 0

-- A new file's inode has the mode of a file, and no size.
module _ (b : List ℕ) (whole : 32 ≤ length b) where
  abbrev with_mode : List ℕ
  with_mode = put16 (memset b 0 sizeof_inode) 0 0x81ED

  room : (k : ℕ) → k < 32 → k < length (memset b 0 sizeof_inode)
  room k h = rw (length-memset b 0 sizeof_inode) (omega arith)

  room_mode : (k : ℕ) → k < 32 → k < length with_mode
  room_mode k h = rw (length-put16 (memset b 0 sizeof_inode) 0 0x81ED) (room k h)

  room_low : (k : ℕ) → k < 32 → k < length (put16 with_mode 4 0)
  room_low k h = rw (length-put16 with_mode 4 0) (room_mode k h)

  room_size : (k : ℕ) → k < 32 → k < length (put16 (put16 with_mode 4 0) 6 0)
  room_size k h = rw (length-put16 (put16 with_mode 4 0) 6 0) (room_low k h)

  pub file_inode-mode : get16 (file_inode b) 0 ≡ 0x81ED
  unfolding file_inode put32
  file_inode-mode =
      get16-set_ne (put16 (put16 with_mode 4 0) 6 0) 13 1 0 (room_size 13 (omega arith))
        (inl (omega arith))
      ∙ get16-put16_ne (put16 with_mode 4 0) 6 0 0 (room_low 7 (omega arith)) (inl (omega arith))
      ∙ get16-put16_ne with_mode 4 0 0 (room_mode 5 (omega arith)) (inl (omega arith))
      ∙ get16-put16 (memset b 0 sizeof_inode) 0 0x81ED (room 1 (omega arith)) (omega arith)

  pub file_inode-size : get32 (file_inode b) 4 ≡ 0
  unfolding file_inode put32 get32
  file_inode-size =
      let low : get16 (set (put16 (put16 with_mode 4 0) 6 0) 13 1) 4 ≡ 0 =
        get16-set_ne (put16 (put16 with_mode 4 0) 6 0) 13 1 4 (room_size 13 (omega arith))
          (inl (omega arith))
        ∙ get16-put16_ne (put16 with_mode 4 0) 6 0 4 (room_low 7 (omega arith)) (inl (omega arith))
        ∙ get16-put16 with_mode 4 0 (room_mode 5 (omega arith)) (omega arith) in
      let high : get16 (set (put16 (put16 with_mode 4 0) 6 0) 13 1) 6 ≡ 0 =
        get16-set_ne (put16 (put16 with_mode 4 0) 6 0) 13 1 6 (room_size 13 (omega arith))
          (inl (omega arith))
        ∙ get16-put16 (put16 with_mode 4 0) 6 0 (room_low 7 (omega arith)) (omega arith) in
      omega (arith, low, high)

module _ (unset name : List ℕ) (d : Disk) (n : IsRootName name) (u : IsUnset unset)
    (h : IsDisk d) where
  -- The disk behind the allocation and the new inode.
  abbrev pub ready : ℕ → Disk
  ready k = edit_inode (k + 1) file_inode (allocate_inode d).1

  pub ready-root : (k : ℕ) → Took d k (allocate_inode d) → ready k root_sector ≡ d root_sector
  ready-root k t =
      edit_inode_elsewhere (k + 1) (allocate_inode d).1 (omega (arith, t.below)) file_inode
        root_sector (omega (arith, (inode_sector-lt (k + 1) (omega (arith, t.below))).1))
      ∙ t.others root_sector (omega arith)

  module _ (k i : ℕ) (t : Took d k (allocate_inode d)) (absent : find_entry unset name d ≡ 0)
      (hi : i < 16) (free : unused (d root_sector) i ≡ true) (final : Disk)
      (root_then : final root_sector ≡ set_entry (d root_sector) i (k + 1) (strncpy unset name 30))
      (others_then : (s : ℕ) → s ≢ root_sector → final s ≡ ready k s) where
    buf : List ℕ
    buf = d root_sector

    inode_no : IsInodeNo (k + 1)
    inode_no = omega (arith, t.below)

    short_name : length (text (strncpy unset name 30)) < 30
    short_name = rw (text-filename unset name n u) n.short

    final-found : find_entry unset name final ≡ k + 1
    unfolding entry_at
    final-found =
        find_entry-root unset name n u final
        ∙ rw root_then (
            ap (entry_at after_) (
              find_in-set_entry (d root_sector) i (k + 1) (strncpy unset name 30)
                (h.sectors root_sector) hi (omega (arith, t.below)) (omega arith) short_name
                (strncpy unset name 30) refl
                (Absent-of_none (d root_sector) (strncpy unset name 30)
                  (sym (find_entry-root unset name n u d) ∙ absent))))
        ∙ entry_inode-set_entry (d root_sector) i (k + 1) (strncpy unset name 30)
            (h.sectors root_sector) hi (omega (arith, t.below)) (omega arith) short_name
      where
        after_ : List ℕ
        after_ = set_entry (d root_sector) i (k + 1) (strncpy unset name 30)

    final-others :
        (name' : List ℕ)
        → IsRootName name'
        → text name' ≢ text name
        → find_entry unset name' final ≡ find_entry unset name' d
    final-others name' n' other =
        find_entry-root unset name' n' u final
        ∙ rw root_then (
            entry_at-set_entry_other (d root_sector) i (k + 1) (strncpy unset name 30)
              (h.sectors root_sector) hi (omega (arith, t.below)) (omega arith) short_name
              (strncpy unset name' 30) (rw (text-filename unset name' n' u) n'.short)
              (λ e. other (sym (text-filename unset name' n' u) ∙ e ∙ text-filename unset name n u))
              free)
        ∙ sym (find_entry-root unset name' n' u d)

    away : inode_sector (k + 1) ≢ root_sector
    away = omega (arith, (inode_sector-lt (k + 1) inode_no).1)

    sector_length : length ((allocate_inode d).1 (inode_sector (k + 1))) ≡ 512
    sector_length =
        ap length
          (t.others (inode_sector (k + 1)) (omega (arith, (inode_sector-lt (k + 1) inode_no).0)))
        ∙ h.sectors (inode_sector (k + 1))

    final-bytes :
        (j : ℕ)
        → j < 34
        → get_or (get_inode (k + 1) final) j 0
          ≡ get_or
              (file_inode
                (drop (inode_offset (k + 1)) ((allocate_inode d).1 (inode_sector (k + 1)))))
              j
              0
    final-bytes j hj =
        get_or-get_inode_edited (k + 1) final inode_no file_inode
          ((allocate_inode d).1 (inode_sector (k + 1))) j
          (others_then (inode_sector (k + 1)) away
            ∙ edit_inode_there (k + 1) (allocate_inode d).1 inode_no file_inode)
          (omega (arith, inode_offset-le (k + 1) inode_no, sector_length)) hj

    inode_bytes : List ℕ
    inode_bytes = drop (inode_offset (k + 1)) ((allocate_inode d).1 (inode_sector (k + 1)))

    inode_room : 32 ≤ length inode_bytes
    unfolding inode_bytes
    inode_room =
        rw
          (
            length-drop (inode_offset (k + 1)) ((allocate_inode d).1 (inode_sector (k + 1))),
            sector_length,
          )
          (omega (arith, inode_offset-le (k + 1) inode_no))

    pub final-Created : (r : ℤ × Disk) → r ≡ (pos esuccess, final) → Created unset name d k r
    unfolding i_mode i_size get32 get16 inode_bytes
    final-Created r e = rw e (record {
      result = refl;
      found = final-found;
      others = final-others;
      mode = ground (arith, final-bytes 0, final-bytes 1, file_inode-mode inode_bytes inode_room);
      size = ground (
        arith,
        final-bytes 4,
        final-bytes 5,
        final-bytes 6,
        final-bytes 7,
        file_inode-size inode_bytes inode_room,
      );
    })
