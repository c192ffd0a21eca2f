-- ===== src/Fs/Minix/Delete.antt =====
-- What minix_DeleteFile of kernel/fs/minix/file.c does with a name in the root directory.
use ly_system_os.Prelude.{
  ℕ, zero, suc, ◌+◌, ◌-◌, ◌*◌, ◌%◌, ◌^◌, ◌<◌, ◌≡◌, refl, ap, ◌∙◌, ◌≢◌, inl, inr, true, not, List,
  arith, ltb, ◌==◌, if◌then◌else◌, Bool-cases, length, get_or, drop, length-drop,
}
use ly_system_os.Prelude.Int.{ℤ, pos}
use ly_system_os.Prelude.Errno.{esuccess}
use ly_system_os.Fs.Disk.{Disk, read_sector, write_sector_eq, write_sector_ne}
use ly_system_os.Fs.Minix.Bitmaps.{inode_bitmap_lba, zone_bitmap_lba, free_zone, delete_inode_bit}
use ly_system_os.Prelude.Bytes.{get16, put16, write_at, get_or-write_at, length-put16}
use ly_system_os.CString.Memory.{memset, get_or-memset}
use ly_system_os.Fs.Minix.Layout.{
  root_sector, sizeof_inode, i_mode, inode_sector, inode_offset, get_inode, clear_entry,
}
use ly_system_os.Fs.Minix.Files.{free_zones, delete_entry, wipe_inode}
use ly_system_os.Fs.Minix.Entries.{IsSector, SameEntry, unused}
use ly_system_os.Fs.Minix.Edit.{IsInodeNo, inode_sector-lt, inode_offset-le, read_small}

-- The entry `i` and its inode were deleted: the other entries stay, the entry is free, and the mode of the
-- inode is 0, but so is that of the next inode of the same sector.
pub record Deleted (d : Disk) (i inode_no : ℕ) (r : ℤ × Disk) : Type 0 where
  pub result : r.0 ≡ pos esuccess
  pub others : (j : ℕ) → j ≢ i → SameEntry (r.1 root_sector) (d root_sector) j
  pub gone : unused (r.1 root_sector) i ≡ true
  pub wiped : i_mode (get_inode inode_no r.1) ≡ 0
  pub neighbour : inode_no % 16 ≢ 0 → i_mode (get_inode (inode_no + 1) r.1) ≡ 0

free_zone_elsewhere : (zone : ℕ) (d : Disk) (s : ℕ) → s ≢ zone_bitmap_lba → free_zone zone d s ≡ d s
unfolding free_zone
free_zone_elsewhere zone d s other = elim (Bool-cases (zone == 0)) [
  | inl nothing ↦ rw nothing refl
  | inr something ↦ rw something (write_sector_ne zone_bitmap_lba _ d (omega arith) s other)
]

-- The loop over the zones changes no sector but the zone bitmap, and keeps the size of the buffer.
free_zones-Same :
    (n z offset : ℕ) (buf : List ℕ) (d : Disk)
    → (length (free_zones n z offset buf d).0 ≡ length buf)
      × ((s : ℕ) → s ≢ zone_bitmap_lba → (free_zones n z offset buf d).1 s ≡ d s)
unfolding free_zones
free_zones-Same zero z offset buf d = (refl, λ s other. refl)
free_zones-Same (suc n) z offset buf d =
    elim (Bool-cases (not (get16 buf (offset + (14 + 2 * z)) == 0))) [
      | inl used ↦
          let (len, same) =
            free_zones-Same n (z + 1) offset (put16 buf (offset + (14 + 2 * z)) 0)
              (free_zone (get16 buf (offset + (14 + 2 * z))) d) in
          rw (used, free_zones)
            (
              len ∙ length-put16 buf (offset + (14 + 2 * z)) 0,
              λ s other.
                  same s other ∙ free_zone_elsewhere (get16 buf (offset + (14 + 2 * z))) d s other,
            )
      | inr clear ↦ rw (clear, free_zones) (free_zones-Same n (z + 1) offset buf d)
    ]

zeroed :
    (off k : ℕ) (b : List ℕ)
    → off + k < length b
    → k < 34
    → (if ltb (off + k) off
        then get_or b (off + k) 0
        else get_or (memset (drop off b) 0 sizeof_inode) (off + k - off) 0)
      ≡ 0
zeroed off k b inside hk =
    let same : off + k - off ≡ k = omega arith in
    let room : k < length (drop off b) = rw (length-drop off b) (omega arith) in
    ground (
      arith,
      ap (λ m. get_or (memset (drop off b) 0 sizeof_inode) m 0) same,
      get_or-memset (drop off b) 0 sizeof_inode k room,
    )

module _ (n : ℕ) (d : Disk) (h : IsInodeNo n) where
  abbrev freed : List ℕ × Disk
  freed = free_zones 7 0 (inode_offset n) (read_sector (inode_sector n) d) d

  small : inode_sector n < 2 ^ 28
  small = omega (arith, (inode_sector-lt n h).1)

  wipe_inode-there :
      wipe_inode n d (inode_sector n)
      ≡ write_at (inode_offset n) (λ b. memset b 0 sizeof_inode) freed.0
  unfolding wipe_inode
  wipe_inode-there = write_sector_eq (inode_sector n) _ freed.1 small

  wipe_inode-elsewhere : (s : ℕ) → s ≢ zone_bitmap_lba → s ≢ inode_sector n → wipe_inode n d s ≡ d s
  unfolding wipe_inode
  wipe_inode-elsewhere s away other =
      write_sector_ne (inode_sector n) _ freed.1 small s other
      ∙ (free_zones-Same 7 0 (inode_offset n) (read_sector (inode_sector n) d) d).1 s away

  module _ (i : ℕ) where
    abbrev pub final : Disk
    final = delete_entry root_sector i n d

    pub final-root : final root_sector ≡ clear_entry (d root_sector) i
    unfolding delete_entry delete_inode_bit
    final-root =
        write_sector_eq root_sector _ _ (omega arith)
        ∙ ap (λ b. clear_entry b i)
            (write_sector_ne inode_bitmap_lba _ (wipe_inode n d) (omega arith) root_sector
                (omega arith)
              ∙ wipe_inode-elsewhere root_sector (omega arith)
                  (omega (arith, (inode_sector-lt n h).1)))

    -- The sector of the inode, with its 34 bytes cleared.
    final-inode :
        final (inode_sector n) ≡ write_at (inode_offset n) (λ b. memset b 0 sizeof_inode) freed.0
    unfolding delete_entry delete_inode_bit
    final-inode =
        write_sector_ne root_sector _ _ (omega arith) (inode_sector n)
          (omega (arith, (inode_sector-lt n h).1))
        ∙ write_sector_ne inode_bitmap_lba _ (wipe_inode n d) (omega arith) (inode_sector n)
            (omega (arith, (inode_sector-lt n h).0))
        ∙ wipe_inode-there

    module _ (whole : IsSector (d (inode_sector n))) where
      freed_length : length freed.0 ≡ 512
      freed_length =
          (free_zones-Same 7 0 (inode_offset n) (read_sector (inode_sector n) d) d).0
          ∙ ap length (read_small (inode_sector n) d small)
          ∙ whole

      pub final-cleared :
          (k : ℕ)
          → inode_offset n + k < 512
          → k < 34
          → get_or (final (inode_sector n)) (inode_offset n + k) 0 ≡ 0
      final-cleared k inside hk =
          ap (λ b. get_or b (inode_offset n + k) 0) final-inode
          ∙ get_or-write_at (λ b. memset b 0 sizeof_inode) (inode_offset n) freed.0
              (inode_offset n + k) (rw freed_length (omega (arith, inode_offset-le n h)))
          ∙ zeroed (inode_offset n) k freed.0 (rw freed_length inside) hk
