-- ===== src/Fs/Minix/Written.antt =====
-- The end of minix_WriteFile of kernel/fs/minix/file.c, with the zone known, and what minix_ReadFile makes of
-- the inode and the data that it wrote.
use ly_system_os.Prelude.{
  ℕ, ◌+◌, ◌*◌, ◌^◌, ◌≤◌, ◌<◌, ◌≡◌, refl, ap, ◌∙◌, ◌≢◌, inl, inr, true, false, ◌&&◌, List, arith,
  ltb, ◌==◌, if◌then◌else◌, Bool-cases, length, get_or,
}
use ly_system_os.Prelude.Int.{pos, int32}
use ly_system_os.Fs.Disk.{
  Disk, read_sector, write_sector, write_sector_eq, write_sector_ne, blank_sector,
  length-blank_sector,
}
use ly_system_os.Prelude.Bytes.{get16, get32, put32, get32-put32, get16-put32_ne}
use ly_system_os.CString.Memory.{memcpy, get_or-memcpy}
use ly_system_os.Fs.Minix.Layout.{
  root_sector, i_size, i_zone, inode_sector, inode_offset, get_inode,
}
use ly_system_os.Fs.Minix.Files.{is_positive, read_inode_data, write_data}
use ly_system_os.Fs.Minix.Edit.{
  IsInodeNo, inode_sector-lt, inode_offset-le, read_small, get16-get_inode, get32-get_inode,
}

clip :
    (count : ℕ) → count ≤ 512 → (if ltb 512 count && ltb count (2 ^ 31) then 512 else count) ≡ count
clip count fits = ground arith

small_int : (count : ℕ) → count ≤ 512 → int32 count ≡ pos count
small_int count fits = ground arith

-- A read of no more bytes than the file has copies its sector.
read_enough :
    (inode output : List ℕ) (count : ℕ) (d : Disk)
    → count ≤ i_size inode
    → 0 < count
    → count ≤ 512
    → i_zone inode 0 ≢ 0
    → read_inode_data inode output count d
      ≡ (pos count, memcpy output (read_sector (i_zone inode 0 * 2) d) count)
unfolding read_inode_data is_positive
read_enough inode output count d enough some_bytes fits zone =
    let long : ltb (i_size inode) count ≡ false = ground arith in
    let some_count : ltb 0 count && ltb count (2 ^ 31) ≡ true = ground arith in
    let has_zone : (i_zone inode 0 == 0) ≡ false = ground arith in
    rw (long, some_count, has_zone, small_int count fits) refl

module _ (d : Disk) (n z count : ℕ) (buf input : List ℕ) (hn : IsInodeNo n)
    (whole : length buf ≡ 512) (zone : get16 buf (inode_offset n + 14) ≡ z) (above : 440 ≤ z * 2)
    (below : z < 2 ^ 16) (fits : count ≤ 512) where
  abbrev pub sized : List ℕ
  sized =
      if ltb (get32 buf (inode_offset n + 4)) count
      then put32 buf (inode_offset n + 4) count
      else buf

  abbrev pub stored : List ℕ
  stored = memcpy blank_sector input count

  pub written : Disk
  written = write_sector (inode_sector n) sized (write_sector (z * 2) stored d)

  pub write_data-written :
      write_data (inode_sector n) (inode_offset n) buf input count d ≡ (pos count, written)
  unfolding write_data written
  write_data-written =
      let clipped = clip count fits in
      let plain = small_int count fits in rw (clipped, plain, zone) refl

  inside : inode_offset n + 4 + 3 < length buf
  inside = rw whole (omega (arith, inode_offset-le n hn))

  sized-zone : get16 sized (inode_offset n + 14) ≡ z
  sized-zone = elim (Bool-cases (ltb (get32 buf (inode_offset n + 4)) count)) [
    | inl grows ↦ rw grows (
        get16-put32_ne buf (inode_offset n + 4) count (inode_offset n + 14) inside (omega arith)
        ∙ zone)
    | inr keeps ↦ rw keeps zone
  ]

  sized-size : count ≤ get32 sized (inode_offset n + 4)
  sized-size = elim (Bool-cases (ltb (get32 buf (inode_offset n + 4)) count)) [
    | inl grows ↦
        rw grows (omega (arith, get32-put32 buf (inode_offset n + 4) count inside (omega arith)))
    | inr keeps ↦ rw keeps (ground arith)
  ]

  written-inode : written (inode_sector n) ≡ sized
  unfolding written
  written-inode = write_sector_eq (inode_sector n) sized _ (omega (arith, (inode_sector-lt n hn).1))

  written-data : written (z * 2) ≡ stored
  unfolding written
  written-data =
      write_sector_ne (inode_sector n) sized (write_sector (z * 2) stored d)
        (omega (arith, (inode_sector-lt n hn).1)) (z * 2) (omega (arith, (inode_sector-lt n hn).1))
      ∙ write_sector_eq (z * 2) stored d (omega arith)

  pub written-root : written root_sector ≡ d root_sector
  unfolding written
  written-root =
      write_sector_ne (inode_sector n) sized (write_sector (z * 2) stored d)
        (omega (arith, (inode_sector-lt n hn).1)) root_sector
        (omega (arith, (inode_sector-lt n hn).1))
      ∙ write_sector_ne (z * 2) stored d (omega arith) root_sector (omega arith)

  -- The inode that was written has the zone and room for the bytes.
  written-zone : i_zone (get_inode n written) 0 ≡ z
  unfolding i_zone
  written-zone =
      get16-get_inode n written hn 14 (omega arith)
      ∙ ap (λ b. get16 b (inode_offset n + 14)) written-inode
      ∙ sized-zone

  written-size : count ≤ i_size (get_inode n written)
  unfolding i_size
  written-size =
      rw
        (get32-get_inode n written hn 4 (omega arith)
          ∙ ap (λ b. get32 b (inode_offset n + 4)) written-inode)
        sized-size

  pub read_back :
      (output : List ℕ)
      → 0 < count
      → count ≤ length output
      → ((read_inode_data (get_inode n written) output count written).0 ≡ pos count)
        × ((k : ℕ)
            → k < count
            → get_or (read_inode_data (get_inode n written) output count written).1 k 0
              ≡ get_or input k 0)
  read_back output some_bytes room =
      let there : read_sector (i_zone (get_inode n written) 0 * 2) written ≡ stored =
        ap (λ y. read_sector (y * 2) written) written-zone
        ∙ read_small (z * 2) written (omega arith)
        ∙ written-data in
      let whole_read =
        read_enough (get_inode n written) output count written written-size some_bytes fits
          (λ e. absurd (omega (arith, written-zone, e))) in
      (
        ap (λ r. r.0) whole_read,
        λ k hk.
            ap (λ r. get_or r.1 k 0) whole_read
            ∙ ap (λ b. get_or (memcpy output b count) k 0) there
            ∙ copied output k hk (omega arith),
      )
    where
      copied :
          (output : List ℕ) (k : ℕ)
          → k < count
          → k < length output
          → get_or (memcpy output stored count) k 0 ≡ get_or input k 0
      copied output k hk room =
          let inner =
            get_or-memcpy blank_sector input count k (rw length-blank_sector (omega arith)) in
          ground (arith, get_or-memcpy output stored count k room, inner)
