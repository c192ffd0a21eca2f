-- ===== src/Fs/Minix/DeleteFile.antt =====
-- minix_DeleteFile of kernel/fs/minix/file.c on a name in the root directory, with all its results.
use ly_system_os.Prelude.{
  ℕ, ◌+◌, ◌%◌, ◌≤◌, ◌<◌, ◌≡◌, refl, sym, ap, subst, ◌∙◌, ◌≢◌, ◌⊎◌, inl, inr, true, List, arith,
  if◌then◌else◌, ==_iff, Bool-cases, get_or,
}
use ly_system_os.Prelude.Int.{ℤ, pos, neg}
use ly_system_os.Prelude.Errno.{esuccess, enoent, eacces}
use ly_system_os.CString.{strncpy, next}
use ly_system_os.Fs.Disk.{Disk}
use ly_system_os.Prelude.Bytes.{get16}
use ly_system_os.CString.Memory.{memset, length-memset, get_or-memset_behind}
use ly_system_os.Fs.Minix.Layout.{
  root_sector, i_mode, inode_sector, inode_offset, get_inode, entry_inode, names, find_in,
  clear_entry,
}
use ly_system_os.Fs.Minix.Files.{delete_entry, is_dots, delete_file, delete_at}
use ly_system_os.Fs.Minix.Entries.{
  IsSector, SameEntry, find_in-Outcome, unused, put_entry-SameEntry, put_entry-inode,
}
use ly_system_os.Fs.Minix.Edit.{IsInodeNo, inode_offset-le, get_or-get_inode}
use ly_system_os.Fs.Minix.RootNames.{IsRootName, IsUnset, find_sector-root}
use ly_system_os.Fs.Minix.Lookup.{Absent}
use ly_system_os.Fs.Minix.Create.{IsDisk}
use ly_system_os.Fs.Minix.Delete.{Deleted, final-root, final-cleared}

-- The inodes of the entries of the root directory are ones that the bitmap can give out.
abbrev pub RootInodes : Disk → Type 0
RootInodes d = (j : ℕ) → j < 16 → entry_inode (d root_sector) j ≤ 4096

module _ (buf : List ℕ) (i : ℕ) (whole : IsSector buf) (h : i < 16) where
  pub clear_entry-SameEntry : (j : ℕ) → j ≢ i → SameEntry (clear_entry buf i) buf j
  unfolding clear_entry
  clear_entry-SameEntry =
      put_entry-SameEntry buf i 0 (λ b. memset b 0 30) whole h (λ b. length-memset b 0 30)
        (λ b k behind. get_or-memset_behind b 0 30 k behind)

  pub clear_entry-unused : unused (clear_entry buf i) i ≡ true
  unfolding clear_entry
  clear_entry-unused = (==_iff _ 0).1 (
      put_entry-inode buf i 0 (λ b. memset b 0 30) whole h (λ b. length-memset b 0 30)
        (λ b k behind. get_or-memset_behind b 0 30 k behind) (omega arith))

shifted : (a b k : ℕ) → a ≡ b + 32 → a + k ≡ b + (32 + k)
shifted a b k e = omega arith

module _ (d : Disk) (i n : ℕ) (h : IsInodeNo n) (hi : i < 16) (whole : IsDisk d) where
  mode_wiped : i_mode (get_inode n (delete_entry root_sector i n d)) ≡ 0
  unfolding i_mode get16
  mode_wiped =
      let bytes = get_or-get_inode n (delete_entry root_sector i n d) h in
      let zeros = final-cleared n d h i (whole.sectors (inode_sector n)) in
      ground (
        arith,
        bytes 0,
        bytes 1,
        zeros 0 (omega (arith, inode_offset-le n h)),
        zeros 1 (omega (arith, inode_offset-le n h)),
      )

  next_place :
      n % 16 ≢ 0
      → (inode_sector (n + 1) ≡ inode_sector n)
        × (inode_offset (n + 1) ≡ inode_offset n + 32)
        × IsInodeNo (n + 1)
  unfolding inode_sector inode_offset
  next_place inner = ground arith

  mode_neighbour : n % 16 ≢ 0 → i_mode (get_inode (n + 1) (delete_entry root_sector i n d)) ≡ 0
  unfolding i_mode get16
  mode_neighbour inner =
      let (sector, offset, next) = next_place inner in
      let zeros = final-cleared n d h i (whole.sectors (inode_sector n)) in
      let byte = λ (k : ℕ) (hk : k < 2).
        get_or-get_inode (n + 1) (delete_entry root_sector i n d) next k (omega arith)
        ∙ ap (λ s. get_or (delete_entry root_sector i n d s) (inode_offset (n + 1) + k) 0) sector
        ∙ ap (λ m. get_or (delete_entry root_sector i n d (inode_sector n)) m 0)
            (shifted (inode_offset (n + 1)) (inode_offset n) k offset)
        ∙ zeros (32 + k) (omega (arith, offset, inode_offset-le (n + 1) next)) (omega arith) in
      ground (arith, byte 0, byte 1)

  delete_entry-Deleted : Deleted d i n (pos esuccess, delete_entry root_sector i n d)
  delete_entry-Deleted = record {
    result = refl;
    others = λ j other.
        subst (λ b. SameEntry b (d root_sector) j) (sym (final-root n d h i))
          (clear_entry-SameEntry (d root_sector) i (whole.sectors root_sector) hi j other);
    gone =
        ap (λ b. unused b i) (final-root n d h i)
        ∙ clear_entry-unused (d root_sector) i (whole.sectors root_sector) hi;
    wiped = mode_wiped;
    neighbour = mode_neighbour;
  }

abbrev pub DeleteOutcome : List ℕ → Disk → ℤ × Disk → Type 0
DeleteOutcome filename d r =
    ((is_dots filename ≡ true) × (r ≡ (neg eacces, d)))
    ⊎ (Absent (d root_sector) filename × (r ≡ (neg enoent, d)))
    ⊎ ((i : ℕ) × (i < 16)
        × (names (d root_sector) filename i ≡ true)
        × Deleted d i (entry_inode (d root_sector) i) r)

module _ (unset name : List ℕ) (d : Disk) (n : IsRootName name) (u : IsUnset unset) (h : IsDisk d)
    (small : RootInodes d) where
  delete_file-step : delete_file unset name d ≡ (
      if is_dots (strncpy unset name 30)
      then (neg eacces, d)
      else delete_at root_sector d (find_in 16 0 (d root_sector) (strncpy unset name 30)))
  unfolding delete_file
  delete_file-step = rw (find_sector-root unset name n u d) refl

  used :
      (i : ℕ)
      → i < 16
      → names (d root_sector) (strncpy unset name 30) i ≡ true
      → IsInodeNo (entry_inode (d root_sector) i)
  unfolding names
  used i hi hit = (ground arith, small i hi)

  -- minix_DeleteFile of a name in the root directory whose entries have inodes up to 4096: -EACCES for "." and ".." and -ENOENT for a name that is not there, with nothing changed; else success for an entry with the name: that entry is free then, all others stay, and the mode of the inode is 0, but so is the mode of the next inode if it stands in the same sector.
  pub delete_file_lem : DeleteOutcome (strncpy unset name 30) d (delete_file unset name d)
  unfolding delete_at
  delete_file_lem = elim (Bool-cases (is_dots (strncpy unset name 30))) [
    | inl dots ↦ inl (dots, rw (delete_file-step, dots) refl)
    | inr plain ↦
        inr (elim (find_in-Outcome 16 0 16 (d root_sector) (strncpy unset name 30) (omega arith)) [
          | inl (nothing, all) ↦
              inl (λ j hj. all j (omega arith) hj, rw (delete_file-step, plain, nothing) refl)
          | inr (i, found, from, to, hit, before) ↦ inr (
            i,
            to,
            hit,
            rw (delete_file-step, plain, found)
                (delete_entry-Deleted d i (entry_inode (d root_sector) i) (used i to hit) to h),
          )
        ])
  ]
