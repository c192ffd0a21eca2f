-- ===== src/Fs/Minix/CreateFile.antt =====
-- minix_CreateFile of kernel/fs/minix/file.c on a name in the root directory, with all its results.
use ly_system_os.Prelude.{
  ℕ, ◌+◌, ◌*◌, ◌<◌, ◌≡◌, refl, sym, ap, subst, ◌∙◌, ◌≢◌, ◌⊎◌, inl, inr, true, false, none, some,
  List, arith, ◌==◌, if◌then◌else◌, ==_iff, Bool-cases, Option-cases,
}
use ly_system_os.Prelude.Int.{ℤ, pos, neg}
use ly_system_os.Prelude.Bitmap.{bit}
use ly_system_os.Prelude.Errno.{esuccess, eexist, enospc}
use ly_system_os.CString.{strncpy, text}
use ly_system_os.Fs.Disk.{Disk, read_sector, write_sector, write_sector_eq, write_sector_ne}
use ly_system_os.Fs.Minix.Bitmaps.{inode_bitmap_lba, allocate_inode}
use ly_system_os.Fs.Minix.Alloc.{Took, NoInode, allocate_inode_lem, clear_of_usable}
use ly_system_os.CString.Copy.{strncpy-text}
use ly_system_os.Prelude.Bytes.{put16, write_at}
use ly_system_os.Fs.Minix.Layout.{root_sector, edit_inode, free_slot, set_entry}
use ly_system_os.Fs.Minix.Path.{find_entry}
use ly_system_os.Fs.Minix.Files.{add_entry, file_inode, create_file, add_at}
use ly_system_os.Fs.Minix.Entries.{unused, free_slot-Outcome}
use ly_system_os.Fs.Minix.Edit.{inode_sector-lt, edit_inode_elsewhere}
use ly_system_os.Fs.Minix.RootNames.{IsRootName, IsUnset, text-filename, find_sector-root}
use ly_system_os.Fs.Minix.Create.{
  IsDisk, inodes-IsBitmap, RootFull, Created, ready-root, final-Created, ready,
}
use mathlib.Core.Path.{fun_ext}

-- Inode `k + 1` was taken and described, but the directory has no room for the name.
pub record Lost (d : Disk) (k : ℕ) (r : ℤ × Disk) : Type 0 where
  pub result : r.0 ≡ neg enospc
  pub full : RootFull d
  pub taken : bit (r.1 inode_bitmap_lba) k ≡ true
  pub was_free : bit (d inode_bitmap_lba) k ≡ false
  pub root : r.1 root_sector ≡ d root_sector

abbrev pub CreateOutcome : List ℕ → List ℕ → Disk → ℤ × Disk → Type 0
CreateOutcome unset name d r =
    ((find_entry unset name d ≢ 0) × (r ≡ (neg eexist, d)))
    ⊎ ((find_entry unset name d ≡ 0) × NoInode d × (r ≡ (neg enospc, d)))
    ⊎ ((find_entry unset name d ≡ 0) × (k : ℕ) × Lost d k r)
    ⊎ ((find_entry unset name d ≡ 0)
        × (k : ℕ) × Took d k (allocate_inode d)
        × Created unset name d k r)

nonzero : (k : ℕ) (x y : ℤ × Disk) → (if k + 1 == 0 then x else y) ≡ y
nonzero k x y = ground arith

module _ (unset name : List ℕ) (d : Disk) (n : IsRootName name) (u : IsUnset unset)
    (h : IsDisk d) where
  create_file-exists :
      find_entry unset name d ≢ 0 → create_file unset unset name d ≡ (neg eexist, d)
  unfolding create_file
  create_file-exists there = ground arith

  create_file-none :
      find_entry unset name d ≡ 0
      → allocate_inode d ≡ (0, d)
      → create_file unset unset name d ≡ (neg enospc, d)
  unfolding create_file
  create_file-none absent nobody = rw (absent, nobody, find_sector-root unset name n u d) refl

  create_file-adds :
      (k : ℕ)
      → find_entry unset name d ≡ 0
      → Took d k (allocate_inode d)
      → create_file unset unset name d
        ≡ add_at root_sector
            (k + 1)
            (strncpy unset name 30)
            (edit_inode (k + 1) file_inode (allocate_inode d).1)
            (free_slot 16 0 (d root_sector))
  unfolding create_file add_entry
  create_file-adds k absent t =
      rw (absent, t.number, find_sector-root unset name n u d)
        (nonzero k (neg enospc, (allocate_inode d).1)
            (add_at root_sector (k + 1) (strncpy unset name 30) (ready unset name d n u h k)
              (free_slot 16 0 (ready unset name d n u h k root_sector)))
          ∙ ap
              (λ b.
                add_at root_sector (k + 1) (strncpy unset name 30) (ready unset name d n u h k)
                  (free_slot 16 0 b))
              (ready-root unset name d n u h k t))

  lost :
      (k : ℕ)
      → Took d k (allocate_inode d)
      → RootFull d
      → Lost d k
          (add_at root_sector (k + 1) (strncpy unset name 30) (ready unset name d n u h k) none)
  unfolding add_at
  lost k t full = record {
    result = refl;
    full = full;
    taken =
        ap (λ b. bit b k)
          (edit_inode_elsewhere (k + 1) (allocate_inode d).1 (omega (arith, t.below)) file_inode
            inode_bitmap_lba (omega (arith, (inode_sector-lt (k + 1) (omega (arith, t.below))).0)))
        ∙ t.taken k
        ∙ rw ((==_iff k k).1 refl) refl;
    was_free = (clear_of_usable (d inode_bitmap_lba) k t.was_usable).0;
    root = ready-root unset name d n u h k t;
  }

  placed :
      (k i : ℕ)
      → Took d k (allocate_inode d)
      → find_entry unset name d ≡ 0
      → i < 16
      → unused (d root_sector) i ≡ true
      → Created unset name d k
          (add_at root_sector (k + 1) (strncpy unset name 30) (ready unset name d n u h k) (some i))
  unfolding add_at
  placed k i t absent hi free =
      final-Created unset name d n u h k i t absent hi free final
        (write_sector_eq root_sector _ (ready unset name d n u h k) (omega arith)
          ∙ ap (λ b. set_entry b i (k + 1) (strncpy unset name 30))
              (ready-root unset name d n u h k t))
        (λ s other.
          write_sector_ne root_sector _ (ready unset name d n u h k) (omega arith) s other)
        (pos esuccess, final) refl
    where
      final : Disk
      final =
          write_sector root_sector
            (set_entry (read_sector root_sector (ready unset name d n u h k)) i (k + 1)
              (strncpy unset name 30))
            (ready unset name d n u h k)

  -- With one content of both buffers.
  create_file-same : CreateOutcome unset name d (create_file unset unset name d)
  create_file-same = elim (Bool-cases (find_entry unset name d == 0)) [
    | inr there ↦ inl (ground arith, create_file-exists (ground arith))
    | inl absent ↦ inr (fresh ((==_iff (find_entry unset name d) 0).0 absent))
  ]
    where
      fresh :
          (absent : find_entry unset name d ≡ 0)
          → ((find_entry unset name d ≡ 0)
              × NoInode d
              × (create_file unset unset name d ≡ (neg enospc, d)))
            ⊎ ((find_entry unset name d ≡ 0) × (k : ℕ) × Lost d k (create_file unset unset name d))
            ⊎ ((find_entry unset name d ≡ 0)
                × (k : ℕ) × Took d k (allocate_inode d)
                × Created unset name d k (create_file unset unset name d))
      fresh absent = elim (allocate_inode_lem d (inodes-IsBitmap d h)) [
        | inl (nobody, e) ↦ inl (absent, nobody, create_file-none absent e)
        | inr (k, t) ↦ inr (elim (free_slot-Outcome 16 0 16 (d root_sector) (omega arith)) [
          | inl (nothing, all) ↦ inl (
            absent,
            k,
            rw (create_file-adds k absent t, nothing) (lost k t (λ j hj. all j (omega arith) hj)),
          )
          | inr (i, found, from, to, free, before) ↦
              inr (
                absent,
                k,
                t,
                rw (create_file-adds k absent t, found) (placed k i t absent to free),
              )
        ])
      ]

-- A directory entry keeps the text of a name alone.
set_entry-text :
    (buf : List ℕ) (i k : ℕ) (x y : List ℕ)
    → text x ≡ text y
    → set_entry buf i k x ≡ set_entry buf i k y
unfolding set_entry
set_entry-text buf i k x y same =
    ap (λ edit. write_at (i * 32 + 2) edit (put16 buf (i * 32) k))
      (fun_ext (λ b. strncpy-text b x y 30 same))

add_entry-text :
    (dir k : ℕ) (x y : List ℕ) (d : Disk)
    → text x ≡ text y
    → add_entry dir k x d ≡ add_entry dir k y d
unfolding add_entry add_at
add_entry-text dir k x y d same = elim (Option-cases (free_slot 16 0 (read_sector dir d))) [
  | inl e ↦ rw (e, add_at) refl
  | inr (i, e) ↦
      rw (e, add_at)
        (ap (λ b. (pos esuccess, write_sector dir b d))
          (set_entry-text (read_sector dir d) i k x y same))
]

module _ (own unset name : List ℕ) (d : Disk) (n : IsRootName name) (w : IsUnset own)
    (u : IsUnset unset) (h : IsDisk d) where
  -- What the two buffers hold makes no difference.
  create_file-own : create_file own unset name d ≡ create_file unset unset name d
  unfolding create_file
  create_file-own =
      let (inode_no, taken) = allocate_inode d in
      let same : text (strncpy own name 30) ≡ text (strncpy unset name 30) =
        text-filename own name n w ∙ sym (text-filename unset name n u) in
      rw
        (
          find_sector-root own name n w d,
          find_sector-root unset name n u d,
          add_entry-text root_sector inode_no (strncpy own name 30) (strncpy unset name 30)
              (edit_inode inode_no file_inode taken) same,
        )
        refl

  -- minix_CreateFile of a name in the root directory: -EEXIST with nothing changed if FindEntry finds it; -ENOSPC with nothing changed if no inode above 2 is free; -ENOSPC if the root directory is full, and then an inode that was free is taken all the same; else success, with the lowest free inode above 2, and then FindEntry finds that inode under the name, finds every other name in the root directory as before, and the inode is that of an empty file.
  pub create_file_lem : CreateOutcome unset name d (create_file own unset name d)
  create_file_lem =
      subst (λ r. CreateOutcome unset name d r) (sym create_file-own)
        (create_file-same unset name d n u h)
