-- ===== src/Fs/Minix/Rename.antt =====
-- What minix_RenameFile of kernel/fs/minix/file.c does where the new directory is full.
use ly_system_os.Prelude.{
  ℕ, ◌^◌, ◌<◌, ◌≡◌, refl, ap, ◌∙◌, ◌≢◌, inl, inr, true, false, none, List, arith,
}
use ly_system_os.Prelude.Int.{neg}
use ly_system_os.Prelude.Errno.{enospc}
use ly_system_os.Fs.Disk.{Disk, read_sector, write_sector, write_sector_eq, write_sector_ne}
use ly_system_os.Fs.Minix.Layout.{entry_inode, free_slot, clear_entry}
use ly_system_os.Fs.Minix.Files.{add_entry, add_at}
use ly_system_os.Fs.Minix.Moves.{move_entry}
use ly_system_os.Fs.Minix.Entries.{IsSector, unused, free_slot-Outcome}
use ly_system_os.Fs.Minix.Edit.{read_small}
use ly_system_os.Fs.Minix.DeleteFile.{clear_entry-unused}

full_slot : (buf : List ℕ) → ((j : ℕ) → j < 16 → unused buf j ≡ false) → free_slot 16 0 buf ≡ none
full_slot buf full = elim (free_slot-Outcome 16 0 16 buf (omega arith)) [
  | inl (nothing, all) ↦ nothing
  | inr (j, found, from, to, hit, before) ↦ absurd (ground (arith, full j))
]

module _ (old i : ℕ) (d : Disk) where
  abbrev cleared : Disk
  cleared = write_sector old (clear_entry (read_sector old d) i) d

  cleared_old : old < 2 ^ 28 → cleared old ≡ clear_entry (d old) i
  cleared_old small =
      write_sector_eq old _ d small ∙ ap (λ b. clear_entry b i) (read_small old d small)

no_room :
    (old i new : ℕ) (new_filename : List ℕ) (d : Disk)
    → old < 2 ^ 28
    → new < 2 ^ 28
    → new ≢ old
    → ((j : ℕ) → j < 16 → unused (d new) j ≡ false)
    → move_entry old i new new_filename d ≡ (neg enospc, cleared old i d)
unfolding move_entry add_entry add_at
no_room old i new new_filename d small_old small_new other full =
    ap (add_at new (entry_inode (read_sector old d) i) new_filename (cleared old i d)) (
      ap (free_slot 16 0) (
        read_small new (cleared old i d) small_new
        ∙ write_sector_ne old (clear_entry (read_sector old d) i) d small_old new other)
      ∙ full_slot (d new) full)

-- The step of minix_RenameFile that moves the entry, into another directory that is full: -ENOSPC, but the entry of the old name is free all the same, and the new directory is as before.
pub move_entry-Lost :
    (old i new : ℕ) (new_filename : List ℕ) (d : Disk)
    → i < 16
    → IsSector (d old)
    → old < 2 ^ 28
    → new < 2 ^ 28
    → new ≢ old
    → ((j : ℕ) → j < 16 → unused (d new) j ≡ false)
    → ((move_entry old i new new_filename d).0 ≡ neg enospc)
      × (unused ((move_entry old i new new_filename d).1 old) i ≡ true)
      × ((move_entry old i new new_filename d).1 new ≡ d new)
move_entry-Lost old i new new_filename d hi whole small_old small_new other full =
    rw (no_room old i new new_filename d small_old small_new other full) (
      refl,
      ap (λ b. unused b i) (cleared_old old i d small_old) ∙ clear_entry-unused (d old) i whole hi,
      write_sector_ne old (clear_entry (read_sector old d) i) d small_old new other,
    )
