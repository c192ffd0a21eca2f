-- ===== src/Tests/Mounts.antt =====
-- Mounting and renaming: the theorems at disks where they go wrong.
use ly_system_os.Prelude.{
  ℕ, ◌+◌, ◌<◌, ◌≡◌, refl, sym, ap, subst, ◌∙◌, inl, inr, true, false, not, List, ◌∷◌, ◌++◌, arith,
  replicate, All-replicate, All-append,
}
use ly_system_os.Prelude.Int.{neg}
use ly_system_os.Prelude.Bits.{test_bit, set_bit, every_below, every_below-holds}
use ly_system_os.Prelude.Errno.{einval, enospc}
use ly_system_os.CString.{codes}
use ly_system_os.Fs.Disk.{Disk}
use ly_system_os.Fs.Minix.Bitmaps.{
  inode_bitmap_lba, inode_bit_from, inode_byte_from, allocate_inode, take_inode,
}
use ly_system_os.Fs.Minix.Alloc.{IsBitmap, Took, allocate_inode_lem}
use ly_system_os.Prelude.Bytes.{get16}
use ly_system_os.Fs.Minix.Layout.{entry_inode}
use ly_system_os.Fs.Minix.Moves.{move_entry}
use ly_system_os.Fs.Minix.Super.{super_block_of, get_super_block, minixfs_init}
use ly_system_os.Fs.Minix.Entries.{IsSector, unused}
use ly_system_os.Fs.Minix.Rename.{move_entry-Lost}
use ly_system_os.Fs.Minix.Mount.{Mounts, allocate_inode-Unmounts}

-- A disk of the second magic number whose inodes 1 to 129 are taken.
unfoldable magic_sector : List ℕ
magic_sector = replicate 16 0xFF ++ (0x79 ∷ 0x24 ∷ replicate 494 0)

unfoldable magic_disk : Disk
magic_disk n = magic_sector

magic-IsBitmap : IsBitmap (magic_disk inode_bitmap_lba)
unfolding magic_disk magic_sector
magic-IsBitmap = record {
  bytes =
      All-append (λ b. b < 256) (replicate 16 0xFF) (0x79 ∷ 0x24 ∷ replicate 494 0)
        (All-replicate (λ b. b < 256) 16 0xFF (omega arith))
        (omega arith, (omega arith, All-replicate (λ b. b < 256) 494 0 (omega arith)));
  whole = refl;
}

magic-Mounts : Mounts magic_disk
unfolding magic_disk magic_sector get_super_block super_block_of get16
magic-Mounts = refl

takes_130 : (allocate_inode magic_disk).0 ≡ 130
unfolding magic_disk magic_sector allocate_inode take_inode inode_byte_from inode_bit_from test_bit
    set_bit
takes_130 = refl

number_is : (k : ℕ) → k + 1 ≡ 130 → k ≡ 129
number_is k e = omega arith

magic-Took : Took magic_disk 129 (allocate_inode magic_disk)
magic-Took = elim (allocate_inode_lem magic_disk magic-IsBitmap) [
  | inl (nobody, e) ↦ absurd (omega (arith, ap (λ r. r.0) e, takes_130))
  | inr (k, t) ↦
      subst (λ i. Took magic_disk i (allocate_inode magic_disk))
        (number_is k (sym t.number ∙ takes_130)) t
]

allocate_inode-Unmounts_example : (minixfs_init (allocate_inode magic_disk).1).0 ≡ neg einval
allocate_inode-Unmounts_example =
    allocate_inode-Unmounts magic_disk magic-IsBitmap magic-Mounts 129 magic-Took (omega arith)
      (omega arith)

-- Every directory entry of every sector is in use.
unfoldable crowded : Disk
crowded n = replicate 512 1

crowded_table : every_below (λ j. not (unused (crowded 500) j)) 16 ≡ true
unfolding crowded every_below entry_inode get16
crowded_table = refl

crowded_full : (j : ℕ) → j < 16 → unused (crowded 500) j ≡ false
crowded_full j h =
    ground (arith, every_below-holds (λ j. not (unused (crowded 500) j)) j 16 h crowded_table)

crowded-IsSector : IsSector (crowded 438)
unfolding crowded
crowded-IsSector = refl

move_entry-Lost_example :
    ((move_entry 438 3 500 (codes "b") crowded).0 ≡ neg enospc)
    × (unused ((move_entry 438 3 500 (codes "b") crowded).1 438) 3 ≡ true)
    × ((move_entry 438 3 500 (codes "b") crowded).1 500 ≡ crowded 500)
move_entry-Lost_example =
    move_entry-Lost 438 3 500 (codes "b") crowded (omega arith) crowded-IsSector (omega arith)
      (omega arith) (omega arith) crowded_full
