-- ===== src/Tests/Fs.antt =====
-- The inode bitmap: the theorems at a disk whose inodes 3 to 8 are taken.
use ly_system_os.Prelude.{
  ℕ, ◌+◌, ◌<◌, ◌≡◌, refl, sym, ap, subst, ◌∙◌, inl, inr, true, false, arith, set, replicate,
  All-set, All-replicate,
}
use ly_system_os.Prelude.Bits.{test_bit, set_bit}
use ly_system_os.Prelude.Bitmap.{bit, set_at}
use ly_system_os.Fs.Disk.{Disk, write_sector}
use ly_system_os.Fs.Minix.Bitmaps.{
  inode_bitmap_lba, inode_bit_from, inode_byte_from, allocate_inode, free_inode, delete_inode_bit,
  take_inode,
}
use ly_system_os.Fs.Minix.Alloc.{
  IsBitmap, Took, AllocOutcome, allocate_inode_lem, free_inode-allocate_inode,
  delete_inode_bit-Wrong,
}

abbrev blank : Disk
blank n = set (replicate 512 0) 0 0xFF

blank-IsBitmap : IsBitmap (blank inode_bitmap_lba)
blank-IsBitmap = record {
  bytes =
      All-set (λ b. b < 256) (replicate 512 0) 0 0xFF
        (All-replicate (λ b. b < 256) 512 0 (omega arith)) (omega arith);
  whole = refl;
}

abbrev after_eight : Disk
after_eight = write_sector inode_bitmap_lba (set_at (blank inode_bitmap_lba) 8) blank

takes_nine : allocate_inode blank ≡ (9, after_eight)
unfolding allocate_inode take_inode inode_byte_from inode_bit_from test_bit set_bit set_at
takes_nine = refl

number_is : (k : ℕ) → k + 1 ≡ 9 → k ≡ 8
number_is k e = omega arith

blank-Took : Took blank 8 (allocate_inode blank)
blank-Took = elim (allocate_inode_lem blank blank-IsBitmap) [
  | inl (nobody, e) ↦ absurd (omega (arith, ap (λ r. r.0) (sym e ∙ takes_nine)))
  | inr (k, t) ↦
      subst (λ i. Took blank i (allocate_inode blank))
        (number_is k (sym t.number ∙ ap (λ r. r.0) takes_nine)) t
]

allocate_inode_lem_example : AllocOutcome blank
allocate_inode_lem_example = allocate_inode_lem blank blank-IsBitmap

free_inode-allocate_inode_example :
    free_inode (allocate_inode blank).0 (allocate_inode blank).1 2 ≡ blank 2
free_inode-allocate_inode_example = free_inode-allocate_inode blank blank-IsBitmap 8 blank-Took 2

delete_inode_bit-Wrong_example :
    (bit (delete_inode_bit (allocate_inode blank).0 (allocate_inode blank).1 2) 8 ≡ true)
    × (bit (delete_inode_bit (allocate_inode blank).0 (allocate_inode blank).1 2) 9 ≡ false)
delete_inode_bit-Wrong_example =
    delete_inode_bit-Wrong blank blank-IsBitmap 8 blank-Took (omega arith)
