-- ===== src/Fs/Minix/Alloc.antt =====
-- What `minix_AllocateInode` returns and writes (kernel/fs/minix/inode.c), that `minix_FreeInode`
-- undoes it, and what the deletion of a file (kernel/fs/minix/file.c) does instead.
use ly_system_os.Prelude.{
  ℕ, ◌+◌, ◌*◌, ◌/◌, ◌%◌, ◌^◌, ◌≤◌, ◌<◌, ◌≡◌, refl, ap, ◌∙◌, ◌≢◌, ◌⊎◌, inl, inr, true, false, ◌||◌,
  none, some, List, arith, ◌==◌, length,
}
use ly_system_os.Prelude.Bitmap.{
  IsBytes, bit, set_at, clear_at, length-set_at, set_at-IsBytes, bit-set_at, bit-clear_at,
  clear_at-set_at,
}
use ly_system_os.Fs.Disk.{Disk, write_sector, write_sector_eq, write_sector_ne}
use ly_system_os.Fs.Minix.Bitmaps.{
  inode_bitmap_lba, inode_byte_from, allocate_inode, free_inode, delete_inode_bit, take_inode,
}
use ly_system_os.Fs.Minix.Inodes.{usable, inode_byte_from-Search}

-- The sector of the inode bitmap holds 512 bytes.
pub record IsBitmap (bm : List ℕ) : Type 0 where
  pub bytes : IsBytes bm
  pub whole : length bm ≡ 512

-- Inode `k + 1` was taken from the disk `d`: it was the first usable one, and only its bit changed.
pub record Took (d : Disk) (k : ℕ) (r : ℕ × Disk) : Type 0 where
  pub number : r.0 ≡ k + 1
  pub below : k < 4096
  pub was_usable : usable (d inode_bitmap_lba) k ≡ true
  pub first : (j : ℕ) → j < k → usable (d inode_bitmap_lba) j ≡ false
  pub taken : (j : ℕ) → bit (r.1 inode_bitmap_lba) j ≡ ((k == j) || bit (d inode_bitmap_lba) j)
  pub others : (n : ℕ) → n ≢ inode_bitmap_lba → r.1 n ≡ d n
  pub after : r.1 ≡ write_sector inode_bitmap_lba (set_at (d inode_bitmap_lba) k) d

-- No inode above 2 is free.
abbrev pub NoInode : Disk → Type 0
NoInode d = (j : ℕ) → j < 4096 → usable (d inode_bitmap_lba) j ≡ false

abbrev pub AllocOutcome : Disk → Type 0
AllocOutcome d = (NoInode d × (allocate_inode d ≡ (0, d))) ⊎ ((k : ℕ) × Took d k (allocate_inode d))

number_of : (k : ℕ) → k < 4096 → (k / 8 * 8 + k % 8 + 1) % 2 ^ 16 ≡ k + 1
number_of k hk = ground arith

allocate_inode-found :
    (d : Disk) (k : ℕ)
    → k < 4096
    → inode_byte_from 512 0 (d inode_bitmap_lba) ≡ some (k / 8, k % 8)
    → allocate_inode d ≡ (k + 1, write_sector inode_bitmap_lba (set_at (d inode_bitmap_lba) k) d)
unfolding allocate_inode take_inode set_at
allocate_inode-found d k hk e =
    ap (take_inode d) e
    ∙ ap (λ x. (x, write_sector inode_bitmap_lba (set_at (d inode_bitmap_lba) k) d))
        (number_of k hk)

allocate_inode-none :
    (d : Disk) → inode_byte_from 512 0 (d inode_bitmap_lba) ≡ none → allocate_inode d ≡ (0, d)
unfolding allocate_inode take_inode
allocate_inode-none d e = ap (take_inode d) e

in_bitmap : (k : ℕ) → k < 4096 → k / 8 < 512
in_bitmap k hk = omega arith

-- minix_AllocateInode of a disk with a whole inode bitmap: it returns 0 and writes nothing if no inode above 2 is free, and else it returns the lowest free inode above 2 and sets exactly its bit.
pub allocate_inode_lem : (d : Disk) → IsBitmap (d inode_bitmap_lba) → AllocOutcome d
allocate_inode_lem d h = elim (inode_byte_from-Search (d inode_bitmap_lba) 512 0 (omega arith)) [
  | inl (e, all) ↦ inl (λ j below. all j (omega arith) below, allocate_inode-none d e)
  | inr (k, e, from, to, hit, before) ↦ inr (
    k,
    rw (allocate_inode-found d k to e) (record {
      number = refl;
      below = to;
      was_usable = hit;
      first = λ j less. before j (omega arith) less;
      taken = λ j.
          rw (write_sector_eq inode_bitmap_lba (set_at (d inode_bitmap_lba) k) d (omega arith))
            (bit-set_at (d inode_bitmap_lba) k h.bytes j (rw h.whole (in_bitmap k to)));
      others = λ n other.
          write_sector_ne inode_bitmap_lba (set_at (d inode_bitmap_lba) k) d (omega arith) n other;
      after = refl;
    }),
  )
]

-- A usable bit is clear.
pub clear_of_usable : (bm : List ℕ) (k : ℕ) → usable bm k ≡ true → (bit bm k ≡ false) × (2 ≤ k)
clear_of_usable bm k h = (ground arith, ground arith)

undo :
    (k : ℕ) (bm : List ℕ) (d : Disk) (n : ℕ)
    → d inode_bitmap_lba ≡ bm
    → clear_at (set_at bm k) k ≡ bm
    → free_inode (k + 1) (write_sector inode_bitmap_lba (set_at bm k) d) n ≡ d n
unfolding free_inode write_sector
undo k bm d n same undone = ground arith

deleted :
    (bm : List ℕ) (k : ℕ)
    → IsBitmap bm
    → k + 1 < 4096
    → (bit (clear_at (set_at bm k) (k + 1)) k ≡ true)
      × (bit (clear_at (set_at bm k) (k + 1)) (k + 1) ≡ false)
deleted bm k h room =
    let inside : (k + 1) / 8 < length (set_at bm k) =
      rw (length-set_at bm k, h.whole) (in_bitmap (k + 1) room) in
    let clears = bit-clear_at (set_at bm k) (k + 1) (set_at-IsBytes bm k h.bytes) in
    let sets = bit-set_at bm k h.bytes k (rw h.whole (in_bitmap k (omega arith))) in
    (ground (arith, clears k inside, sets), ground (arith, clears (k + 1) inside))

module _ (d : Disk) (h : IsBitmap (d inode_bitmap_lba)) (k : ℕ)
    (t : Took d k (allocate_inode d)) where
  -- minix_FreeInode of the inode that minix_AllocateInode has just returned gives back, sector by sector, the disk from before.
  pub free_inode-allocate_inode :
      (n : ℕ) → free_inode (allocate_inode d).0 (allocate_inode d).1 n ≡ d n
  free_inode-allocate_inode n =
      rw (t.number, t.after)
        (undo k (d inode_bitmap_lba) d n refl (
          clear_at-set_at (d inode_bitmap_lba) k h.bytes (rw h.whole (in_bitmap k t.below))
            (clear_of_usable (d inode_bitmap_lba) k t.was_usable).0))

  -- The bitmap step of minix_DeleteFile, given an inode below 4096 that minix_AllocateInode has just returned, leaves that inode taken and gives back the next one.
  pub delete_inode_bit-Wrong :
      k + 1 < 4096
      → (bit (delete_inode_bit (allocate_inode d).0 (allocate_inode d).1 inode_bitmap_lba) k ≡ true)
        × (bit (delete_inode_bit (allocate_inode d).0 (allocate_inode d).1 inode_bitmap_lba) (k + 1)
            ≡ false)
  unfolding delete_inode_bit
  delete_inode_bit-Wrong room =
      rw
        (
          t.number,
          t.after,
          write_sector_eq inode_bitmap_lba (set_at (d inode_bitmap_lba) k) d (omega arith),
          write_sector_eq inode_bitmap_lba (clear_at (set_at (d inode_bitmap_lba) k) (k + 1))
              (write_sector inode_bitmap_lba (set_at (d inode_bitmap_lba) k) d) (omega arith),
        )
        (deleted (d inode_bitmap_lba) k h room)
