-- ===== src/Fs/Minix/Edit.antt =====
-- kernel/fs/minix: what a change of an inode in its sector does to the disk and to the inodes.
use ly_system_os.Prelude.{
  ℕ, ◌+◌, ◌-◌, ◌%◌, ◌^◌, ◌≤◌, ◌<◌, ◌≡◌, refl, ap, ◌∙◌, ◌≢◌, List, arith, ltb, if◌then◌else◌, lt→ltb,
  length, get_or, drop, replicate,
}
use ly_system_os.Fs.Disk.{Disk, read_sector, write_sector_eq, write_sector_ne}
use ly_system_os.Prelude.Bytes.{get16, get32, write_at, get_or-write_at, get_or-drop}
use ly_system_os.CString.Memory.{get_or-memcpy}
use ly_system_os.Fs.Minix.Layout.{inode_sector, inode_offset, get_inode, edit_inode}

-- A number that the inode bitmap can give out.
abbrev pub IsInodeNo : ℕ → Type 0
IsInodeNo n = (0 < n) × (n ≤ 4096)

-- Inodes stand in the sectors 10 to 265.
pub inode_sector-lt : (n : ℕ) → IsInodeNo n → (10 ≤ inode_sector n) × (inode_sector n < 266)
unfolding inode_sector
inode_sector-lt n h = (omega arith, omega arith)

pub inode_offset-le : (n : ℕ) → IsInodeNo n → inode_offset n ≤ 480
unfolding inode_offset
inode_offset-le n h = ground arith

small_lba : (s : ℕ) → s < 2 ^ 28 → s % 2 ^ 28 ≡ s
small_lba s h = omega arith

pub read_small : (s : ℕ) (d : Disk) → s < 2 ^ 28 → read_sector s d ≡ d s
read_small s d h = ap d (small_lba s h)

module _ (n : ℕ) (d : Disk) (h : IsInodeNo n) where
  there : inode_sector n < 2 ^ 28
  there = omega (arith, (inode_sector-lt n h).1)

  pub read_inode_sector : read_sector (inode_sector n) d ≡ d (inode_sector n)
  read_inode_sector = read_small (inode_sector n) d there

  -- The bytes of an inode.
  pub get_or-get_inode :
      (k : ℕ)
      → k < 34
      → get_or (get_inode n d) k 0 ≡ get_or (d (inode_sector n)) (inode_offset n + k) 0
  unfolding get_inode
  get_or-get_inode k hk =
      get_or-memcpy (replicate 34 0) (drop (inode_offset n) (read_sector (inode_sector n) d)) 34 k
        hk
      ∙ first_part
      ∙ get_or-drop (inode_offset n) k (read_sector (inode_sector n) d)
      ∙ ap (λ b. get_or b (inode_offset n + k) 0) read_inode_sector
    where
      first_part :
          (if ltb k 34
            then get_or (drop (inode_offset n) (read_sector (inode_sector n) d)) k 0
            else get_or (replicate 34 0) k 0)
          ≡ get_or (drop (inode_offset n) (read_sector (inode_sector n) d)) k 0
      first_part = rw (lt→ltb k 34 hk) refl

  module _ (f : List ℕ → List ℕ) where
    pub edit_inode_there :
        edit_inode n f d (inode_sector n) ≡ write_at (inode_offset n) f (d (inode_sector n))
    unfolding edit_inode
    edit_inode_there =
        write_sector_eq (inode_sector n) _ d there
        ∙ ap (write_at (inode_offset n) f) read_inode_sector

    pub edit_inode_elsewhere : (s : ℕ) → s ≢ inode_sector n → edit_inode n f d s ≡ d s
    unfolding edit_inode
    edit_inode_elsewhere s other = write_sector_ne (inode_sector n) _ d there s other

  -- The inode after a change of its bytes, on any disk with that sector.
  pub get_or-get_inode_edited :
      (f : List ℕ → List ℕ) (s : List ℕ) (k : ℕ)
      → d (inode_sector n) ≡ write_at (inode_offset n) f s
      → inode_offset n ≤ length s
      → k < 34
      → get_or (get_inode n d) k 0 ≡ get_or (f (drop (inode_offset n) s)) k 0
  get_or-get_inode_edited f s k e inside hk =
      get_or-get_inode k hk
      ∙ ap (λ b. get_or b (inode_offset n + k) 0) e
      ∙ get_or-write_at f (inode_offset n) s (inode_offset n + k) inside
      ∙ behind (inode_offset n) k (get_or s (inode_offset n + k) 0) (f (drop (inode_offset n) s))
    where
      behind :
          (off k before : ℕ) (b : List ℕ)
          → (if ltb (off + k) off then before else get_or b (off + k - off) 0) ≡ get_or b k 0
      behind off k before b =
          let same : off + k - off ≡ k = omega arith in ground (arith, ap (λ m. get_or b m 0) same)

  -- The numbers of an inode, in its sector.
  pub get16-get_inode :
      (k : ℕ) → k < 33 → get16 (get_inode n d) k ≡ get16 (d (inode_sector n)) (inode_offset n + k)
  unfolding get16
  get16-get_inode k hk =
      let same : inode_offset n + (k + 1) ≡ inode_offset n + k + 1 = omega arith in
      ground (
        arith,
        get_or-get_inode k (omega arith),
        get_or-get_inode (k + 1) (omega arith),
        ap (λ m. get_or (d (inode_sector n)) m 0) same,
      )

  pub get32-get_inode :
      (k : ℕ) → k < 31 → get32 (get_inode n d) k ≡ get32 (d (inode_sector n)) (inode_offset n + k)
  unfolding get32
  get32-get_inode k hk =
      let same : inode_offset n + (k + 2) ≡ inode_offset n + k + 2 = omega arith in
      ground (
        arith,
        get16-get_inode k (omega arith),
        get16-get_inode (k + 2) (omega arith),
        ap (get16 (d (inode_sector n))) same,
      )
