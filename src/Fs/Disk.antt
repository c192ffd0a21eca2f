-- ===== src/Fs/Disk.antt =====
-- kernel/drivers/ide.c as the file system sees it: sectors of 512 bytes, read and written whole. The
-- drive takes 28 bits of a sector number. Drivers/Ide has the port protocol below that.
use ly_system_os.Prelude.{
  ℕ, ◌%◌, ◌^◌, ◌<◌, ◌≡◌, refl, ◌≢◌, List, arith, ◌==◌, if◌then◌else◌, length, replicate,
}

abbrev pub Disk : Type 0
Disk = ℕ → List ℕ

-- `ide_read_sector`
abbrev pub read_sector : ℕ → Disk → List ℕ
read_sector lba d = d (lba % 2 ^ 28)

-- `ide_write_sector`
unfoldable pub write_sector : ℕ → List ℕ → Disk → Disk
write_sector lba buffer d n = if n == lba % 2 ^ 28 then buffer else d n

-- A buffer of the size of a sector, cleared.
unfoldable pub blank_sector : List ℕ
blank_sector = replicate 512 0

pub length-blank_sector : length blank_sector ≡ 512
unfolding blank_sector
length-blank_sector = refl

module _ (lba : ℕ) (buffer : List ℕ) (d : Disk) (h : lba < 2 ^ 28) where
  pub write_sector_eq : write_sector lba buffer d lba ≡ buffer
  unfolding write_sector
  write_sector_eq = ground arith

  pub write_sector_ne : (n : ℕ) → n ≢ lba → write_sector lba buffer d n ≡ d n
  unfolding write_sector
  write_sector_ne n other = ground arith
