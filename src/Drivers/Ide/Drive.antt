-- ===== src/Drivers/Ide/Drive.antt =====
-- What kernel/drivers/ide.c relies on of the drive: the port protocol of an ATA drive for one sector at a
-- time. The drive is no part of the kernel, so its behaviour is a hypothesis of the theorems about the
-- driver.
use ly_system_os.Prelude.{
  ℕ, suc, ◌+◌, ◌*◌, ◌/◌, ◌%◌, ◌^◌, ◌≤◌, ◌<◌, bit_and, bit_or, ◌≡◌, refl, sym, ap, ◌∙◌, ◌≢◌, Bool,
  true, false, some, List, [], ◌∷◌, ◌++◌, arith, ◌==◌, ==_iff, length,
}
use ly_system_os.Prelude.Bits.{every_below, every_below-holds}
use ly_system_os.Fs.Disk.{Disk, write_sector}
use ly_system_os.Io.{Devices, ◌>>=◌, poll}
use ly_system_os.Drivers.Ide.{on, ide_wait_bsy, select}

-- The sector that the registers of the drive select, which have its number in four parts.
unfoldable pub lba_of : (ℕ → ℕ) → ℕ
lba_of reg = reg 0x1F3 + 2 ^ 8 * reg 0x1F4 + 2 ^ 16 * reg 0x1F5 + 2 ^ 24 * (reg 0x1F6 % 2 ^ 4)

-- One sector, of the first drive, by its number.
unfoldable pub IsSelect : (ℕ → ℕ) → Type 0
IsSelect reg = (reg 0x1F2 ≡ 1) × (reg 0x1F6 / 2 ^ 4 ≡ 0xE)

-- A drive among the devices, with its states: idle with what is on the disk, with an interrupt to come
-- behind a number of halts, sending the bytes that are left of a sector, and taking a sector of which it
-- has some bytes. `n` reads of the status are enough to see it ready, and `n` halts for its interrupt.
pub record IsDrive {D : Type 0} (dev : Devices D) (n : ℕ) : Type 1 where
  pub Idle : D → Disk → Type 0
  pub Pending : D → Disk → ℕ → ℕ → Type 0
  pub Sending : D → Disk → List ℕ → Type 0
  pub Taking : D → Disk → ℕ → List ℕ → Type 0
  pub reg : D → ℕ → ℕ
  pub control : (d : D) (k : Disk) → Idle d k → Idle (dev.outb 0x3F6 0 d) k
  pub idle_ready :
      (d : D) (k : Disk)
      → Idle d k
      → (r : D) × (poll dev (λ v. bit_and v 0x80 == 0) 0x1F7 n d ≡ some (tt, r)) × Idle r k
  pub write_reg :
      (d : D) (k : Disk) (p v : ℕ)
      → 0x1F2 ≤ p
      → p ≤ 0x1F6
      → Idle d k
      → Idle (dev.outb p v d) k
        × (reg (dev.outb p v d) p ≡ v)
        × ((q : ℕ) → q ≢ p → reg (dev.outb p v d) q ≡ reg d q)
  pub read_command :
      (d : D) (k : Disk)
      → Idle d k
      → IsSelect (reg d)
      → (m : ℕ) × (m < n) × Pending (dev.outb 0x1F7 0x20 d) k (lba_of (reg d)) m
  pub waits :
      (d : D) (k : Disk) (lba m : ℕ)
      → Pending d k lba (suc m)
      → ((dev.hlt d).0 ≡ false) × Pending (dev.hlt d).1 k lba m
  pub wakes :
      (d : D) (k : Disk) (lba : ℕ)
      → Pending d k lba 0
      → ((dev.hlt d).0 ≡ true) × Sending (dev.hlt d).1 k (k lba)
  pub status :
      (d : D) (k : Disk) (xs : List ℕ)
      → Sending d k xs
      → Sending (dev.inb 0x1F7 d).1 k xs
        × Sending (dev.inb 0x177 d).1 k xs
        × Sending (dev.outb 0xA0 0x20 d) k xs
        × Sending (dev.outb 0x20 0x20 d) k xs
  pub word :
      (d : D) (k : Disk) (a b : ℕ) (xs : List ℕ)
      → Sending d k (a ∷ b ∷ xs)
      → ((dev.inw 0x1F0 d).0 ≡ a + 2 ^ 8 * b) × Sending (dev.inw 0x1F0 d).1 k xs
  pub sent : (d : D) (k : Disk) → Sending d k [] → Idle d k
  pub write_command :
      (d : D) (k : Disk)
      → Idle d k
      → IsSelect (reg d)
      → Taking (dev.outb 0x1F7 0x30 d) k (lba_of (reg d)) []
  pub taking_ready :
      (d : D) (k : Disk) (lba : ℕ) (xs : List ℕ)
      → Taking d k lba xs
      → (r : D) × (poll dev (λ v. bit_and v 0x80 == 0) 0x1F7 n d ≡ some (tt, r)) × Taking r k lba xs
  pub take :
      (d : D) (k : Disk) (lba a b : ℕ) (xs : List ℕ)
      → a < 2 ^ 8
      → b < 2 ^ 8
      → Taking d k lba xs
      → Taking (dev.outw 0x1F0 (a + 2 ^ 8 * b) d) k lba (xs ++ (a ∷ b ∷ []))
  pub taken :
      (d : D) (k : Disk) (lba : ℕ) (xs : List ℕ)
      → length xs ≡ 512
      → Taking d k lba xs
      → Idle (dev.outb 0x1F7 0xE7 d) (write_sector lba xs k)

mode_all : every_below (λ x. bit_or 0xE0 x == 0xE0 + x) 16 ≡ true
unfolding every_below
mode_all = refl

mode_lem : (x : ℕ) → x < 16 → bit_or 0xE0 x ≡ 0xE0 + x
mode_lem x low =
    (==_iff _ _).0 (every_below-holds (λ x. bit_or 0xE0 x == 0xE0 + x) x 16 low mode_all)

module _ {D : Type 0} (dev : Devices D) (n : ℕ) (drive : IsDrive dev n) where
  -- The registers behind the five writes.
  five :
      (d : D) (k : Disk) (a b c e f : ℕ)
      → drive.Idle d k
      → (r : D) × (r
          ≡ dev.outb 0x1F5 f
              (dev.outb 0x1F4 e (dev.outb 0x1F3 c (dev.outb 0x1F2 b (dev.outb 0x1F6 a d)))))
        × drive.Idle r k
        × (drive.reg r 0x1F6 ≡ a)
        × (drive.reg r 0x1F2 ≡ b)
        × (drive.reg r 0x1F3 ≡ c)
        × (drive.reg r 0x1F4 ≡ e)
        × (drive.reg r 0x1F5 ≡ f)
  five d k a b c e f idle =
      let (i1, at1, o1) = drive.write_reg d k 0x1F6 a (omega arith) (omega arith) idle in
      let (i2, at2, o2) = drive.write_reg _ k 0x1F2 b (omega arith) (omega arith) i1 in
      let (i3, at3, o3) = drive.write_reg _ k 0x1F3 c (omega arith) (omega arith) i2 in
      let (i4, at4, o4) = drive.write_reg _ k 0x1F4 e (omega arith) (omega arith) i3 in
      let (i5, at5, o5) = drive.write_reg _ k 0x1F5 f (omega arith) (omega arith) i4 in
      (
        _,
        refl,
        i5,
        o5 0x1F6 (ground arith)
            ∙ o4 0x1F6 (ground arith)
            ∙ o3 0x1F6 (ground arith)
            ∙ o2 0x1F6 (ground arith)
            ∙ at1,
        o5 0x1F2 (ground arith) ∙ o4 0x1F2 (ground arith) ∙ o3 0x1F2 (ground arith) ∙ at2,
        o5 0x1F3 (ground arith) ∙ o4 0x1F3 (ground arith) ∙ at3,
        o5 0x1F4 (ground arith) ∙ at4,
        at5,
      )

  -- What select leaves: the drive idle, with one sector selected.
  pub select_lem :
      (lba : ℕ) (fired : Bool) (d : D) (k : Disk)
      → drive.Idle d k
      → (r : D) × (select dev n lba (record { ide_irq_fired = fired; devices = d })
          ≡ some (tt, record { ide_irq_fired = fired; devices = r }))
        × drive.Idle r k
        × IsSelect (drive.reg r)
        × (lba_of (drive.reg r) ≡ lba % 2 ^ 28)
  unfolding select ide_wait_bsy IsSelect lba_of
  select_lem lba fired d k idle =
      let (d1, ready, i1) = drive.idle_ready _ k (drive.control d k idle) in
      let (r, e, idle_r, at6, at2, at3, at4, at5) =
        five d1 k (bit_or 0xE0 (lba / 2 ^ 24 % 2 ^ 4)) 1 (lba % 2 ^ 8) (lba / 2 ^ 8 % 2 ^ 8)
          (lba / 2 ^ 16 % 2 ^ 8) i1 in
      let mode = at6 ∙ mode_lem (lba / 2 ^ 24 % 2 ^ 4) (omega arith) in
      (
        r,
        rw (ready, on, ◌>>=◌)
            (ap (λ x. some (tt, record { ide_irq_fired = fired; devices = x })) (sym e)),
        idle_r,
        (at2, omega arith),
        omega arith,
      )
