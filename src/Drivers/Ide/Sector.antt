-- ===== src/Drivers/Ide/Sector.antt =====
-- That kernel/drivers/ide.c reads and writes the sector that it is asked for, on a drive that keeps to the
-- protocol.
use ly_system_os.Prelude.{
  ℕ, zero, suc, ◌+◌, ◌*◌, ◌/◌, ◌%◌, ◌^◌, ◌<◌, ◌≡◌, refl, sym, ap, subst, ◌∙◌, Bool, true, false,
  some, List, [], ◌∷◌, ◌++◌, append-nil, append_assoc, arith, length, All,
}
use ly_system_os.Fs.Disk.{Disk, read_sector, write_sector}
use ly_system_os.Io.{Devices, ◌>>=◌}
use ly_system_os.Drivers.Ide.{
  Ide, on, ide_handler, halt, ide_wait_bsy, ide_wait_irq, read_words, write_words, ide_read_sector,
  ide_write_sector,
}
use ly_system_os.Drivers.Ide.Drive.{IsDrive, select_lem}
use mathlib.Core.Path.{fun_ext}

-- Pairs of bytes.
unfoldable pub IsWords : ℕ → List ℕ → Type 0
IsWords zero xs = xs ≡ []
IsWords (suc n) [] = ⊥
IsWords (suc n) (a ∷ []) = ⊥
IsWords (suc n) (a ∷ b ∷ xs) = (a < 2 ^ 8) × (b < 2 ^ 8) × IsWords n xs

pub list-IsWords :
    (n : ℕ) (xs : List ℕ) → length xs ≡ 2 * n → All (λ b. b < 2 ^ 8) xs → IsWords n xs
unfolding IsWords
list-IsWords zero [] h small = refl
list-IsWords zero (x ∷ xs) h small = absurd (omega arith)
list-IsWords (suc n) [] h small = absurd (omega arith)
list-IsWords (suc n) (a ∷ []) h small = absurd (omega arith)
list-IsWords (suc n) (a ∷ b ∷ xs) h (ha, (hb, rest)) =
    (ha, hb, list-IsWords n xs (omega arith) rest)

-- The drive has the low 28 bits of the number.
write_sector_low :
    (lba : ℕ) (buffer : List ℕ) (k : Disk)
    → write_sector (lba % 2 ^ 28) buffer k ≡ write_sector lba buffer k
unfolding write_sector
write_sector_low lba buffer k =
    let low : lba % 2 ^ 28 % 2 ^ 28 ≡ lba % 2 ^ 28 = omega arith in fun_ext (λ m. rw low refl)

module _ {D : Type 0} (dev : Devices D) (n : ℕ) (drive : IsDrive dev n) where
  -- The words that the drive sends are put together to its bytes.
  read_words_lem :
      (j : ℕ) (xs : List ℕ) (fired : Bool) (d : D) (k : Disk)
      → IsWords j xs
      → drive.Sending d k xs
      → (r : D) × (read_words dev j (record { ide_irq_fired = fired; devices = d })
          ≡ some (xs, record { ide_irq_fired = fired; devices = r }))
        × drive.Idle r k
  unfolding read_words IsWords
  read_words_lem zero xs fired d k none_left sends = (
    d,
    ap (λ l. some (l, record { ide_irq_fired = fired; devices = d })) (sym none_left),
    drive.sent d k (subst (λ l. drive.Sending d k l) none_left sends),
  )
  read_words_lem (suc j) [] fired d k none_left sends = absurd none_left
  read_words_lem (suc j) (a ∷ []) fired d k none_left sends = absurd none_left
  read_words_lem (suc j) (a ∷ b ∷ xs) fired d k (ha, hb, rest) sends =
      let (value, goes_on) = drive.word d k a b xs sends in
      let (r, runs, idle) = read_words_lem j xs fired (dev.inw 0x1F0 d).1 k rest goes_on in
      let low : (a + 2 ^ 8 * b) % 2 ^ 8 ≡ a = omega arith in
      let high : (a + 2 ^ 8 * b) / 2 ^ 8 % 2 ^ 8 ≡ b = omega arith in
      (r, rw (runs, ◌>>=◌, value, low, high) refl, idle)

  halt_waits :
      (d : D) (k : Disk) (lba m : ℕ)
      → drive.Pending d k lba (suc m)
      → halt dev (record { ide_irq_fired = false; devices = d })
        ≡ some (tt, record { ide_irq_fired = false; devices = (dev.hlt d).1 })
  unfolding halt
  halt_waits d k lba m pending = rw ((drive.waits d k lba m pending).0, halt) refl

  -- The devices behind ide_handler.
  handled : D → D
  handled d = dev.outb 0x20 0x20 (dev.outb 0xA0 0x20 (dev.inb 0x177 (dev.inb 0x1F7 d).1).1)

  halt_wakes :
      (d : D) (k : Disk) (lba : ℕ)
      → drive.Pending d k lba 0
      → halt dev (record { ide_irq_fired = false; devices = d })
        ≡ some (tt, record { ide_irq_fired = true; devices = handled (dev.hlt d).1 })
  unfolding halt ide_handler handled
  halt_wakes d k lba pending = rw ((drive.wakes d k lba pending).0, halt) refl

  handled-Sending :
      (d : D) (k : Disk) (xs : List ℕ) → drive.Sending d k xs → drive.Sending (handled d) k xs
  unfolding handled
  handled-Sending d k xs sends =
      let (s1, _, _, _) = drive.status d k xs sends in
      let (_, s2, _, _) = drive.status _ k xs s1 in
      let (_, _, s3, _) = drive.status _ k xs s2 in let (_, _, _, s4) = drive.status _ k xs s3 in s4

  wait_on :
      (m : ℕ) (s next : Ide D)
      → s.ide_irq_fired ≡ false
      → halt dev s ≡ some (tt, next)
      → ide_wait_irq dev (suc m) s ≡ ide_wait_irq dev m next
  unfolding ide_wait_irq
  wait_on m s next quiet runs = rw (quiet, runs, ide_wait_irq) refl

  wait_over :
      (m : ℕ) (d : D)
      → ide_wait_irq dev m (record { ide_irq_fired = true; devices = d })
        ≡ some (tt, record { ide_irq_fired = false; devices = d })
  unfolding ide_wait_irq
  wait_over zero d = refl
  wait_over (suc m) d = refl

  -- The wait for the interrupt ends.
  ide_wait_irq_lem :
      (m halts : ℕ) (d : D) (k : Disk) (lba : ℕ)
      → m < halts
      → drive.Pending d k lba m
      → (r : D) × (ide_wait_irq dev halts (record { ide_irq_fired = false; devices = d })
          ≡ some (tt, record { ide_irq_fired = false; devices = r }))
        × drive.Sending r k (k lba)
  ide_wait_irq_lem m zero d k lba room pending = absurd (omega arith)
  ide_wait_irq_lem zero (suc halts) d k lba room pending = (
    handled (dev.hlt d).1,
    wait_on halts _ _ refl (halt_wakes d k lba pending) ∙ wait_over halts (handled (dev.hlt d).1),
    handled-Sending _ k _ (drive.wakes d k lba pending).1,
  )
  ide_wait_irq_lem (suc m) (suc halts) d k lba room pending =
      let (r, runs, sends) =
        ide_wait_irq_lem m halts (dev.hlt d).1 k lba (omega arith)
          (drive.waits d k lba m pending).1 in
      (r, wait_on halts _ _ refl (halt_waits d k lba m pending) ∙ runs, sends)

  -- ide_read_sector, on a drive that keeps to the protocol and is idle, with sectors of 512 bytes: it returns the bytes of the sector with the number's low 28 bits, and the drive is idle again with the same disk.
  pub ide_read_sector_lem :
      (lba : ℕ) (s : Ide D) (k : Disk)
      → drive.Idle s.devices k
      → length (k (lba % 2 ^ 28)) ≡ 512
      → All (λ b. b < 2 ^ 8) (k (lba % 2 ^ 28))
      → (r : Ide D) × (ide_read_sector dev n lba s ≡ some (read_sector lba k, r))
        × drive.Idle r.devices k
  unfolding ide_read_sector
  ide_read_sector_lem lba s k idle size bytes =
      let (d1, selects, i1, one, at) =
        select_lem dev n drive lba s.ide_irq_fired s.devices k idle in
      let (m, room, pending) = drive.read_command d1 k i1 one in
      let (d2, waited, sends) = ide_wait_irq_lem m n _ k _ room pending in
      let (d3, reads, last) =
        read_words_lem 256 (k (lba % 2 ^ 28)) false d2 k (list-IsWords 256 _ size bytes)
          (subst (λ x. drive.Sending d2 k (k x)) at sends) in
      (
        record { ide_irq_fired = false; devices = d3 },
        rw (selects, ◌>>=◌, waited, ◌>>=◌, reads) refl,
        last,
      )

  write_words_lem :
      (j : ℕ) (xs before : List ℕ) (fired : Bool) (d : D) (k : Disk) (lba : ℕ)
      → IsWords j xs
      → drive.Taking d k lba before
      → (r : D) × (write_words dev j xs (record { ide_irq_fired = fired; devices = d })
          ≡ some (tt, record { ide_irq_fired = fired; devices = r }))
        × drive.Taking r k lba (before ++ xs)
  unfolding write_words IsWords
  write_words_lem zero [] before fired d k lba none_left takes =
      (d, refl, subst (λ l. drive.Taking d k lba l) (sym (append-nil before)) takes)
  write_words_lem zero (x ∷ xs) before fired d k lba none_left takes = absurd (cc)
  write_words_lem (suc j) [] before fired d k lba none_left takes = absurd none_left
  write_words_lem (suc j) (a ∷ []) before fired d k lba none_left takes = absurd none_left
  write_words_lem (suc j) (a ∷ b ∷ xs) before fired d k lba (ha, hb, rest) takes =
      let (r, runs, last) =
        write_words_lem j xs (before ++ (a ∷ b ∷ [])) fired (dev.outw 0x1F0 (a + 2 ^ 8 * b) d) k lba
          rest (drive.take d k lba a b before ha hb takes) in
      (r, runs, subst (λ l. drive.Taking r k lba l) (append_assoc before (a ∷ b ∷ []) xs) last)

  -- ide_write_sector of 512 bytes, on a drive that keeps to the protocol and is idle: it returns, and the drive is idle again with the disk in which the sector with the number's low 28 bits holds those bytes.
  pub ide_write_sector_lem :
      (lba : ℕ) (buffer : List ℕ) (s : Ide D) (k : Disk)
      → drive.Idle s.devices k
      → length buffer ≡ 512
      → All (λ b. b < 2 ^ 8) buffer
      → (r : Ide D) × (ide_write_sector dev n lba buffer s ≡ some (tt, r))
        × drive.Idle r.devices (write_sector lba buffer k)
  unfolding ide_write_sector ide_wait_bsy
  ide_write_sector_lem lba buffer s k idle size bytes =
      let (d1, selects, i1, one, at) =
        select_lem dev n drive lba s.ide_irq_fired s.devices k idle in
      let (d2, ready, t2) = drive.taking_ready _ k _ [] (drive.write_command d1 k i1 one) in
      let (d3, writes, t3) =
        write_words_lem 256 buffer [] false d2 k _ (list-IsWords 256 buffer size bytes) t2 in
      let (d4, again, i4) = drive.idle_ready _ _ (drive.taken d3 k _ buffer size t3) in
      (
        record { ide_irq_fired = false; devices = d4 },
        rw (selects, ◌>>=◌, ready, ◌>>=◌, writes, ◌>>=◌, again, on, ◌>>=◌) refl,
        subst (λ x. drive.Idle d4 x)
            (ap (λ x. write_sector x buffer k) at ∙ write_sector_low lba buffer k) i4,
      )
