-- ===== src/Tests/Ide.antt =====
-- A drive that answers at once, on which the driver reads and writes a sector.
use ly_system_os.Prelude.{
  ℕ, ◌+◌, ◌*◌, ◌/◌, ◌%◌, ◌^◌, ◌≤◌, ◌<◌, bit_and, ◌≡◌, refl, ap, ◌≢◌, ◌⊎◌, inl, inr, Bool, true,
  false, some, List, [], ◌∷◌, ◌++◌, arith, ◌==◌, if◌then◌else◌, replicate, length-replicate,
  All-replicate,
}
use ly_system_os.Fs.Disk.{Disk, read_sector, write_sector}
use ly_system_os.Io.{Devices, poll}
use ly_system_os.Drivers.Ide.{Ide, ide_read_sector, ide_write_sector}
use ly_system_os.Drivers.Ide.Drive.{lba_of, IsDrive}
use ly_system_os.Drivers.Ide.Sector.{ide_read_sector_lem, ide_write_sector_lem}

data Phase : Type 0 where
  idle : Phase
  pending : ℕ → Phase
  sending : List ℕ → Phase
  taking : ℕ → List ℕ → Phase

record Drive : Type 0 where
  disk : Disk
  regs : ℕ → ℕ
  phase : Phase

abbrev flush : Phase → Drive → Drive
flush idle t = t
flush (pending lba) t = t
flush (sending xs) t = t
flush (taking lba xs) t = record t { disk = write_sector lba xs t.disk; phase = idle }

abbrev command : ℕ → Drive → Drive
command v t =
    if v == 0x20
    then record t { phase = pending (lba_of t.regs) }
    else if v == 0x30
    then record t { phase = taking (lba_of t.regs) [] }
    else flush t.phase t

abbrev put : ℕ → ℕ → Drive → Drive
put port v t =
    if port == 0x1F7
    then command v t
    else record t { regs = λ q. if q == port then v else t.regs q }

abbrev next_word : Phase → Drive → ℕ × Drive
next_word idle t = (0, t)
next_word (pending lba) t = (0, t)
next_word (sending []) t = (0, t)
next_word (sending (a ∷ [])) t = (0, t)
next_word (sending (a ∷ b ∷ xs)) t = (a + 2 ^ 8 * b, record t { phase = sending xs })
next_word (taking lba xs) t = (0, t)

abbrev take_word : ℕ → Phase → Drive → Drive
take_word v idle t = t
take_word v (pending lba) t = t
take_word v (sending xs) t = t
take_word v (taking lba xs) t = record t { phase = taking lba (xs ++ (v % 2 ^ 8 ∷ v / 2 ^ 8 ∷ [])) }

abbrev interrupt : Phase → Drive → Bool × Drive
interrupt idle t = (false, t)
interrupt (pending lba) t = (true, record t { phase = sending (t.disk lba) })
interrupt (sending xs) t = (false, t)
interrupt (taking lba xs) t = (false, t)

abbrev prompt : Devices Drive
prompt = record {
  outb = put;
  inb = λ port t. (0, t);
  outw = λ port v t. take_word v t.phase t;
  inw = λ port t. next_word t.phase t;
  hlt = λ t. interrupt t.phase t;
}

abbrev Quiet : Drive → Disk → Type 0
Quiet t k = ((t.phase ≡ idle) ⊎ (t.phase ≡ sending [])) × (t.disk ≡ k)

put_reg :
    (t : Drive) (k : Disk) (p v : ℕ)
    → 0x1F2 ≤ p
    → p ≤ 0x1F6
    → Quiet t k
    → Quiet (put p v t) k
      × ((put p v t).regs p ≡ v)
      × ((q : ℕ) → q ≢ p → (put p v t).regs q ≡ t.regs q)
put_reg t k p v low high h =
    let other : (p == 0x1F7) ≡ false = ground arith in
    rw (other, put) (h, ground arith, λ q ne. ground arith)

prompt_ready :
    (t : Drive) (k : Disk)
    → Quiet t k
    → (r : Drive) × (poll prompt (λ v. bit_and v 0x80 == 0) 0x1F7 1 t ≡ some (tt, r)) × Quiet r k
unfolding poll
prompt_ready t k h = (t, refl, h)

prompt_taking :
    (t : Drive) (k : Disk) (lba : ℕ) (xs : List ℕ)
    → (t.phase ≡ taking lba xs) × (t.disk ≡ k)
    → (r : Drive) × (poll prompt (λ v. bit_and v 0x80 == 0) 0x1F7 1 t ≡ some (tt, r))
      × ((r.phase ≡ taking lba xs) × (r.disk ≡ k))
unfolding poll
prompt_taking t k lba xs h = (t, refl, h)

abbrev prompt_drive : IsDrive prompt 1
prompt_drive = record {
  Idle = Quiet;
  Pending = λ t k lba m. (t.phase ≡ pending lba) × (t.disk ≡ k) × (m ≡ 0);
  Sending = λ t k xs. (t.phase ≡ sending xs) × (t.disk ≡ k);
  Taking = λ t k lba xs. (t.phase ≡ taking lba xs) × (t.disk ≡ k);
  reg = λ t. t.regs;
  control = λ t k h. h;
  idle_ready = λ t k h. prompt_ready t k h;
  write_reg = λ t k p v low high h. put_reg t k p v low high h;
  read_command = λ t k h one. (0, omega arith, (refl, h.1, refl));
  waits = λ t k lba m h. absurd (let none_left = h.2 in omega arith);
  wakes = λ t k lba h. rw (h.0, interrupt) (refl, (ap (λ x. sending (x lba)) h.1, h.1));
  status = λ t k xs h. (h, h, h, h);
  word = λ t k a b xs h. rw (h.0, next_word) (refl, (refl, h.1));
  sent = λ t k h. (inr h.0, h.1);
  write_command = λ t k h one. (refl, h.1);
  taking_ready = λ t k lba xs h. prompt_taking t k lba xs h;
  take = λ t k lba a b xs ha hb h.
      rw (h.0, take_word)
        (
          ap (λ x. taking lba (xs ++ x))
              (let low : (a + 2 ^ 8 * b) % 2 ^ 8 ≡ a = omega arith in
                let high : (a + 2 ^ 8 * b) / 2 ^ 8 ≡ b = omega arith in rw (low, high) refl),
          h.1,
        );
  taken = λ t k lba xs size h. rw (h.0, flush) (inl refl, ap (write_sector lba xs) h.1);
}

abbrev blank : Drive
blank = record { disk = λ lba. replicate 512 (lba % 256); regs = λ q. 0; phase = idle }

abbrev unused : Ide Drive
unused = record { ide_irq_fired = true; devices = blank }

ide_read_sector_lem_example :
    (r : Ide Drive) × (ide_read_sector prompt 1 70000 unused
      ≡ some (read_sector 70000 blank.disk, r))
    × prompt_drive.Idle r.devices blank.disk
ide_read_sector_lem_example =
    ide_read_sector_lem prompt 1 prompt_drive 70000 unused blank.disk (inl refl, refl)
      (length-replicate 512 (70000 % 256))
      (All-replicate (λ b. b < 2 ^ 8) 512 (70000 % 256) (omega arith))

ide_write_sector_lem_example :
    (r : Ide Drive) × (ide_write_sector prompt 1 70000 (replicate 512 7) unused ≡ some (tt, r))
    × prompt_drive.Idle r.devices (write_sector 70000 (replicate 512 7) blank.disk)
ide_write_sector_lem_example =
    ide_write_sector_lem prompt 1 prompt_drive 70000 (replicate 512 7) unused blank.disk
      (inl refl, refl) (length-replicate {A = ℕ} 512 7)
      (All-replicate {A = ℕ} (λ b. b < 2 ^ 8) 512 7 (omega arith))
