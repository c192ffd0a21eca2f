-- ===== src/Drivers/Clock/Init.antt =====
-- time_init of kernel/time.c: the reads of the clock's registers, over the devices behind the ports, and
-- their repetition until the seconds agree.
use ly_system_os.Prelude.{
  ℕ, zero, suc, ◌<◌, min, bit_and, bit_or, ◌≡◌, refl, ap, ◌∙◌, ◌≢◌, true, false, none, some, arith,
  ◌==◌, ==_iff,
}
use ly_system_os.Drivers.Clock.{Registers, Time, time_of}
use ly_system_os.Drivers.Clock.Hours.{registers_of, IsTime, time_of-registers_of, time_with}
use ly_system_os.Io.{Devices, Io, pure, ◌>>=◌, ◌>>◌, outb, inb}

module _ {D : Type 0} (dev : Devices D) where
  -- `CMOS_READ`
  unfoldable pub cmos_read : ℕ → Io D ℕ
  cmos_read addr = do outb dev 0x70 (bit_or 0x80 addr); inb dev 0x71

  -- The body of the loop: the registers, and the seconds again.
  unfoldable pub read_once : Io D (Registers × ℕ)
  read_once = do
    sec ← cmos_read 0x00
    min ← cmos_read 0x02
    hour ← cmos_read 0x04
    mday ← cmos_read 0x07
    mon ← cmos_read 0x08
    year ← cmos_read 0x09
    last_sec ← cmos_read 0x00
    pure (
      record { sec = sec; min = min; hour = hour; mday = mday; mon = mon; year = year },
      last_sec,
    )

  -- The loop, with `n` rounds left. none: no round is left, as when the seconds never agree.
  unfoldable pub read_registers : ℕ → Io D Registers
  read_registers zero d = none
  read_registers (suc n) d = elim (read_once d) [
    | none ↦ none
    | some ((r, last_sec), next) ↦ elim (r.sec == last_sec) [
      | true ↦ some (r, next)
      | false ↦ read_registers n next
    ]
  ]

  unfoldable pub time_init : ℕ → Io D Time
  time_init n = do r ← read_registers n; status_b ← cmos_read 0x0B; pure (time_of status_b r)

-- A clock that does not move on between the reads: its registers are `reg`.
pub record IsStill {D : Type 0} (dev : Devices D) (reg : ℕ → ℕ) (Holds : D → Type 0) : Type 0 where
  pub reads :
      (d : D) (addr : ℕ)
      → addr < 0x80
      → Holds d
      → ((dev.inb 0x71 (dev.outb 0x70 (bit_or 0x80 addr) d)).0 ≡ reg addr)
        × Holds (dev.inb 0x71 (dev.outb 0x70 (bit_or 0x80 addr) d)).1

-- The registers of the time.
abbrev pub registers_at : (ℕ → ℕ) → Registers
registers_at reg = record {
  sec = reg 0x00;
  min = reg 0x02;
  hour = reg 0x04;
  mday = reg 0x07;
  mon = reg 0x08;
  year = reg 0x09;
}

module _ {D : Type 0} (dev : Devices D) (reg : ℕ → ℕ) (Holds : D → Type 0)
    (still : IsStill dev reg Holds) where
  cmos_read_lem :
      (addr : ℕ) (d : D)
      → addr < 0x80
      → Holds d
      → (r : D) × (cmos_read dev addr d ≡ some (reg addr, r)) × Holds r
  unfolding cmos_read
  cmos_read_lem addr d small holds =
      let (value, later) = still.reads d addr small holds in
      (
        (dev.inb 0x71 (dev.outb 0x70 (bit_or 0x80 addr) d)).1,
        ap (λ v. some (v, (dev.inb 0x71 (dev.outb 0x70 (bit_or 0x80 addr) d)).1)) value,
        later,
      )

  read_once_lem :
      (d : D)
      → Holds d
      → (r : D) × (read_once dev d ≡ some ((registers_at reg, reg 0x00), r)) × Holds r
  unfolding read_once
  read_once_lem d holds =
      let (d1, e1, h1) = cmos_read_lem 0x00 d (omega arith) holds in
      let (d2, e2, h2) = cmos_read_lem 0x02 d1 (omega arith) h1 in
      let (d3, e3, h3) = cmos_read_lem 0x04 d2 (omega arith) h2 in
      let (d4, e4, h4) = cmos_read_lem 0x07 d3 (omega arith) h3 in
      let (d5, e5, h5) = cmos_read_lem 0x08 d4 (omega arith) h4 in
      let (d6, e6, h6) = cmos_read_lem 0x09 d5 (omega arith) h5 in
      let (d7, e7, h7) = cmos_read_lem 0x00 d6 (omega arith) h6 in
      (
        d7,
        rw (e1, ◌>>=◌, e2, ◌>>=◌, e3, ◌>>=◌, e4, ◌>>=◌, e5, ◌>>=◌, e6, ◌>>=◌, e7, ◌>>=◌) refl,
        h7,
      )

  read_registers_lem :
      (n : ℕ) (d : D)
      → Holds d
      → (r : D) × (read_registers dev (suc n) d ≡ some (registers_at reg, r)) × Holds r
  unfolding read_registers
  read_registers_lem n d holds =
      let (d1, once, h1) = read_once_lem d holds in
      let same : (reg 0x00 == reg 0x00) ≡ true = (==_iff _ _).1 refl in
      (d1, rw (once, same, read_registers) refl, h1)

  pub time_init_lem :
      (n : ℕ) (d : D)
      → Holds d
      → (r : D) × (time_init dev (suc n) d ≡ some (time_of (reg 0x0B) (registers_at reg), r))
        × Holds r
  unfolding time_init
  time_init_lem n d holds =
      let (d1, registers, h1) = read_registers_lem n d holds in
      let (d2, status, h2) = cmos_read_lem 0x0B d1 (omega arith) h1 in
      (d2, rw (registers, ◌>>=◌, status, ◌>>=◌) refl, h2)

  -- time_init, with a round of its loop or more, on a clock that stands still while it is read, counts 24 hours and holds a time of this century, as it is or in two digits as the status says: it returns that time, with months from 0 and the full year.
  pub time_init-registers_of :
      (n : ℕ) (d : D) (t : Registers)
      → Holds d
      → IsTime t
      → bit_and (reg 0x0B) 0x02 ≢ 0
      → registers_at reg ≡ registers_of (reg 0x0B) t
      → (r : D) × (time_init dev (suc n) d ≡ some (time_with t t.hour, r))
  time_init-registers_of n d t holds good full at =
      let (r, runs, later) = time_init_lem n d holds in
      (
        r,
        runs
            ∙ ap (λ x. some (x, r))
                (ap (time_of (reg 0x0B)) at ∙ time_of-registers_of (reg 0x0B) t good full),
      )
