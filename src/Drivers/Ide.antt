-- ===== src/Drivers/Ide.antt =====
-- kernel/drivers/ide.c: the ports that a sector is read and written through, and ide_handler of
-- kernel/IRQ/traps.c. Fs/Disk has the same two functions as the file system sees them.
pub mod Drive
pub mod Sector
use ly_system_os.Prelude.{
  ℕ, zero, suc, ◌+◌, ◌*◌, ◌/◌, ◌%◌, ◌^◌, bit_and, bit_or, Bool, true, false, none, some, List, [],
  ◌∷◌, ◌==◌,
}
use ly_system_os.Io.{Devices, Io, pure, ◌>>=◌, ◌>>◌, outb, inb, outw, inw, poll}

-- `ide_irq_fired` and the devices.
pub record Ide (D : Type 0) : Type 0 where
  pub ide_irq_fired : Bool
  pub devices : D

module _ {D : Type 0} (dev : Devices D) where
  -- An access to the ports, which leaves the flag alone.
  abbrev pub on : {A : Type 0} → Io D A → Io (Ide D) A
  on m s = elim (m s.devices) [ none ↦ none | some (a, d) ↦ some (a, record s { devices = d }) ]

  abbrev pub set_fired : Bool → Io (Ide D) (Unit {0})
  set_fired b s = some (tt, record s { ide_irq_fired = b })

  unfoldable pub ide_handler : Io (Ide D) (Unit {0})
  ide_handler = do
    set_fired true
    _ ← on (inb dev 0x1F7)
    _ ← on (inb dev 0x177)
    on (outb dev 0xA0 0x20)
    on (outb dev 0x20 0x20)

  -- A halt, and the handler if the interrupt of the drive ends it.
  unfoldable pub halt : Io (Ide D) (Unit {0})
  halt s =
      let (fired, d) = dev.hlt s.devices in
      elim fired [
        | true ↦ ide_handler (record s { devices = d })
        | false ↦ some (tt, record s { devices = d })
      ]

  unfoldable pub ide_wait_bsy : ℕ → Io (Ide D) (Unit {0})
  ide_wait_bsy n = on (poll dev (λ v. bit_and v 0x80 == 0) 0x1F7 n)

  -- With `n` halts left.
  unfoldable pub ide_wait_irq : ℕ → Io (Ide D) (Unit {0})
  ide_wait_irq zero s = elim s.ide_irq_fired [ true ↦ set_fired false s | false ↦ none ]
  ide_wait_irq (suc n) s = elim s.ide_irq_fired [
    | true ↦ set_fired false s
    | false ↦ elim (halt s) [ none ↦ none | some (_, next) ↦ ide_wait_irq n next ]
  ]

  -- What both functions write to the drive before the command.
  unfoldable pub select : ℕ → ℕ → Io (Ide D) (Unit {0})
  select n lba = do
    on (outb dev 0x3F6 0x00)
    ide_wait_bsy n
    on (outb dev 0x1F6 (bit_or 0xE0 (lba / 2 ^ 24 % 2 ^ 4)))
    on (outb dev 0x1F2 1)
    on (outb dev 0x1F3 (lba % 2 ^ 8))
    on (outb dev 0x1F4 (lba / 2 ^ 8 % 2 ^ 8))
    on (outb dev 0x1F5 (lba / 2 ^ 16 % 2 ^ 8))

  -- The loop that reads words, `k` of them: the bytes that it puts into the buffer.
  unfoldable pub read_words : ℕ → Io (Ide D) (List ℕ)
  read_words zero = pure []
  read_words (suc k) = do
    w ← on (inw dev 0x1F0)
    rest ← read_words k
    pure (w % 2 ^ 8 ∷ w / 2 ^ 8 % 2 ^ 8 ∷ rest)

  -- The loop that writes words, `k` of them, from the bytes of the buffer; behind its end there is nothing
  -- to write.
  unfoldable pub write_words : ℕ → List ℕ → Io (Ide D) (Unit {0})
  write_words zero buffer = pure tt
  write_words (suc k) [] = pure tt
  write_words (suc k) (low ∷ []) = pure tt
  write_words (suc k) (low ∷ high ∷ rest) = do
    on (outw dev 0x1F0 (low + 2 ^ 8 * high))
    write_words k rest

  -- `ide_read_sector`, with `n` reads of the status and `n` halts for each answer of the drive.
  unfoldable pub ide_read_sector : ℕ → ℕ → Io (Ide D) (List ℕ)
  ide_read_sector n lba = do
    select n lba
    set_fired false
    on (outb dev 0x1F7 0x20)
    ide_wait_irq n
    read_words 256

  -- `ide_write_sector`
  unfoldable pub ide_write_sector : ℕ → ℕ → List ℕ → Io (Ide D) (Unit {0})
  ide_write_sector n lba buffer = do
    select n lba
    set_fired false
    on (outb dev 0x1F7 0x30)
    ide_wait_bsy n
    write_words 256 buffer
    on (outb dev 0x1F7 0xE7)
    ide_wait_bsy n
