-- ===== src/Irq.antt =====
-- kernel/IRQ/traps.c: the table of gates, and the set-up of the interrupt controllers, of the mouse and of
-- the handlers.
pub mod Controller
pub mod Gates
use ly_system_os.Prelude.{ℕ, ◌-◌, ◌*◌, ◌/◌, ◌%◌, ◌^◌, bit_and, bit_or, not, ◌==◌, if◌then◌else◌}
use ly_system_os.Io.{Devices, Io, pure, ◌>>=◌, ◌>>◌, outb, inb, poll}

-- `struct idt_entry_t`
pub record Gate : Type 0 where
  pub offset_low : ℕ
  pub selector : ℕ
  pub ist : ℕ
  pub attributes : ℕ
  pub offset_mid : ℕ
  pub offset_high : ℕ
  pub reserved : ℕ

-- `idt_table`, by the vector.
abbrev pub IdtTable : Type 0
IdtTable = ℕ → Gate

unfoldable pub gate : ℕ → ℕ → Gate
gate handler dpl = record {
  offset_low = handler % 2 ^ 16;
  selector = 0x08;
  ist = 0;
  attributes = bit_or 0x8E (dpl % 4 * 2 ^ 5) % 2 ^ 8;
  offset_mid = handler / 2 ^ 16 % 2 ^ 16;
  offset_high = handler / 2 ^ 32 % 2 ^ 32;
  reserved = 0;
}

unfoldable pub set_idt_gate : ℕ → ℕ → ℕ → IdtTable → IdtTable
set_idt_gate vector handler dpl t = λ v. if v == vector then gate handler dpl else t v

-- The addresses of the handlers, which the linker chooses.
pub record Handlers : Type 0 where
  pub divide_by_zero_handler : ℕ
  pub general_protection_handler : ℕ
  pub page_handler : ℕ
  pub syscall_interrupt_handler : ℕ
  pub irq0_handler : ℕ
  pub keyboard_handler : ℕ
  pub sci_handler : ℕ
  pub mouse_handler : ℕ
  pub ide_handler : ℕ

-- The gates of `irq_init`.
unfoldable pub irq_gates : Handlers → IdtTable → IdtTable
irq_gates h t = set_idt_gate 47 h.ide_handler 0 (
    set_idt_gate 46 h.ide_handler 0 (
      set_idt_gate 44 h.mouse_handler 0 (
        set_idt_gate 41 h.sci_handler 0
          (set_idt_gate 33 h.keyboard_handler 0 (set_idt_gate 32 h.irq0_handler 0 t)))))

module _ {D : Type 0} (dev : Devices D) where
  unfoldable pub pic_remap : Io D (Unit {0})
  pic_remap = do
    outb dev 0x20 0x11
    outb dev 0xA0 0x11
    outb dev 0x21 0x20
    outb dev 0xA1 0x28
    outb dev 0x21 0x04
    outb dev 0xA1 0x02
    outb dev 0x21 0x01
    outb dev 0xA1 0x01
    outb dev 0x21 0x00
    outb dev 0xA1 0x00

  -- `while (!(inb(0x64) & 1))` and `while (inb(0x64) & 2)`
  unfoldable pub wait_full : ℕ → Io D (Unit {0})
  wait_full n = poll dev (λ v. not (bit_and v 1 == 0)) 0x64 n

  unfoldable pub wait_taken : ℕ → Io D (Unit {0})
  wait_taken n = poll dev (λ v. bit_and v 2 == 0) 0x64 n

  -- The commands of `irq_init` to the controller of the mouse, with `n` reads for each of its answers.
  unfoldable pub mouse_init : ℕ → Io D (Unit {0})
  mouse_init n = do
    outb dev 0x64 0xA8
    outb dev 0x64 0x20
    wait_full n
    b ← inb dev 0x60
    outb dev 0x64 0x60
    wait_taken n
    outb dev 0x60 (bit_and (bit_or b 2) (255 - 0x20))
    outb dev 0x64 0xD4
    wait_taken n
    outb dev 0x60 0xF4
    wait_full n
    _ ← inb dev 0x60
    mask ← inb dev 0xA1
    outb dev 0xA1 (bit_and mask (255 - 2))

  unfoldable pub irq_init : ℕ → Handlers → IdtTable → Io D IdtTable
  irq_init n h t = do pic_remap; mouse_init n; pure (irq_gates h t)

  unfoldable pub traps_init : ℕ → Handlers → IdtTable → Io D IdtTable
  traps_init n h t = irq_init n h (
      set_idt_gate 0x80 h.syscall_interrupt_handler 3 (
        set_idt_gate 14 h.page_handler 0 (
          set_idt_gate 13 h.general_protection_handler 0
            (set_idt_gate 0 h.divide_by_zero_handler 0 t))))
