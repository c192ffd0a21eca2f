-- ===== src/Irq/Gates.antt =====
-- What the processor reads from the gates of kernel/IRQ/traps.c.
use ly_system_os.Prelude.{
  ℕ, zero, suc, ◌+◌, ◌*◌, ◌/◌, ◌%◌, ◌^◌, ◌<◌, bit_or, ◌≡◌, refl, sym, subst, inl, inr, true, false,
  not, ◌&&◌, ◌||◌, Option, none, some, arith, ◌==◌, if◌then◌else◌,
}
use ly_system_os.Prelude.Bits.{test_bit}
use ly_system_os.Io.{Devices, ◌>>=◌}
use ly_system_os.Irq.{
  Gate, IdtTable, gate, set_idt_gate, Handlers, irq_gates, pic_remap, irq_init, traps_init,
}
use ly_system_os.Irq.Controller.{
  IsController, configured, configured-bits, mouse_init_lem, IsPicPort,
}

-- The address that a gate leads to, the lowest privilege that may call it, and whether it is a present
-- interrupt gate of the kernel's code segment, which uses the current stack.
unfoldable pub address_of : Gate → ℕ
address_of g = g.offset_low + 2 ^ 16 * g.offset_mid + 2 ^ 32 * g.offset_high

unfoldable pub dpl_of : Gate → ℕ
dpl_of g = g.attributes / 2 ^ 5 % 4

pub record IsInterruptGate (g : Gate) : Type 0 where
  pub present : g.attributes / 2 ^ 7 ≡ 1
  pub type : g.attributes % 2 ^ 5 ≡ 0xE
  pub code : g.selector ≡ 8
  pub stack : g.ist ≡ 0
  pub rest : g.reserved ≡ 0

-- A gate leads to `handler` for callers of privilege up to `dpl`.
pub record LeadsTo (handler dpl : ℕ) (g : Gate) : Type 0 where
  pub address : address_of g ≡ handler
  pub privilege : dpl_of g ≡ dpl
  pub good : IsInterruptGate g

attributes_lem : (dpl : ℕ) → dpl < 4 → bit_or 0x8E (dpl % 4 * 2 ^ 5) % 2 ^ 8 ≡ 0x8E + dpl * 2 ^ 5
attributes_lem zero h = refl
attributes_lem (suc zero) h = refl
attributes_lem (suc (suc zero)) h = refl
attributes_lem (suc (suc (suc zero))) h = refl
attributes_lem (suc (suc (suc (suc dpl)))) h = absurd (omega arith)

gate-LeadsTo :
    (handler dpl : ℕ) → handler < 2 ^ 64 → dpl < 4 → LeadsTo handler dpl (gate handler dpl)
unfolding gate address_of dpl_of
gate-LeadsTo handler dpl small low =
    let same = attributes_lem dpl low in
    record {
      address = omega arith;
      privilege = rw same (omega arith);
      good = record {
        present = rw same (omega arith);
        type = rw same (omega arith);
        code = refl;
        stack = refl;
        rest = refl;
      };
    }

-- The handler that a vector is to lead to, with the privilege; none: the vector is not the kernel's.
unfoldable pub handler_of : Handlers → ℕ → Option (ℕ × ℕ)
handler_of h v =
    if v == 0
    then some (h.divide_by_zero_handler, 0)
    else if v == 13
    then some (h.general_protection_handler, 0)
    else if v == 14
    then some (h.page_handler, 0)
    else if v == 0x80
    then some (h.syscall_interrupt_handler, 3)
    else if v == 32
    then some (h.irq0_handler, 0)
    else if v == 33
    then some (h.keyboard_handler, 0)
    else if v == 41
    then some (h.sci_handler, 0)
    else if v == 44
    then some (h.mouse_handler, 0)
    else if (v == 46) || (v == 47)
    then some (h.ide_handler, 0)
    else none

-- The gate of a vector: that of its handler, or the one that was there.
unfoldable pub gate_or : Option (ℕ × ℕ) → Gate → Gate
gate_or none g = g
gate_or (some (handler, dpl)) g = gate handler dpl

-- All gates that `traps_init` writes, in the order of the source.
unfoldable all_gates : Handlers → IdtTable → IdtTable
all_gates h t = irq_gates h (
    set_idt_gate 0x80 h.syscall_interrupt_handler 3 (
      set_idt_gate 14 h.page_handler 0 (
        set_idt_gate 13 h.general_protection_handler 0
          (set_idt_gate 0 h.divide_by_zero_handler 0 t))))

all_gates_lem :
    (h : Handlers) (t : IdtTable) (v : ℕ) → all_gates h t v ≡ gate_or (handler_of h v) (t v)
unfolding all_gates irq_gates set_idt_gate handler_of gate_or
all_gates_lem h t v = ground arith

-- The handlers stand at addresses of 64 bits.
pub record AreAddresses (h : Handlers) : Type 0 where
  pub divide_by_zero : h.divide_by_zero_handler < 2 ^ 64
  pub general_protection : h.general_protection_handler < 2 ^ 64
  pub page : h.page_handler < 2 ^ 64
  pub syscall_interrupt : h.syscall_interrupt_handler < 2 ^ 64
  pub irq0 : h.irq0_handler < 2 ^ 64
  pub keyboard : h.keyboard_handler < 2 ^ 64
  pub sci : h.sci_handler < 2 ^ 64
  pub mouse : h.mouse_handler < 2 ^ 64
  pub ide : h.ide_handler < 2 ^ 64

-- What a gate is to be: one to the handler, or the one that was there.
unfoldable pub GateFor : Option (ℕ × ℕ) → Gate → Gate → Type 0
GateFor none before g = g ≡ before
GateFor (some (handler, dpl)) before g = LeadsTo handler dpl g

handler_of-lt :
    (h : Handlers)
    → AreAddresses h
    → (v x dpl : ℕ) → handler_of h v ≡ some (x, dpl)
    → (x < 2 ^ 64) × (dpl < 4)
unfolding handler_of
handler_of-lt h fits v x dpl e =
    let a1 = fits.divide_by_zero in
    let a2 = fits.general_protection in
    let a3 = fits.page in
    let a4 = fits.syscall_interrupt in
    let a5 = fits.irq0 in
    let a6 = fits.keyboard in
    let a7 = fits.sci in let a8 = fits.mouse in let a9 = fits.ide in (ground arith, ground arith)

gate_or-GateFor :
    (o : Option (ℕ × ℕ)) (g : Gate)
    → ((x dpl : ℕ) → o ≡ some (x, dpl) → (x < 2 ^ 64) × (dpl < 4))
    → GateFor o g (gate_or o g)
unfolding GateFor gate_or
gate_or-GateFor none g small = refl
gate_or-GateFor (some (x, dpl)) g small =
    let (fits, low) = small x dpl refl in gate-LeadsTo x dpl fits low

module _ {D : Type 0} (dev : Devices D) (n : ℕ) (controller : IsController dev n) where
  -- The devices behind pic_remap.
  remapped : D → D
  remapped d = dev.outb 0xA1 0x00 (
      dev.outb 0x21 0x00 (
        dev.outb 0xA1 0x01 (
          dev.outb 0x21 0x01 (
            dev.outb 0xA1 0x02 (
              dev.outb 0x21 0x04 (
                dev.outb 0xA1 0x28
                  (dev.outb 0x21 0x20 (dev.outb 0xA0 0x11 (dev.outb 0x20 0x11 d)))))))))

  remapped-Quiet :
      (d : D) (c : ℕ) → controller.Quiet d false c → controller.Quiet (remapped d) false c
  unfolding remapped
  remapped-Quiet d c quiet =
      let master : IsPicPort 0x20 = inl refl in
      let mask : IsPicPort 0x21 = inr (inl refl) in
      let slave : IsPicPort 0xA0 = inr (inr (inl refl)) in
      let slave_mask : IsPicPort 0xA1 = inr (inr (inr refl)) in
      let keep = λ (x : D) (port v : ℕ) (pic : IsPicPort port) (q : controller.Quiet x false c).
        controller.pic_write x false c port v pic q in
      keep _ 0xA1 0x00 slave_mask (
        keep _ 0x21 0x00 mask (
          keep _ 0xA1 0x01 slave_mask (
            keep _ 0x21 0x01 mask (
              keep _ 0xA1 0x02 slave_mask (
                keep _ 0x21 0x04 mask (
                  keep _ 0xA1 0x28 slave_mask (
                    keep _ 0x21 0x20 mask
                      (keep _ 0xA0 0x11 slave (keep d 0x20 0x11 master quiet)))))))))

  -- traps_init with handlers at addresses of 64 bits, on a quiet controller of the mouse that keeps to the protocol and takes a command at once: it returns; each of its vectors has a present interrupt gate to its handler, for callers of privilege 3 for the system call and 0 else, and the gates of all other vectors are as before; the mouse reports, and of the controller's command byte bit 1 is set, bit 5 is not, and the others are as before.
  pub traps_init_lem :
      (h : Handlers)
      → AreAddresses h
      → (t : IdtTable) (d : D) (c : ℕ) → controller.Quiet d false c
      → c < 2 ^ 8
      → (t' : IdtTable) × (d' : D) × (e : ℕ) × (traps_init dev n h t d ≡ some (t', d'))
        × ((v : ℕ) → GateFor (handler_of h v) (t v) (t' v))
        × controller.Quiet d' true e
        × ((j : ℕ) → j < 8 → test_bit e j ≡ ((j == 1) || (not (j == 5) && test_bit c j)))
  unfolding traps_init irq_init pic_remap remapped all_gates
  traps_init_lem h fits t d c quiet byte =
      let (d', runs, on) =
        mouse_init_lem dev n controller (remapped d) c (remapped-Quiet d c quiet) in
      (
        all_gates h t,
        d',
        configured c,
        rw (runs, ◌>>=◌) refl,
        λ v.
            subst (λ g. GateFor (handler_of h v) (t v) g) (sym (all_gates_lem h t v))
              (gate_or-GateFor (handler_of h v) (t v) (handler_of-lt h fits v)),
        on,
        λ j small. configured-bits c j byte small,
      )
