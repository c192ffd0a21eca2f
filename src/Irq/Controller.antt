-- ===== src/Irq/Controller.antt =====
-- What irq_init of kernel/IRQ/traps.c relies on of the controller behind the ports 0x60 and 0x64 (the 8042
-- of a PC), to which the mouse is connected. It is no part of the kernel, so its behaviour is a
-- hypothesis of the theorems about irq_init.
use ly_system_os.Prelude.{
  ℕ, zero, suc, ◌-◌, ◌^◌, ◌<◌, bit_and, bit_or, ◌≡◌, refl, subst, ◌⊎◌, inr, Bool, true, false, not,
  ◌&&◌, ◌||◌, some, arith, ◌==◌, if◌then◌else◌,
}
use ly_system_os.Prelude.Bits.{test_bit, every_below, every_below-holds}
use ly_system_os.Io.{Devices, ◌>>=◌, poll}
use ly_system_os.Irq.{wait_full, wait_taken, mouse_init}

-- Where a byte for the controller goes.
pub data Target : Type 0 where
  command_byte : Target
  mouse : Target

-- The ports of the interrupt controllers.
abbrev pub IsPicPort : ℕ → Type 0
IsPicPort p = (p ≡ 0x20) ⊎ ((p ≡ 0x21) ⊎ ((p ≡ 0xA0) ⊎ (p ≡ 0xA1)))

-- A controller among the devices, with its command byte and whether the mouse reports, in one of the
-- states: quiet; answering with a byte that comes behind a number of reads of the status; holding a byte
-- that is to be read; expecting a byte, which it takes behind a number of reads of the status; and open
-- for that byte. Bit 0 of the status tells that a byte is to be read, bit 1 that one is not to be written
-- yet. Fewer than `n` reads come before each answer. A command that is written is taken at once, and no
-- key is pressed meanwhile.
pub record IsController {D : Type 0} (dev : Devices D) (n : ℕ) : Type 1 where
  pub Quiet : D → Bool → ℕ → Type 0
  pub Answering : D → Bool → ℕ → ℕ → ℕ → Type 0
  pub Holding : D → Bool → ℕ → ℕ → Type 0
  pub Expecting : D → Target → ℕ → ℕ → Type 0
  pub Open : D → Target → ℕ → Type 0
  pub pic_write :
      (d : D) (b : Bool) (c port v : ℕ)
      → IsPicPort port
      → Quiet d b c
      → Quiet (dev.outb port v d) b c
  pub pic_read : (d : D) (b : Bool) (c : ℕ) → Quiet d b c → Quiet (dev.inb 0xA1 d).1 b c
  pub enable :
      (d : D) (c : ℕ) → Quiet d false c → Quiet (dev.outb 0x64 0xA8 d) false (bit_and c 0xDF)
  pub ask_command :
      (d : D) (c : ℕ)
      → Quiet d false c
      → (m : ℕ) × (m < n) × Answering (dev.outb 0x64 0x20 d) false c c m
  pub no_answer :
      (d : D) (b : Bool) (c byte m : ℕ)
      → Answering d b c byte (suc m)
      → ((bit_and (dev.inb 0x64 d).0 1 == 0) ≡ true) × Answering (dev.inb 0x64 d).1 b c byte m
  pub answer :
      (d : D) (b : Bool) (c byte : ℕ)
      → Answering d b c byte 0
      → ((bit_and (dev.inb 0x64 d).0 1 == 0) ≡ false) × Holding (dev.inb 0x64 d).1 b c byte
  pub read :
      (d : D) (b : Bool) (c byte : ℕ)
      → Holding d b c byte
      → ((dev.inb 0x60 d).0 ≡ byte) × Quiet (dev.inb 0x60 d).1 b c
  pub to_command :
      (d : D) (c : ℕ)
      → Quiet d false c
      → (m : ℕ) × (m < n) × Expecting (dev.outb 0x64 0x60 d) command_byte c m
  pub to_mouse :
      (d : D) (c : ℕ)
      → Quiet d false c
      → (m : ℕ) × (m < n) × Expecting (dev.outb 0x64 0xD4 d) mouse c m
  pub busy :
      (d : D) (t : Target) (c m : ℕ)
      → Expecting d t c (suc m)
      → ((bit_and (dev.inb 0x64 d).0 2 == 0) ≡ false) × Expecting (dev.inb 0x64 d).1 t c m
  pub free :
      (d : D) (t : Target) (c : ℕ)
      → Expecting d t c 0
      → ((bit_and (dev.inb 0x64 d).0 2 == 0) ≡ true) × Open (dev.inb 0x64 d).1 t c
  pub configure : (d : D) (c v : ℕ) → Open d command_byte c → Quiet (dev.outb 0x60 v d) false v
  pub report :
      (d : D) (c : ℕ)
      → Open d mouse c
      → (m : ℕ) × (m < n) × Answering (dev.outb 0x60 0xF4 d) true c 0xFA m

-- The command byte that irq_init leaves, for the one before.
unfoldable pub configured : ℕ → ℕ
configured c = bit_and (bit_or (bit_and c 0xDF) 2) (255 - 0x20)

bits_test : ℕ → ℕ → Bool
bits_test c j =
    let wanted = (j == 1) || (not (j == 5) && test_bit c j) in
    if test_bit (configured c) j then wanted else not wanted

bits_table : every_below (λ c. every_below (λ j. bits_test c j) 8) 256 ≡ true
unfolding every_below bits_test configured test_bit
bits_table = refl

-- Bit 1 is set, for the interrupts of the mouse, bit 5 is not, so that its clock runs, and the others are
-- as before.
pub configured-bits :
    (c j : ℕ)
    → c < 2 ^ 8
    → j < 8
    → test_bit (configured c) j ≡ ((j == 1) || (not (j == 5) && test_bit c j))
unfolding bits_test
configured-bits c j byte small = choice (test_bit (configured c) j) _ (
    every_below-holds (λ j. bits_test c j) j 8 small
      (every_below-holds (λ c. every_below (λ j. bits_test c j) 8) c 256 byte bits_table))
  where
    choice : (x y : Bool) → (if x then y else not y) ≡ true → x ≡ y
    choice x y e = ground arith

module _ {D : Type 0} (dev : Devices D) (n : ℕ) (controller : IsController dev n) where
  wait_full_lem :
      (m reads : ℕ) (d : D) (b : Bool) (c byte : ℕ)
      → m < reads
      → controller.Answering d b c byte m
      → (r : D) × (wait_full dev reads d ≡ some (tt, r)) × controller.Holding r b c byte
  unfolding wait_full poll
  wait_full_lem m zero d b c byte room answers = absurd (omega arith)
  wait_full_lem zero (suc reads) d b c byte room answers =
      let (there, holds) = controller.answer d b c byte answers in
      ((dev.inb 0x64 d).1, rw (there, wait_full, poll) refl, holds)
  wait_full_lem (suc m) (suc reads) d b c byte room answers =
      let (missing, goes_on) = controller.no_answer d b c byte m answers in
      let (r, runs, holds) = wait_full_lem m reads _ b c byte (omega arith) goes_on in
      (r, rw (missing, wait_full, poll) runs, holds)

  wait_taken_lem :
      (m reads : ℕ) (d : D) (t : Target) (c : ℕ)
      → m < reads
      → controller.Expecting d t c m
      → (r : D) × (wait_taken dev reads d ≡ some (tt, r)) × controller.Open r t c
  unfolding wait_taken poll
  wait_taken_lem m zero d t c room expects = absurd (omega arith)
  wait_taken_lem zero (suc reads) d t c room expects =
      let (ready, opens) = controller.free d t c expects in
      ((dev.inb 0x64 d).1, rw (ready, wait_taken, poll) refl, opens)
  wait_taken_lem (suc m) (suc reads) d t c room expects =
      let (not_yet, goes_on) = controller.busy d t c m expects in
      let (r, runs, opens) = wait_taken_lem m reads _ t c (omega arith) goes_on in
      (r, rw (not_yet, wait_taken, poll) runs, opens)

  -- The commands to the controller: each wait ends, and the mouse reports.
  pub mouse_init_lem :
      (d : D) (c : ℕ)
      → controller.Quiet d false c
      → (r : D) × (mouse_init dev n d ≡ some (tt, r)) × controller.Quiet r true (configured c)
  unfolding mouse_init configured
  mouse_init_lem d c quiet =
      let (m1, room1, asked) = controller.ask_command _ _ (controller.enable d c quiet) in
      let (d1, one, holds) = wait_full_lem m1 n _ false _ _ room1 asked in
      let (same, q1) = controller.read d1 false _ _ holds in
      let (m2, room2, expects) = controller.to_command _ _ q1 in
      let (d2, two, opens) = wait_taken_lem m2 n _ command_byte _ room2 expects in
      let q2 =
        controller.configure d2 _ (bit_and (bit_or (dev.inb 0x60 d1).0 2) (255 - 0x20)) opens in
      let (m3, room3, again) = controller.to_mouse _ _ q2 in
      let (d3, three, listens) = wait_taken_lem m3 n _ mouse _ room3 again in
      let (m4, room4, acks) = controller.report d3 _ listens in
      let (d4, four, ack) = wait_full_lem m4 n _ true _ _ room4 acks in
      let (_, q3) = controller.read d4 true _ _ ack in
      let (mask, d5) = dev.inb 0xA1 (dev.inb 0x60 d4).1 in
      let q4 =
        subst (λ x. controller.Quiet d5 true (bit_and (bit_or x 2) (255 - 0x20))) same
          (controller.pic_read _ true _ q3) in
      (
        dev.outb 0xA1 (bit_and mask (255 - 2)) d5,
        rw (one, ◌>>=◌, two, ◌>>=◌, three, ◌>>=◌, four, ◌>>=◌) refl,
        controller.pic_write d5 true _ 0xA1 _ (inr (inr (inr refl))) q4,
      )
