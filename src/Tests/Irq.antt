-- ===== src/Tests/Irq.antt =====
-- The set-up of the gates on a controller of the mouse that answers behind one read of its status, and the
-- search for a kernel symbol.
use ly_system_os.Prelude.{
  ℕ, zero, suc, ◌<◌, bit_and, ◌≡◌, refl, ap, inl, inr, Bool, true, false, not, ◌&&◌, ◌||◌, some, [],
  ◌∷◌, arith, ◌==◌, if◌then◌else◌,
}
use ly_system_os.Prelude.Bits.{test_bit}
use ly_system_os.CString.{strcmp}
use ly_system_os.Io.{Devices}
use ly_system_os.Irq.{IdtTable, Handlers, traps_init}
use ly_system_os.Irq.Gates.{handler_of, AreAddresses, GateFor, traps_init_lem}
use ly_system_os.Ksyms.{ksyms, find_ksym}
use ly_system_os.Irq.Controller.{Target, command_byte, mouse, IsController, IsPicPort}

data Phase : Type 0 where
  at_rest : Phase
  answering : ℕ → ℕ → Phase
  holding : ℕ → Phase
  expecting : Target → ℕ → Phase
  open_for : Target → Phase

record Board : Type 0 where
  phase : Phase
  reports : Bool
  config : ℕ

abbrev command : ℕ → Board → Board
command v t =
    if v == 0xA8
    then record t { config = bit_and t.config 0xDF }
    else if v == 0x20
    then record t { phase = answering t.config 1 }
    else if v == 0x60
    then record t { phase = expecting command_byte 1 }
    else if v == 0xD4
    then record t { phase = expecting mouse 1 }
    else t

abbrev accept : ℕ → Phase → Board → Board
accept v at_rest t = t
accept v (answering byte m) t = t
accept v (holding byte) t = t
accept v (expecting target m) t = t
accept v (open_for command_byte) t = record t { config = v; phase = at_rest }
accept v (open_for mouse) t = record t { reports = true; phase = answering 0xFA 1 }

abbrev put : ℕ → ℕ → Board → Board
put port v t = if port == 0x64 then command v t else if port == 0x60 then accept v t.phase t else t

abbrev status : Phase → Board → ℕ × Board
status at_rest t = (0, t)
status (answering byte zero) t = (1, record t { phase = holding byte })
status (answering byte (suc m)) t = (0, record t { phase = answering byte m })
status (holding byte) t = (1, t)
status (expecting target zero) t = (0, record t { phase = open_for target })
status (expecting target (suc m)) t = (2, record t { phase = expecting target m })
status (open_for target) t = (0, t)

abbrev give : Phase → Board → ℕ × Board
give at_rest t = (0, t)
give (answering byte m) t = (0, t)
give (holding byte) t = (byte, record t { phase = at_rest })
give (expecting target m) t = (0, t)
give (open_for target) t = (0, t)

-- The interrupt controllers do nothing here; their mask reads as 0xB8.
abbrev board : Devices Board
board = record {
  outb = put;
  inb = λ port t.
      if port == 0x64 then status t.phase t else if port == 0x60 then give t.phase t else (0xB8, t);
  outw = λ port v t. t;
  inw = λ port t. (0, t);
  hlt = λ t. (true, t);
}

abbrev At : Phase → Board → Bool → ℕ → Type 0
At p t b c = (t.phase ≡ p) × (t.reports ≡ b) × (t.config ≡ c)

pic_put :
    (t : Board) (b : Bool) (c port v : ℕ)
    → IsPicPort port
    → At at_rest t b c
    → At at_rest (put port v t) b c
pic_put t b c port v (inl e) h = rw e h
pic_put t b c port v (inr (inl e)) h = rw e h
pic_put t b c port v (inr (inr (inl e))) h = rw e h
pic_put t b c port v (inr (inr (inr e))) h = rw e h

abbrev board_controller : IsController board 2
board_controller = record {
  Quiet = λ t b c. At at_rest t b c;
  Answering = λ t b c byte m. At (answering byte m) t b c;
  Holding = λ t b c byte. At (holding byte) t b c;
  Expecting = λ t target c m. At (expecting target m) t false c;
  Open = λ t target c. At (open_for target) t false c;
  pic_write = λ t b c port v pic h. pic_put t b c port v pic h;
  pic_read = λ t b c h. h;
  enable = λ t c h. (h.0, h.1, ap (λ x. bit_and x 0xDF) h.2);
  ask_command = λ t c h. (1, omega arith, (ap (λ x. answering x 1) h.2, h.1, h.2));
  no_answer = λ t b c byte m h. rw (h.0, status) (refl, (refl, h.1, h.2));
  answer = λ t b c byte h. rw (h.0, status) (refl, (refl, h.1, h.2));
  read = λ t b c byte h. rw (h.0, give) (refl, (refl, h.1, h.2));
  to_command = λ t c h. (1, omega arith, (refl, h.1, h.2));
  to_mouse = λ t c h. (1, omega arith, (refl, h.1, h.2));
  busy = λ t target c m h. rw (h.0, status) (refl, (refl, h.1, h.2));
  free = λ t target c h. rw (h.0, status) (refl, (refl, h.1, h.2));
  configure = λ t c v h. rw (h.0, accept) (refl, h.1, refl);
  report = λ t c h. (1, omega arith, rw (h.0, accept) (refl, refl, h.2));
}

-- The keyboard's interrupt is on, and the mouse is off.
abbrev before : Board
before = record { phase = at_rest; reports = false; config = 0x61 }

abbrev sample_handlers : Handlers
sample_handlers = record {
  divide_by_zero_handler = 0xFFFFFFFF80101000;
  general_protection_handler = 0xFFFFFFFF80102000;
  page_handler = 0xFFFFFFFF80103000;
  syscall_interrupt_handler = 0xFFFFFFFF80104000;
  irq0_handler = 0xFFFFFFFF80105000;
  keyboard_handler = 0xFFFFFFFF80106000;
  sci_handler = 0xFFFFFFFF80107000;
  mouse_handler = 0xFFFFFFFF80108000;
  ide_handler = 0xFFFFFFFF80109000;
}

sample_handlers-AreAddresses : AreAddresses sample_handlers
sample_handlers-AreAddresses = record {
  divide_by_zero = omega arith;
  general_protection = omega arith;
  page = omega arith;
  syscall_interrupt = omega arith;
  irq0 = omega arith;
  keyboard = omega arith;
  sci = omega arith;
  mouse = omega arith;
  ide = omega arith;
}

abbrev no_gates : IdtTable
no_gates v = record {
  offset_low = 0;
  selector = 0;
  ist = 0;
  attributes = 0;
  offset_mid = 0;
  offset_high = 0;
  reserved = 0;
}

traps_init_lem_example :
    (t' : IdtTable) × (d' : Board) × (e : ℕ) × (traps_init board 2 sample_handlers no_gates before
      ≡ some (t', d'))
    × ((v : ℕ) → GateFor (handler_of sample_handlers v) (no_gates v) (t' v))
    × At at_rest d' true e
    × ((j : ℕ) → j < 8 → test_bit e j ≡ ((j == 1) || (not (j == 5) && test_bit 0x61 j)))
traps_init_lem_example =
    traps_init_lem board 2 board_controller sample_handlers sample_handlers-AreAddresses no_gates
      before 0x61 (refl, refl, refl) (omega arith)

-- "memset" is found.
found_memset : find_ksym (ksyms 1000 2000 3000) (109 ∷ 101 ∷ 109 ∷ 115 ∷ 101 ∷ 116 ∷ 0 ∷ []) ≡ 2000
unfolding find_ksym ksyms strcmp
found_memset = refl
