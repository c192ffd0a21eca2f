-- ===== src/Io.antt =====
-- include/asm/io.h: the devices behind the ports, which are no part of the kernel. Their state and what a
-- port access or a halt of the processor does to it are parameters of the code that uses them. Code that
-- works on ports is a function from the state of the devices to its result and their state; none where
-- a loop that waits for a device has no fuel left.
use ly_system_os.Prelude.{ℕ, zero, suc, Bool, true, false, Option, none, some}

-- `hlt` tells whether the interrupt of the drive ended the halt.
pub record Devices (D : Type 0) : Type 0 where
  pub outb : ℕ → ℕ → D → D
  pub inb : ℕ → D → ℕ × D
  pub outw : ℕ → ℕ → D → D
  pub inw : ℕ → D → ℕ × D
  pub hlt : D → Bool × D

abbrev pub Io : Type 0 → Type 0 → Type 0
Io D A = D → Option (A × D)

abbrev pub pure : {D A : Type 0} → A → Io D A
pure a d = some (a, d)

infixl 5 ◌>>=◌ ◌>>◌
abbrev pub ◌>>=◌ : {D A B : Type 0} → Io D A → (A → Io D B) → Io D B
◌>>=◌ m f d = elim (m d) [ none ↦ none | some (a, d') ↦ f a d' ]

abbrev pub ◌>>◌ : {D B : Type 0} → Io D (Unit {0}) → Io D B → Io D B
m >> k = m >>= λ _. k

module _ {D : Type 0} (dev : Devices D) where
  abbrev pub outb : ℕ → ℕ → Io D (Unit {0})
  outb port v d = some (tt, dev.outb port v d)

  abbrev pub inb : ℕ → Io D ℕ
  inb port d = some (dev.inb port d)

  abbrev pub outw : ℕ → ℕ → Io D (Unit {0})
  outw port v d = some (tt, dev.outw port v d)

  abbrev pub inw : ℕ → Io D ℕ
  inw port d = some (dev.inw port d)

  -- The loop that reads a port until `done` holds of the value, with `n` reads left. none: no read is left,
  -- as when the device never answers, for which the loop of the source does not end.
  unfoldable pub poll : (ℕ → Bool) → ℕ → ℕ → Io D (Unit {0})
  poll done port zero d = none
  poll done port (suc n) d = elim (done (dev.inb port d).0) [
    | true ↦ some (tt, (dev.inb port d).1)
    | false ↦ poll done port n (dev.inb port d).1
  ]
