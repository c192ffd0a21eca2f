-- ===== src/Ram.antt =====
-- The memory that the kernel reads and writes through pointers: a function from an address to the byte
-- there.
pub mod Words
use ly_system_os.Prelude.{ℕ, ◌+◌, ◌*◌, ◌/◌, ◌%◌, ◌^◌, ◌==◌, if◌then◌else◌}

abbrev pub Memory : Type 0
Memory = ℕ → ℕ

unfoldable pub load8 : Memory → ℕ → ℕ
load8 m a = m (a % 2 ^ 64) % 256

unfoldable pub store8 : ℕ → ℕ → Memory → Memory
store8 a v m = λ p. if p == a % 2 ^ 64 then v % 256 else m p

-- A `uint32_t` in memory, low byte first.
unfoldable pub load32 : Memory → ℕ → ℕ
load32 m a = load8 m a + 256 * (load8 m (a + 1) + 256 * (load8 m (a + 2) + 256 * load8 m (a + 3)))

unfoldable pub store32 : ℕ → ℕ → Memory → Memory
store32 a v m =
    store8 (a + 3) (v / 256 / 256 / 256)
      (store8 (a + 2) (v / 256 / 256) (store8 (a + 1) (v / 256) (store8 a v m)))

-- `KERNEL_VIRTUAL_BASE`
abbrev pub kernel_virtual_base : ℕ
kernel_virtual_base = 0xFFFFFFFF80000000

-- A `uint64_t` in memory.
unfoldable pub load64 : Memory → ℕ → ℕ
load64 m a = load32 m a + 2 ^ 32 * load32 m (a + 4)
