-- ===== src/Ram/Words.antt =====
-- A word in memory: reading it back, and reading one that does not overlap it.
use ly_system_os.Prelude.{
  ℕ, ◌+◌, ◌/◌, ◌%◌, ◌^◌, ◌≤◌, ◌<◌, ◌≡◌, refl, ◌∙◌, ◌≢◌, ◌⊎◌, inl, inr, arith, ◌==◌, if◌then◌else◌,
  Bool-cases,
}
use ly_system_os.Ram.{Memory, load8, store8, load32, store32}

load8-store8 : (m : Memory) (a v : ℕ) → load8 (store8 a v m) a ≡ v % 256
unfolding load8 store8
load8-store8 m a v = ground arith

load8-store8_ne :
    (m : Memory) (a b v : ℕ) → a < 2 ^ 64 → b < 2 ^ 64 → a ≢ b → load8 (store8 a v m) b ≡ load8 m b
unfolding load8 store8
load8-store8_ne m a b v small_a small_b ne = ground arith

-- A byte after a byte was stored.
pub load8-store8_if :
    (m : Memory) (a b v : ℕ)
    → a < 2 ^ 64
    → b < 2 ^ 64
    → load8 (store8 a v m) b ≡ (if b == a then v % 256 else load8 m b)
load8-store8_if m a b v small_a small_b = elim (Bool-cases (b == a)) [
  | inl same ↦ let e : b ≡ a = ground arith in rw same (rw e (load8-store8 m a v))
  | inr other ↦ rw other (load8-store8_ne m a b v small_a small_b (ground arith))
]

pub load8-lt : (m : Memory) (a : ℕ) → load8 m a < 256
unfolding load8
load8-lt m a = omega arith

pub store32-below :
    (m : Memory) (a b v : ℕ)
    → a + 4 ≤ 2 ^ 64
    → b < 2 ^ 64
    → (b < a) ⊎ (a + 4 ≤ b)
    → load8 (store32 a v m) b ≡ load8 m b
unfolding store32
store32-below m a b v fits small apart =
    load8-store8_ne _ (a + 3) b _ (omega arith) small (ground arith)
    ∙ load8-store8_ne _ (a + 2) b _ (omega arith) small (ground arith)
    ∙ load8-store8_ne _ (a + 1) b _ (omega arith) small (ground arith)
    ∙ load8-store8_ne _ a b _ (omega arith) small (ground arith)

module _ (m : Memory) (a v : ℕ) (fits : a + 4 ≤ 2 ^ 64) where
  which : (b : ℕ) → a ≤ b → b < a + 4 → (b ≡ a) ⊎ ((b ≡ a + 1) ⊎ ((b ≡ a + 2) ⊎ (b ≡ a + 3)))
  which b from below = ground arith

  byte_0 : load8 (store32 a v m) a ≡ v % 256
  unfolding store32
  byte_0 =
      load8-store8_ne _ (a + 3) a _ (omega arith) (omega arith) (omega arith)
      ∙ load8-store8_ne _ (a + 2) a _ (omega arith) (omega arith) (omega arith)
      ∙ load8-store8_ne _ (a + 1) a _ (omega arith) (omega arith) (omega arith)
      ∙ load8-store8 _ a _

  byte_1 : load8 (store32 a v m) (a + 1) ≡ v / 256 % 256
  unfolding store32
  byte_1 =
      load8-store8_ne _ (a + 3) (a + 1) _ (omega arith) (omega arith) (omega arith)
      ∙ load8-store8_ne _ (a + 2) (a + 1) _ (omega arith) (omega arith) (omega arith)
      ∙ load8-store8 _ (a + 1) _

  byte_2 : load8 (store32 a v m) (a + 2) ≡ v / 256 / 256 % 256
  unfolding store32
  byte_2 =
      load8-store8_ne _ (a + 3) (a + 2) _ (omega arith) (omega arith) (omega arith)
      ∙ load8-store8 _ (a + 2) _

  byte_3 : load8 (store32 a v m) (a + 3) ≡ v / 256 / 256 / 256 % 256
  unfolding store32
  byte_3 = load8-store8 _ (a + 3) _

  -- Every byte of a word of 0.
  pub store32_zero : v ≡ 0 → (b : ℕ) → a ≤ b → b < a + 4 → load8 (store32 a v m) b ≡ 0
  store32_zero null b from below = elim (which b from below) [
    | inl e ↦ rw e (byte_0 ∙ rw null refl)
    | inr (inl e) ↦ rw e (byte_1 ∙ rw null refl)
    | inr (inr (inl e)) ↦ rw e (byte_2 ∙ rw null refl)
    | inr (inr (inr e)) ↦ rw e (byte_3 ∙ rw null refl)
  ]

  pub load32-store32 : v < 2 ^ 32 → load32 (store32 a v m) a ≡ v
  unfolding load32
  load32-store32 word = rw (byte_0, byte_1, byte_2, byte_3) (omega arith)

pub load32-store32_apart :
    (m : Memory) (a b v : ℕ)
    → a + 4 ≤ 2 ^ 64
    → b + 4 ≤ 2 ^ 64
    → (a + 4 ≤ b) ⊎ (b + 4 ≤ a)
    → load32 (store32 a v m) b ≡ load32 m b
unfolding load32
load32-store32_apart m a b v fits fits_b apart =
    rw
      (
        store32-below m a b v fits (omega arith) (ground arith),
        store32-below m a (b + 1) v fits (omega arith) (ground arith),
        store32-below m a (b + 2) v fits (omega arith) (ground arith),
        store32-below m a (b + 3) v fits (omega arith) (ground arith),
      )
      refl
