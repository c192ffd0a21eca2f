-- ===== src/Prelude/Bits.antt =====
-- Bit operations on a byte, as the bitmap code writes them: `b & (1 << k)`, `b |= 1 << k` and
-- `b &= ~(1 << k)`. The laws hold for every byte and every bit number below 8, by evaluation.
use Prim.Native.Nat.{ℕ, zero, suc, ◌-◌, ◌^◌, ◌<◌, bit_and, bit_or}
use mathlib.Core.Path.{◌≡◌, refl}
use mathlib.Core.Bool.{Bool, true, false, not, ◌&&◌, ◌||◌}
use native.Mathlib.Omega.{arith}
use ly_system_os.Prelude.Tests.{◌==◌, ltb}

-- `(b & (1 << k)) != 0`
unfoldable pub test_bit : ℕ → ℕ → Bool
test_bit b k = not (bit_and b (2 ^ k) == 0)

-- `b |= 1 << k`, on a `uint8_t`
unfoldable pub set_bit : ℕ → ℕ → ℕ
set_bit b k = bit_or b (2 ^ k)

-- `b &= ~(1 << k)`, on a `uint8_t`
unfoldable pub clear_bit : ℕ → ℕ → ℕ
clear_bit b k = bit_and b (255 - 2 ^ k)

-- A test of all the numbers below a bound.
unfoldable pub every_below : (ℕ → Bool) → ℕ → Bool
every_below test zero = true
every_below test (suc n) = every_below test n && test n

-- A test that evaluates to true holds at each of the numbers.
pub every_below-holds :
    (test : ℕ → Bool) (x n : ℕ) → x < n → every_below test n ≡ true → test x ≡ true
unfolding every_below
every_below-holds test x zero less all = elim less [ ]
every_below-holds test x (suc n) less all = ground (arith, every_below-holds test x n)

beq : Bool → Bool → Bool
beq true b = b
beq false b = not b

eq_of_beq : (a b : Bool) → beq a b ≡ true → a ≡ b
unfolding beq
eq_of_beq a b h = ground arith

bytes_bits : (ℕ → ℕ → ℕ → Bool) → Bool
bytes_bits p = every_below (λ b. every_below (λ k. every_below (λ j. p b k j) 8) 8) 256

bytes_bits-holds :
    (p : ℕ → ℕ → ℕ → Bool)
    → bytes_bits p ≡ true
    → (b k j : ℕ) → b < 256
    → k < 8
    → j < 8
    → p b k j ≡ true
unfolding bytes_bits
bytes_bits-holds p all b k j hb hk hj =
    every_below-holds (λ j. p b k j) j 8 hj
      (every_below-holds (λ k. every_below (λ j. p b k j) 8) k 8 hk
        (every_below-holds (λ b. every_below (λ k. every_below (λ j. p b k j) 8) 8) b 256 hb all))

set_table : bytes_bits (λ b k j. beq (test_bit (set_bit b k) j) ((k == j) || test_bit b j)) ≡ true
unfolding bytes_bits every_below beq test_bit set_bit
set_table = refl

clear_table :
    bytes_bits (λ b k j. beq (test_bit (clear_bit b k) j) (not (k == j) && test_bit b j)) ≡ true
unfolding bytes_bits every_below beq test_bit clear_bit
clear_table = refl

range_table : bytes_bits (λ b k j. ltb (set_bit b k) 256 && ltb (clear_bit b k) 256) ≡ true
unfolding bytes_bits every_below set_bit clear_bit
range_table = refl

undo_table : bytes_bits (λ b k j. test_bit b k || (clear_bit (set_bit b k) k == b)) ≡ true
unfolding bytes_bits every_below test_bit set_bit clear_bit
undo_table = refl

module _ (b k : ℕ) (hb : b < 256) (hk : k < 8) where
  pub test_bit-set_bit : (j : ℕ) → j < 8 → test_bit (set_bit b k) j ≡ ((k == j) || test_bit b j)
  test_bit-set_bit j hj = eq_of_beq _ _ (
      bytes_bits-holds (λ b k j. beq (test_bit (set_bit b k) j) ((k == j) || test_bit b j))
        set_table b k j hb hk hj)

  pub test_bit-clear_bit :
      (j : ℕ) → j < 8 → test_bit (clear_bit b k) j ≡ (not (k == j) && test_bit b j)
  test_bit-clear_bit j hj = eq_of_beq _ _ (
      bytes_bits-holds (λ b k j. beq (test_bit (clear_bit b k) j) (not (k == j) && test_bit b j))
        clear_table b k j hb hk hj)

  pub set_bit-lt : set_bit b k < 256
  set_bit-lt = ground (
    arith,
    bytes_bits-holds (λ b k j. ltb (set_bit b k) 256 && ltb (clear_bit b k) 256) range_table b k 0
        hb hk (omega arith),
  )

  pub clear_bit-lt : clear_bit b k < 256
  clear_bit-lt = ground (
    arith,
    bytes_bits-holds (λ b k j. ltb (set_bit b k) 256 && ltb (clear_bit b k) 256) range_table b k 0
        hb hk (omega arith),
  )

  -- Clearing a bit that was just set gives the byte back.
  pub clear_bit-set_bit : test_bit b k ≡ false → clear_bit (set_bit b k) k ≡ b
  clear_bit-set_bit h = ground (
    arith,
    bytes_bits-holds (λ b k j. test_bit b k || (clear_bit (set_bit b k) k == b)) undo_table b k 0 hb
        hk (omega arith),
  )
