-- ===== src/Prelude/Masks.antt =====
-- Masks and flags on words: `x & 1`, and `x | 1` and `x | 2` where the bits below are clear. The laws
-- follow from that of the lowest digit, which holds for every digit-wise operation.
use ly_system_os.Prelude.{
  ℕ, zero, suc, ◌+◌, ◌*◌, ◌/◌, ◌%◌, ◌≤◌, ◌<◌, min, max, bit_and, bit_or, ◌≡◌, refl, sym, ap, ◌∙◌,
  ◌⊎◌, inl, inr, arith,
}
use Prim.Native.Nat.{digits, bit_and-bitwise, bit_or-bitwise}

module _ (z : ℕ → ℕ) (f : ℕ → ℕ → ℕ) where
  -- The count of digits to go does not matter once it is enough.
  enough : (n m a b : ℕ) → a ≤ n → a ≤ m → digits z f n a b ≡ digits z f m a b
  enough zero zero a b hn hm = refl
  enough zero (suc m) zero b hn hm = refl
  enough zero (suc m) (suc a) b hn hm = absurd (omega arith)
  enough (suc n) zero zero b hn hm = refl
  enough (suc n) zero (suc a) b hn hm = absurd (omega arith)
  enough (suc n) (suc m) zero b hn hm = refl
  enough (suc n) (suc m) (suc a) b hn hm =
      ap (λ d. d * 2 + f (suc a % 2) (b % 2))
        (enough n m (suc a / 2) (b / 2) (omega arith) (omega arith))

  lowest :
      ((b : ℕ) → z b ≡ z (b / 2) * 2 + f 0 (b % 2))
      → (a b : ℕ) → digits z f a a b ≡ digits z f (a / 2) (a / 2) (b / 2) * 2 + f (a % 2) (b % 2)
  lowest base zero b = base b
  lowest base (suc a) b =
      ap (λ d. d * 2 + f (suc a % 2) (b % 2))
        (enough a (suc a / 2) (suc a / 2) (b / 2) (omega arith) (omega arith))

bit_and_low : (a b : ℕ) → bit_and a b ≡ bit_and (a / 2) (b / 2) * 2 + min (a % 2) (b % 2)
bit_and_low a b =
    bit_and-bitwise a b
    ∙ lowest (λ b. 0) min (λ b. omega arith) a b
    ∙ ap (λ d. d * 2 + min (a % 2) (b % 2)) (sym (bit_and-bitwise (a / 2) (b / 2)))

bit_or_low : (a b : ℕ) → bit_or a b ≡ bit_or (a / 2) (b / 2) * 2 + max (a % 2) (b % 2)
bit_or_low a b =
    bit_or-bitwise a b
    ∙ lowest (λ b. b) max (λ b. omega arith) a b
    ∙ ap (λ d. d * 2 + max (a % 2) (b % 2)) (sym (bit_or-bitwise (a / 2) (b / 2)))

-- By the digits of the first number, of which there are no more than `n`.
bit_and_0 : (n a : ℕ) → a ≤ n → bit_and a 0 ≡ 0
bit_and_0 zero a h = let gone : a ≡ 0 = omega arith in rw gone (bit_and-bitwise 0 0)
bit_and_0 (suc n) a h = elim (half a) [
  | inl gone ↦ rw gone (bit_and-bitwise 0 0)
  | inr less ↦
      let low = bit_and_low a 0 in let rest = bit_and_0 n (a / 2) (omega arith) in omega arith
]
  where
    half : (a : ℕ) → (a ≡ 0) ⊎ (a / 2 < a)
    half a = ground arith

bit_or_0 : (n a : ℕ) → a ≤ n → bit_or a 0 ≡ a
bit_or_0 zero a h = let gone : a ≡ 0 = omega arith in rw gone (bit_or-bitwise 0 0)
bit_or_0 (suc n) a h = elim (half a) [
  | inl gone ↦ rw gone (bit_or-bitwise 0 0)
  | inr less ↦
      let low = bit_or_low a 0 in let rest = bit_or_0 n (a / 2) (omega arith) in omega arith
]
  where
    half : (a : ℕ) → (a ≡ 0) ⊎ (a / 2 < a)
    half a = ground arith

pub bit_and_1 : (a : ℕ) → bit_and a 1 ≡ a % 2
bit_and_1 a =
    let low = bit_and_low a 1 in let rest = bit_and_0 (a / 2) (a / 2) (omega arith) in omega arith

pub bit_or_1 : (a : ℕ) → a % 2 ≡ 0 → bit_or a 1 ≡ a + 1
bit_or_1 a even =
    let low = bit_or_low a 1 in let rest = bit_or_0 (a / 2) (a / 2) (omega arith) in omega arith

pub bit_or_odd : (a b : ℕ) → bit_or a (b * 2 + 1) % 2 ≡ 1
bit_or_odd a b = let low = bit_or_low a (b * 2 + 1) in omega arith

-- `a | 1 | 2`
pub bit_or_3 : (a : ℕ) → a % 4 ≡ 0 → bit_or (bit_or a 1) 2 ≡ a + 3
bit_or_3 a clear =
    let low = bit_or_low (a + 1) 2 in
    let half : (a + 1) / 2 ≡ a / 2 = omega arith in
    let rest = bit_or_1 (a / 2) (omega arith) in
    rw (bit_or_1 a (omega arith)) (rw half at (low) ∙ rw rest (omega arith))

-- `(a | 3) | 1`
pub bit_or_31 : (a : ℕ) → a % 4 ≡ 0 → bit_or (bit_or a 3) 1 ≡ a + 3
bit_or_31 a clear =
    let low = bit_or_low a 3 in
    let rest = bit_or_1 (a / 2) (omega arith) in
    let three : bit_or a 3 ≡ a + 3 = omega arith in
    let last = bit_or_low (a + 3) 1 in
    let gone = bit_or_0 ((a + 3) / 2) ((a + 3) / 2) (omega arith) in rw three (omega arith)
