-- ===== src/Prelude/Bitmap.antt =====
-- A bitmap in an array of bytes, as the frame allocator and the file system keep theirs: bit `i`
-- is bit `i % 8` of byte `i / 8`.
use ly_system_os.Prelude.Bits.{
  test_bit, set_bit, clear_bit, test_bit-set_bit, test_bit-clear_bit, set_bit-lt, clear_bit-lt,
  clear_bit-set_bit,
}
use ly_system_os.Prelude.Tests.{◌==◌, if◌then◌else◌, Bool-cases, ==_iff}
use ly_system_os.Prelude.Lists.{
  length, get_or, set, All, All-set, All-get_or, get_or-set, length-set, set-set, set-get_or,
}
use Prim.Native.Nat.{ℕ, zero, suc, ◌+◌, ◌/◌, ◌%◌, ◌≤◌, ◌<◌}
use mathlib.Core.Path.{◌≡◌, refl}
use mathlib.Core.Logic.{inl, inr}
use mathlib.Core.Bool.{Bool, true, false, not, ◌&&◌, ◌||◌}
use mathlib.Core.List.{List}
use native.Mathlib.Omega.{arith}

abbrev pub IsBytes : List ℕ → Type 0
IsBytes bm = All (λ b. b < 256) bm

unfoldable pub bit : List ℕ → ℕ → Bool
bit bm i = test_bit (get_or bm (i / 8) 0) (i % 8)

unfoldable pub set_at : List ℕ → ℕ → List ℕ
set_at bm i = set bm (i / 8) (set_bit (get_or bm (i / 8) 0) (i % 8))

unfoldable pub clear_at : List ℕ → ℕ → List ℕ
clear_at bm i = set bm (i / 8) (clear_bit (get_or bm (i / 8) 0) (i % 8))

module _ (bm : List ℕ) (i : ℕ) where
  pub length-set_at : length (set_at bm i) ≡ length bm
  unfolding set_at
  length-set_at = length-set bm (i / 8) _

  pub length-clear_at : length (clear_at bm i) ≡ length bm
  unfolding clear_at
  length-clear_at = length-set bm (i / 8) _

module _ (bm : List ℕ) (i : ℕ) (h : IsBytes bm) where
  pub get_byte-lt : get_or bm (i / 8) 0 < 256
  get_byte-lt = All-get_or (λ b. b < 256) bm (i / 8) 0 h (omega arith)

  pub set_at-IsBytes : IsBytes (set_at bm i)
  unfolding set_at
  set_at-IsBytes = All-set (λ b. b < 256) bm _ _ h (set_bit-lt _ _ get_byte-lt (omega arith))

  pub clear_at-IsBytes : IsBytes (clear_at bm i)
  unfolding clear_at
  clear_at-IsBytes = All-set (λ b. b < 256) bm _ _ h (clear_bit-lt _ _ get_byte-lt (omega arith))

  -- Setting bit `i` sets it and leaves the others.
  pub bit-set_at : (j : ℕ) → i / 8 < length bm → bit (set_at bm i) j ≡ ((i == j) || bit bm j)
  unfolding bit set_at
  bit-set_at j hi = ground (
    arith,
    get_or-set bm (i / 8) (j / 8) (set_bit (get_or bm (i / 8) 0) (i % 8)) 0 hi,
    test_bit-set_bit (get_or bm (i / 8) 0) (i % 8) get_byte-lt (omega arith) (j % 8) (omega arith),
  )

  -- Clearing bit `i` clears it and leaves the others.
  pub bit-clear_at :
      (j : ℕ) → i / 8 < length bm → bit (clear_at bm i) j ≡ (not (i == j) && bit bm j)
  unfolding bit clear_at
  bit-clear_at j hi = ground (
    arith,
    get_or-set bm (i / 8) (j / 8) (clear_bit (get_or bm (i / 8) 0) (i % 8)) 0 hi,
    test_bit-clear_bit (get_or bm (i / 8) 0) (i % 8) get_byte-lt (omega arith) (j % 8)
        (omega arith),
  )

  -- Clearing a bit that was just set gives the bitmap back.
  pub clear_at-set_at : i / 8 < length bm → bit bm i ≡ false → clear_at (set_at bm i) i ≡ bm
  unfolding bit set_at clear_at
  clear_at-set_at hi clear =
      rw
        (
          get_or-set bm (i / 8) (i / 8) (set_bit (get_or bm (i / 8) 0) (i % 8)) 0 hi,
          (==_iff (i / 8) (i / 8)).1 refl,
          set-set bm (i / 8),
          clear_bit-set_bit (get_or bm (i / 8) 0) (i % 8) get_byte-lt (omega arith) clear,
        )
        (set-get_or bm (i / 8) 0)

-- How many numbers below `n` pass a test.
pub count_below : (ℕ → Bool) → ℕ → ℕ
count_below p zero = 0
count_below p (suc n) = (if p n then 1 else 0) + count_below p n

pub count_below-ext :
    (p q : ℕ → Bool) (n : ℕ) → ((j : ℕ) → j < n → q j ≡ p j) → count_below q n ≡ count_below p n
unfolding count_below
count_below-ext p q zero h = refl
count_below-ext p q (suc n) h =
    ground (arith, h n (omega arith), count_below-ext p q n (λ j hj. h j (omega arith)))

-- One more number passes.
pub count_below_add :
    (p q : ℕ → Bool) (i n : ℕ)
    → ((j : ℕ) → q j ≡ ((i == j) || p j))
    → p i ≡ false
    → i < n
    → count_below q n ≡ suc (count_below p n)
unfolding count_below
count_below_add p q i zero h hp hi = absurd (omega arith)
count_below_add p q i (suc n) h hp hi = elim (Bool-cases (i == n)) [
  | inl e ↦ ground (arith, h n, count_below-ext p q n (λ j hj. ground (arith, h j)))
  | inr e ↦ ground (arith, h n, count_below_add p q i n h hp (ground arith))
]

pub count_below_none :
    (p : ℕ → Bool) (n : ℕ) → ((j : ℕ) → j < n → p j ≡ false) → count_below p n ≡ 0
unfolding count_below
count_below_none p zero h = refl
count_below_none p (suc n) h =
    ground (arith, h n (omega arith), count_below_none p n (λ j hj. h j (omega arith)))

pub count_below_all : (p : ℕ → Bool) (n : ℕ) → ((j : ℕ) → j < n → p j ≡ true) → count_below p n ≡ n
unfolding count_below
count_below_all p zero h = refl
count_below_all p (suc n) h =
    ground (arith, h n (omega arith), count_below_all p n (λ j hj. h j (omega arith)))

pub count_below-le : (p : ℕ → Bool) (n : ℕ) → count_below p n ≤ n
unfolding count_below
count_below-le p zero = omega arith
count_below-le p (suc n) = ground (arith, count_below-le p n)

-- `i` is the first number below `n` that passes.
pub record IsFirst (p : ℕ → Bool) (n i : ℕ) : Type 0 where
  pub below : i < n
  pub passes : p i ≡ true
  pub before : (j : ℕ) → j < i → p j ≡ false
