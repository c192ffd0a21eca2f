-- ===== src/CString/Digits.antt =====
-- Digits in a buffer: the number that they write, from either end, and as a text.
use ly_system_os.Prelude.{
  ℕ, zero, suc, ◌+◌, ◌-◌, ◌*◌, ◌≤◌, ◌<◌, ◌≡◌, refl, sym, ap, ◌∙◌, ◌⊎◌, false, List, [], ◌∷◌, arith,
  ltb, ◌==◌, if◌then◌else◌, length, get_or, All,
}
use ly_system_os.CString.{text}

-- The value of a digit: '0' to '9', or 'A' to 'Z'.
unfoldable pub digit_value : ℕ → ℕ
digit_value c = if ltb c 58 then c - 48 else c - 55

-- A digit to the base: one of these bytes, with a value below the base.
pub record IsDigit (base c : ℕ) : Type 0 where
  pub code : ((48 ≤ c) × (c < 58)) ⊎ ((65 ≤ c) × (c < 91))
  pub less : digit_value c < base

-- The number that a text of digits writes, read from its first digit on with `acc` before it.
unfoldable pub number : ℕ → ℕ → List ℕ → ℕ
number base acc [] = acc
number base acc (c ∷ cs) = number base (acc * base + digit_value c) cs

-- One or more digits to the base, and nothing else, that write the number, the first of them no '0' but
-- where it is the only one.
pub record Writes (base value : ℕ) (out : List ℕ) : Type 0 where
  pub some_digit : ¬ (out ≡ [])
  pub all_digits : All (IsDigit base) out
  pub reads : number base 0 out ≡ value
  pub no_leading_zero : get_or out 0 0 ≡ 48 → length out ≡ 1

-- The number of the first `n` digits behind `acc`, and of the `n` digits from `i` on with the last one
-- first.
unfoldable pub from_first : ℕ → ℕ → List ℕ → ℕ → ℕ
from_first base acc str zero = acc
from_first base acc str (suc n) = from_first base acc str n * base + digit_value (get_or str n 0)

unfoldable pub from_last : ℕ → List ℕ → ℕ → ℕ → ℕ
from_last base str i zero = 0
from_last base str i (suc n) = digit_value (get_or str i 0) + base * from_last base str (i + 1) n

-- A text of `n` digits.
pub record IsText (str : List ℕ) (n : ℕ) : Type 0 where
  pub inside : n < length str
  pub ended : get_or str n 0 ≡ 0
  pub digits : (k : ℕ) → k < n → ¬ (get_or str k 0 ≡ 0)

from_first_shift :
    (base acc c n : ℕ) (cs : List ℕ)
    → from_first base acc (c ∷ cs) (suc n) ≡ from_first base (acc * base + digit_value c) cs n
unfolding from_first
from_first_shift base acc c zero cs = refl
from_first_shift base acc c (suc n) cs =
    ap (λ x. x * base + digit_value (get_or cs n 0)) (from_first_shift base acc c n cs)

number_digit :
    (base acc c : ℕ) (cs : List ℕ)
    → ¬ (c ≡ 0)
    → number base acc (text (c ∷ cs)) ≡ number base (acc * base + digit_value c) (text cs)
unfolding number
number_digit base acc c cs ne = ground arith

IsText-tail : (c n : ℕ) (cs : List ℕ) → IsText (c ∷ cs) (suc n) → IsText cs n
IsText-tail c n cs is = record {
  inside = let inside = is.inside in omega arith;
  ended = is.ended;
  digits = λ k less. is.digits (suc k) (omega arith);
}

-- What holds of each of its bytes.
pub text-All :
    (P : ℕ → Type 0) (n : ℕ) (str : List ℕ)
    → IsText str n
    → ((k : ℕ) → k < n → P (get_or str k 0))
    → All P (text str)
text-All P n [] is each = absurd (let inside = is.inside in omega arith)
text-All P zero (c ∷ cs) is each = rw is.ended tt
text-All P (suc n) (c ∷ cs) is each =
    let goes_on : (c == 0) ≡ false = ground (arith, is.digits 0 (omega arith)) in
    rw goes_on (
      each 0 (omega arith),
      text-All P n cs (IsText-tail c n cs is) (λ k less. each (suc k) (omega arith)),
    )

pub text-some : (n : ℕ) (str : List ℕ) → IsText str n → 0 < n → ¬ (text str ≡ [])
text-some n [] is more e = absurd (let inside = is.inside in omega arith)
text-some n (c ∷ cs) is more e =
    let goes_on : (c == 0) ≡ false = ground (arith, is.digits 0 (omega arith)) in
    let e' = rw goes_on at (e) in cc

pub length-text : (n : ℕ) (str : List ℕ) → IsText str n → length (text str) ≡ n
length-text n [] is = absurd (let inside = is.inside in omega arith)
length-text zero (c ∷ cs) is = rw is.ended refl
length-text (suc n) (c ∷ cs) is =
    let goes_on : (c == 0) ≡ false = ground (arith, is.digits 0 (omega arith)) in
    rw goes_on (ap suc (length-text n cs (IsText-tail c n cs is)))

pub first-text : (str : List ℕ) → get_or (text str) 0 0 ≡ get_or str 0 0
first-text [] = refl
first-text (c ∷ cs) = ground arith

pub number-text :
    (base acc n : ℕ) (str : List ℕ)
    → IsText str n
    → number base acc (text str) ≡ from_first base acc str n
unfolding number from_first
number-text base acc n [] is = absurd (let inside = is.inside in omega arith)
number-text base acc zero (c ∷ cs) is = rw is.ended refl
number-text base acc (suc n) (c ∷ cs) is =
    number_digit base acc c cs (is.digits 0 (omega arith))
    ∙ number-text base (acc * base + digit_value c) n cs (IsText-tail c n cs is)
    ∙ sym (from_first_shift base acc c n cs)

pub from_first-from_last :
    (base n : ℕ) (str out : List ℕ)
    → ((k : ℕ) → k < n → get_or out k 0 ≡ get_or str (n - 1 - k) 0)
    → (k : ℕ) → k ≤ n
    → from_first base 0 out k ≡ from_last base str (n - k) k
unfolding from_first from_last
from_first-from_last base n str out mirrored zero less = refl
from_first-from_last base n str out mirrored (suc k) less =
    let same : n - 1 - k ≡ n - suc k = omega arith in
    let next : n - suc k + 1 ≡ n - k = omega arith in
    rw (from_first-from_last base n str out mirrored k (omega arith), mirrored k less, same, next)
      (omega arith)
