-- ===== src/CString/Itoa.antt =====
-- That itoa of lib/string.c writes the digits of its value.
use ly_system_os.Prelude.{
  ℕ, zero, suc, ◌+◌, ◌-◌, ◌*◌, ◌/◌, ◌%◌, ◌^◌, ◌≤◌, ◌<◌, ◌≡◌, refl, sym, ap, ◌∙◌, ◌⊎◌, inl, inr,
  ◌&&◌, some, List, arith, ltb, leb, ◌==◌, if◌then◌else◌, ltb→lt, Bool-cases, length, set,
  length-set, get_or, get_or-set,
}
use ly_system_os.CString.{text, digit_code, itoa_loop, itoa_end, itoa}
use ly_system_os.CString.Reverse.{reverse_lem, Mirrored}
use ly_system_os.CString.Digits.{
  IsDigit, Writes, text-All, text-some, digit_value, number, from_last, IsText, number-text,
  from_first-from_last, length-text, first-text,
}
use native.Mathlib.Nat.{mod-lt, div-lt_iff_lt-mul, mod-add-div, pow-suc, pow-zero}

digit_value-digit_code : (r : ℕ) → r < 36 → digit_value (digit_code r) ≡ r
unfolding digit_value digit_code
digit_value-digit_code r less = ground arith

digit_code-IsDigit : (base r : ℕ) → r < base → base ≤ 36 → IsDigit base (digit_code r)
unfolding digit_code
digit_code-IsDigit base r less most = record {
  code = ground arith;
  less = let value = digit_value-digit_code r (omega arith) in rw value less;
}

IsDigit-positive : (base c : ℕ) → IsDigit base c → ¬ (c ≡ 0)
IsDigit-positive base c is = let code = is.code in ground arith

from_last_step :
    (base i e : ℕ) (out : List ℕ)
    → i < e
    → from_last base out i (e - i)
      ≡ digit_value (get_or out i 0) + base * from_last base out (i + 1) (e - (i + 1))
unfolding from_last
from_last_step base i e out less =
    let count : e - i ≡ suc (e - (i + 1)) = omega arith in rw count refl

-- The digits of `value` stand from `i` on, up to `e`, with the last one first; nothing before changed.
record Written (base value i n e : ℕ) (str out : List ℕ) : Type 0 where
  whole : length out ≡ length str
  some_digit : i < e
  few : e ≤ i + n
  before : (k : ℕ) → k < i → get_or out k 0 ≡ get_or str k 0
  digits : (k : ℕ) → i ≤ k → k < e → IsDigit base (get_or out k 0)
  worth : from_last base out i (e - i) ≡ value
  leading : get_or out (e - 1) 0 ≡ 48 → e ≡ i + 1

module _ (base : ℕ) (base_least : 2 ≤ base) (base_most : base ≤ 36) where
  module _ (value i : ℕ) (str : List ℕ) (inside : i < length str) where
    first_or_later : (k : ℕ) → i ≤ k → (k ≡ i) ⊎ (i + 1 ≤ k)
    first_or_later k from = ground arith

    unfoldable stored : List ℕ
    stored = set str i (digit_code (value % base))

    digit_small : value % base < 36
    digit_small = let less = mod-lt value {m = base} (omega arith) in omega arith

    stored_at :
        (k : ℕ) → get_or stored k 0 ≡ (if i == k then digit_code (value % base) else get_or str k 0)
    unfolding stored
    stored_at k = get_or-set str i k (digit_code (value % base)) 0 inside

    first_digit : digit_value (get_or stored i 0) ≡ value % base
    first_digit =
        let here : get_or stored i 0 ≡ digit_code (value % base) = stored_at i ∙ ground arith in
        rw here (digit_value-digit_code (value % base) digit_small)

    first_IsDigit : IsDigit base (get_or stored i 0)
    first_IsDigit =
        let here : get_or stored i 0 ≡ digit_code (value % base) = stored_at i ∙ ground arith in
        rw here
          (digit_code-IsDigit base (value % base) (mod-lt value {m = base} (omega arith)) base_most)

    length-stored : length stored ≡ length str
    unfolding stored
    length-stored = length-set str i (digit_code (value % base))

    stored_before : (k : ℕ) → k < i → get_or stored k 0 ≡ get_or str k 0
    stored_before k less = stored_at k ∙ ground arith

    last-worth : value / base ≡ 0 → from_last base stored i (i + 1 - i) ≡ value
    unfolding from_last
    last-worth done =
        let count : i + 1 - i ≡ 1 = omega arith in
        let whole = mod-add-div value base in
        let none_left : base * (value / base) ≡ 0 = rw done (omega arith) in
        rw (count, first_digit) (omega arith)

    last-Written : (n : ℕ) → value / base ≡ 0 → Written base value i (suc n) (i + 1) str stored
    last-Written n done = record {
      whole = length-stored;
      some_digit = omega arith;
      few = omega arith;
      before = stored_before;
      digits = λ k from below. let same : k ≡ i = omega arith in rw same first_IsDigit;
      worth = last-worth done;
      leading = λ _. refl;
    }

    -- A single digit 0 is not what is left of a number that is not 0.
    no_zero :
        (n e : ℕ) (out : List ℕ)
        → 0 < value / base
        → Written base (value / base) (i + 1) n e stored out
        → e ≡ i + 1 + 1
        → ¬ (get_or out (e - 1) 0 ≡ 48)
    unfolding from_last digit_value
    no_zero n e out more w one zero_digit =
        let count : e - (i + 1) ≡ 1 = omega arith in
        let at : e - 1 ≡ i + 1 = omega arith in
        let digit = rw at at (zero_digit) in
        let left = rw (count, digit) at (w.worth) in omega arith

    next-Written :
        (n e : ℕ) (out : List ℕ)
        → 0 < value / base
        → Written base (value / base) (i + 1) n e stored out
        → Written base value i (suc n) e str out
    next-Written n e out more w =
        let here = w.before i (omega arith) in
        let whole = mod-add-div value base in
        record {
          whole = w.whole ∙ length-stored;
          some_digit = let some_digit = w.some_digit in omega arith;
          few = let few = w.few in omega arith;
          before = λ k less. w.before k (omega arith) ∙ stored_before k less;
          digits = λ k from below. elim (first_or_later k from) [
            | inl same ↦ rw (same, here) first_IsDigit
            | inr later ↦ w.digits k later below
          ];
          worth =
              from_last_step base i e out (let some_digit = w.some_digit in omega arith)
              ∙ rw (here, first_digit, w.worth) whole;
          leading = λ zero_digit. absurd (no_zero n e out more w (w.leading zero_digit) zero_digit);
        }

  less_left : (value n : ℕ) → value < base ^ suc n → value / base < base ^ n
  less_left value n small =
      let power = pow-suc base n in
      (div-lt_iff_lt-mul {k = base} {x = value} {y = base ^ n} (omega arith)).1
        (rw power at (small))

  -- A last round, when no digit is left.
  itoa_loop_last :
      (n d value i : ℕ) (str : List ℕ)
      → (inside : i < length str) → value / base ≡ 0
      → (e : ℕ) × (out : List ℕ) × (itoa_loop (suc n) value base i str ≡ some (e, out))
        × Written base value i (suc d) e str out
  unfolding itoa_loop stored
  itoa_loop_last n d value i str inside done =
      (i + 1, stored value i str inside, rw done refl, last-Written value i str inside d done)

  itoa_loop-Written :
      (n d value i : ℕ) (str : List ℕ)
      → d ≤ n
      → value < base ^ suc d
      → i + d < length str
      → (e : ℕ) × (out : List ℕ) × (itoa_loop (suc n) value base i str ≡ some (e, out))
        × Written base value i (suc d) e str out
  unfolding itoa_loop stored
  itoa_loop-Written n zero value i str rounds small room =
      let less : value / base < base ^ 0 = less_left value 0 small in
      itoa_loop_last n 0 value i str (omega arith) (let one = pow-zero base in omega arith)
  itoa_loop-Written zero (suc d) value i str rounds small room = absurd (omega arith)
  itoa_loop-Written (suc n) (suc d) value i str rounds small room =
      let inside : i < length str = omega arith in
      elim (Bool-cases (ltb 0 (value / base))) [
        | inl more ↦
            let (e, out, runs, w) =
              itoa_loop-Written n d (value / base) (i + 1) (stored value i str inside) (omega arith)
                (less_left value (suc d) small)
                (rw (length-stored value i str inside) (omega arith)) in
            (
              e,
              out,
              rw more runs,
              next-Written value i str inside (suc d) e out (ltb→lt _ _ more) w,
            )
        | inr last ↦ itoa_loop_last (suc n) (suc d) value i str inside (ground arith)
      ]

  -- What the digits are once the text is ended and turned around.
  module _ (value d e : ℕ) (str s out : List ℕ) (room : suc d < length str)
      (w : Written base value 0 (suc d) e str s) (m : Mirrored 0 (e - 1) (set s e 0) out) where
    ended_at : (k : ℕ) → get_or (set s e 0) k 0 ≡ (if e == k then 0 else get_or s k 0)
    ended_at k = get_or-set s e k 0 0 (let few = w.few in rw w.whole (omega arith))

    ended_before :
        (k : ℕ)
        → k < e
        → (if leb 0 k && leb k (e - 1)
            then get_or (set s e 0) (0 + (e - 1) - k) 0
            else get_or (set s e 0) k 0)
          ≡ get_or s (e - 1 - k) 0
    ended_before k less =
        let there = ended_at (e - 1 - k) in
        let same : 0 + (e - 1) - k ≡ e - 1 - k = omega arith in rw same (ground arith)

    ended_behind :
        (if leb 0 e && leb e (e - 1)
          then get_or (set s e 0) (0 + (e - 1) - e) 0
          else get_or (set s e 0) e 0)
        ≡ 0
    ended_behind = let some_digit = w.some_digit in let there = ended_at e in ground arith

    turned : (k : ℕ) → k < e → get_or out k 0 ≡ get_or s (e - 1 - k) 0
    turned k less = m.bytes k ∙ ended_before k less

    IsDigit-out : (k : ℕ) → k < e → IsDigit base (get_or out k 0)
    IsDigit-out k less = rw (turned k less) (w.digits (e - 1 - k) (omega arith) (omega arith))

    IsText-out : IsText out e
    IsText-out = record {
      inside = let few = w.few in rw (m.whole, length-set s e 0, w.whole) (omega arith);
      ended = m.bytes e ∙ ended_behind;
      digits = λ k less. IsDigit-positive base (get_or out k 0) (IsDigit-out k less);
    }

    number-out : number base 0 (text out) ≡ value
    number-out =
        let none_left : e - e ≡ 0 = omega arith in
        let all : e - 0 ≡ e = omega arith in
        number-text base 0 e out IsText-out
        ∙ from_first-from_last base e s out turned e (omega arith)
        ∙ rw (none_left, sym all) w.worth

    Writes-out : Writes base value (text out)
    Writes-out = record {
      some_digit = text-some e out IsText-out w.some_digit;
      all_digits = text-All (IsDigit base) e out IsText-out IsDigit-out;
      reads = number-out;
      no_leading_zero = λ zero_digit.
          let some_digit = w.some_digit in
          let there = turned 0 some_digit in
          let last = w.leading (
            ap (λ k. get_or s k 0) (omega arith) ∙ sym there ∙ sym (first-text out) ∙ zero_digit) in
          length-text e out IsText-out ∙ last;
    }

  -- itoa of a value of at most `d` digits to a base from 2 to 36, with `d` from 1 to 64, into a buffer of more than `d` bytes: it returns, and the text it leaves is of one or more digits to the base ('0' to '9', then 'A' to 'Z') and nothing else, with no leading '0' but for a single digit, and these write the value.
  pub itoa_lem :
      (value d : ℕ) (str : List ℕ)
      → 1 ≤ d
      → d ≤ 64
      → value < base ^ d
      → d < length str
      → (out : List ℕ) × (itoa value str base ≡ some out) × Writes base value (text out)
  unfolding itoa itoa_end
  itoa_lem value zero str some_digit most small room = absurd (omega arith)
  itoa_lem value (suc d) str some_digit most small room =
      let (e, s, runs, w) = itoa_loop-Written 63 d value 0 str (omega arith) small (omega arith) in
      let few = w.few in
      let whole : length (set s e 0) ≡ length str = length-set s e 0 ∙ w.whole in
      let (out, turns, m) =
        reverse_lem (set s e 0) e w.some_digit (rw whole (omega arith)) (omega arith) in
      (out, rw runs turns, Writes-out value d e str s out room w m)
