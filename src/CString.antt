-- ===== src/CString.antt =====
-- lib/string.c: the functions on C strings. A string is the list of bytes from a pointer on; it ends
-- at its first 0, or where the list ends, which stands for a 0.
pub mod Compare
pub mod Search
pub mod Memory
pub mod Copy
pub mod Reverse
pub mod Digits
pub mod Itoa
use ly_system_os.Prelude.{
  ℕ, zero, suc, ◌+◌, ◌-◌, ◌/◌, ◌%◌, ◌^◌, not, ◌&&◌, Option, none, some, List, [], ◌∷◌, ltb, ◌==◌,
  if◌then◌else◌, length, set, get_or,
}
use ly_system_os.Prelude.Int.{ℤ, sub_ℕ}
use Prim.Native.Char.{code}
use Prim.Native.String.{String}

-- The bytes of an ASCII literal.
abbrev pub codes : String → List ℕ
codes String.[] = []
codes (String.◌∷◌ c s) = code c ∷ codes s

-- `strncpy` into the bytes of `dest`, of which it writes the first `n`.
unfoldable pub strncpy : List ℕ → List ℕ → ℕ → List ℕ
strncpy [] src n = []
strncpy (d ∷ ds) src zero = d ∷ ds
strncpy (d ∷ ds) [] (suc n) = 0 ∷ strncpy ds [] n
strncpy (d ∷ ds) (c ∷ cs) (suc n) = c ∷ strncpy ds (if c == 0 then [] else cs) n

-- The text before the end of a string.
abbrev pub text : List ℕ → List ℕ
text [] = []
text (c ∷ cs) = if c == 0 then [] else c ∷ text cs

-- The byte at a pointer, and the string behind it.
abbrev pub first : List ℕ → ℕ
first [] = 0
first (c ∷ cs) = c

abbrev pub next : List ℕ → List ℕ
next [] = []
next (c ∷ cs) = cs

-- `strlen`
unfoldable pub strlen : List ℕ → ℕ
strlen [] = 0
strlen (c ∷ cs) = let rest = strlen cs in if not (c == 0) then 1 + rest else 0

-- `strcmp`
unfoldable pub strcmp : List ℕ → List ℕ → ℤ
strcmp [] s2 = sub_ℕ 0 (first s2)
strcmp (c ∷ cs) s2 =
    let rest = strcmp cs (next s2) in
    if not (c == 0) && (c == first s2) then rest else sub_ℕ c (first s2)

-- The loop of `reverse`, with `n` rounds of fuel: none where it leaves the string or has no fuel.
unfoldable pub reverse_loop : ℕ → ℕ → ℕ → List ℕ → Option (List ℕ)
reverse_loop zero i j str = none
reverse_loop (suc n) i j str =
    let rest =
      reverse_loop n (i + 1) (j - 1) (set (set str i (get_or str j 0)) j (get_or str i 0)) in
    if ltb i j then (if ltb j (length str) then rest else none) else some str

-- `reverse`, of a `size_t`: for a length of 0 the index wraps around.
unfoldable pub reverse : List ℕ → ℕ → Option (List ℕ)
reverse str len = reverse_loop len 0 ((len + 2 ^ 64 - 1) % 2 ^ 64) str

-- The digit that `itoa` stores for a remainder, as a `char`.
unfoldable pub digit_code : ℕ → ℕ
digit_code remainder = if ltb remainder 10 then remainder + 48 else (remainder - 10 + 65) % 256

-- The loop of `itoa` from index `i` on, with `n` rounds of fuel: the index behind the last digit, and
-- the buffer.
unfoldable pub itoa_loop : ℕ → ℕ → ℕ → ℕ → List ℕ → Option (ℕ × List ℕ)
itoa_loop zero value base i str = none
itoa_loop (suc n) value base i str =
    let written = set str i (digit_code (value % base)) in
    let rest = itoa_loop n (value / base) base (i + 1) written in
    if ltb 0 (value / base) then rest else some (i + 1, written)

-- What follows the loop.
unfoldable pub itoa_end : Option (ℕ × List ℕ) → Option (List ℕ)
itoa_end none = none
itoa_end (some (i, str)) = reverse (set str i 0) i

-- `itoa`, of a value of 64 bits, with a round for each bit.
unfoldable pub itoa : ℕ → List ℕ → ℕ → Option (List ℕ)
itoa value str base = itoa_end (itoa_loop 64 value base 0 str)
