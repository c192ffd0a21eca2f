-- ===== src/Drivers/Keyboard/Layout.antt =====
-- The letters of kernel/IRQ/scancode.c against the rows of a QWERTY keyboard.
use ly_system_os.Prelude.{
  ℕ, ◌+◌, ◌<◌, bit_and, ◌≡◌, refl, Bool, true, false, not, ◌&&◌, List, [], ◌∷◌, arith, ◌==◌,
  if◌then◌else◌,
}
use ly_system_os.Prelude.Bits.{every_below, every_below-holds}
use ly_system_os.CString.{codes}
use ly_system_os.Drivers.Keyboard.{
  Keyboard, key_lshift, key_rshift, key_lshift_rel, key_rshift_rel, key_capslock, key_esc, keys,
  character, key_char, differ, keyboard_transform,
}

-- The rows of letters: the scan code of the first key, and the letters from there on.
abbrev pub rows : List (ℕ × List ℕ)
rows = (0x10, codes "QWERTYUIOP") ∷ (0x1E, codes "ASDFGHJKL") ∷ (0x2C, codes "ZXCVBNM") ∷ []

-- The key with a letter in a row that starts at `key`, and 0 if there is none.
unfoldable pub key_in_row : ℕ → ℕ → List ℕ → ℕ
key_in_row c key [] = 0
key_in_row c key (l ∷ ls) = if l == c then key else key_in_row c (key + 1) ls

unfoldable pub key_of : ℕ → List (ℕ × List ℕ) → ℕ
key_of c [] = 0
key_of c ((key, ls) ∷ rest) =
    let here = key_in_row c key ls in if here == 0 then key_of c rest else here

-- The key of the letter number `i` of the alphabet.
abbrev pub letter_key : ℕ → ℕ
letter_key i = key_of (65 + i) rows

-- The key is that of no Shift, Caps Lock, escape or release.
plain : ℕ → Bool
plain key =
    not (key == key_lshift)
    && not (key == key_rshift)
    && not (key == key_lshift_rel)
    && not (key == key_rshift_rel)
    && not (key == key_capslock)
    && (bit_and key 0xFF == key)
    && (bit_and key 0x80 == 0)
    && not (key == key_esc)

-- Its characters are the letter.
writes : ℕ → ℕ → Bool
writes key i =
    (key_char keys key true true == 65 + i)
    && (key_char keys key false true == 65 + i)
    && (key_char keys key true false == 97 + i)
    && (key_char keys key false false == 97 + i)

is_letter : ℕ → Bool
is_letter i = plain (letter_key i) && writes (letter_key i) i

letter_table : every_below is_letter 26 ≡ true
unfolding every_below is_letter plain writes key_of key_in_row key_char character
letter_table = refl

plain_lem :
    (key : ℕ) (k : Keyboard)
    → plain key ≡ true
    → keyboard_transform key k
      ≡ (key_char keys key k.shift_active (differ k.capslock_active k.shift_active), k, [])
unfolding plain keyboard_transform
plain_lem key k h = ground arith

writes_lem :
    (key i : ℕ) (shift upper : Bool)
    → writes key i ≡ true
    → key_char keys key shift upper ≡ (if upper then 65 + i else 97 + i)
unfolding writes
writes_lem key i true true h = ground arith
writes_lem key i false true h = ground arith
writes_lem key i true false h = ground arith
writes_lem key i false false h = ground arith

letter_lem :
    (key i : ℕ) (k : Keyboard)
    → plain key && writes key i ≡ true
    → keyboard_transform key k
      ≡ ((if differ k.capslock_active k.shift_active then 65 + i else 97 + i), k, [])
letter_lem key i k h =
    rw
      (
        plain_lem key k (ground arith),
        writes_lem key i k.shift_active (differ k.capslock_active k.shift_active) (ground arith),
      )
      refl

-- keyboard_transform of the key of a letter on a QWERTY keyboard: it gives the capital letter where exactly one of Shift and Caps Lock is active and the small one elsewhere, and changes nothing.
pub keyboard_transform-letter_key :
    (i : ℕ) (k : Keyboard)
    → i < 26
    → keyboard_transform (letter_key i) k
      ≡ ((if differ k.capslock_active k.shift_active then 65 + i else 97 + i), k, [])
unfolding is_letter
keyboard_transform-letter_key i k hi =
    letter_lem (letter_key i) i k (every_below-holds is_letter i 26 hi letter_table)
