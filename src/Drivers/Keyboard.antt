-- ===== src/Drivers/Keyboard.antt =====
-- kernel/IRQ/scancode.c: from scan codes to characters. A code of two bytes has the prefix 0xE0 in
-- its high byte.
pub mod Layout
pub mod Locks
use ly_system_os.Prelude.{
  ℕ, bit_and, Bool, true, false, not, ◌&&◌, ◌||◌, List, [], ◌∷◌, ◌==◌, if◌then◌else◌,
}
use Prim.Native.Char.{code}

-- CapslockActive and ShiftActive.
pub record Keyboard : Type 0 where
  pub capslock_active : Bool
  pub shift_active : Bool

-- What the function does besides: the write of the keyboard's LED and, for the escape key, the clearing
-- of the screen and the list of tasks.
pub data Effect : Type 0 where
  update_kbd_leds : Bool → Effect
  clear_screen : Effect
  list_task : Effect

abbrev pub key_lshift : ℕ
key_lshift = 0x2A

abbrev pub key_rshift : ℕ
key_rshift = 0x36

abbrev pub key_lshift_rel : ℕ
key_lshift_rel = 0xAA

abbrev pub key_rshift_rel : ℕ
key_rshift_rel = 0xB6

abbrev pub key_capslock : ℕ
key_capslock = 0x3A

abbrev pub key_esc : ℕ
key_esc = 0x01

-- A case of the switch: the character that Shift selects, that Shift and Caps Lock select, or the one
-- there is.
pub data Key : Type 0 where
  by_shift : ℕ → ℕ → Key
  letter : ℕ → ℕ → Key
  fixed : ℕ → Key

-- The cases of the switch in their order, but that of the escape key.
abbrev pub keys : List (ℕ × Key)
keys =
    (0x02, by_shift (code "!") (code "1"))
    ∷ (0x03, by_shift (code "@") (code "2"))
    ∷ (0x04, by_shift (code "#") (code "3"))
    ∷ (0x05, by_shift (code "$") (code "4"))
    ∷ (0x06, by_shift (code "%") (code "5"))
    ∷ (0x07, by_shift (code "^") (code "6"))
    ∷ (0x08, by_shift (code "&") (code "7"))
    ∷ (0x09, by_shift (code "*") (code "8"))
    ∷ (0x0A, by_shift (code "(") (code "9"))
    ∷ (0x0B, by_shift (code ")") (code "0"))
    ∷ (0x0C, by_shift (code "_") (code "-"))
    ∷ (0x0D, by_shift (code "+") (code "="))
    ∷ (0x1E, letter (code "A") (code "a"))
    ∷ (0x30, letter (code "B") (code "b"))
    ∷ (0x2E, letter (code "C") (code "c"))
    ∷ (0x20, letter (code "D") (code "d"))
    ∷ (0x12, letter (code "E") (code "e"))
    ∷ (0x21, letter (code "F") (code "f"))
    ∷ (0x22, letter (code "G") (code "g"))
    ∷ (0x23, letter (code "H") (code "h"))
    ∷ (0x17, letter (code "I") (code "i"))
    ∷ (0x24, letter (code "J") (code "j"))
    ∷ (0x25, letter (code "K") (code "k"))
    ∷ (0x26, letter (code "L") (code "l"))
    ∷ (0x27, by_shift (code ":") (code ";"))
    ∷ (0x28, by_shift 34 39)
    ∷ (0x32, letter (code "M") (code "m"))
    ∷ (0x31, letter (code "N") (code "n"))
    ∷ (0x18, letter (code "O") (code "o"))
    ∷ (0x19, letter (code "P") (code "p"))
    ∷ (0x1A, by_shift (code "[") (code "{"))
    ∷ (0x1B, by_shift (code "]") (code "}"))
    ∷ (0x10, letter (code "Q") (code "q"))
    ∷ (0x13, letter (code "R") (code "r"))
    ∷ (0x1F, letter (code "S") (code "s"))
    ∷ (0x14, letter (code "T") (code "t"))
    ∷ (0x16, letter (code "U") (code "u"))
    ∷ (0x2F, letter (code "V") (code "v"))
    ∷ (0x11, letter (code "W") (code "w"))
    ∷ (0x2D, letter (code "X") (code "x"))
    ∷ (0x15, letter (code "Y") (code "y"))
    ∷ (0x2C, letter (code "Z") (code "z"))
    ∷ (0x0F, fixed 9)
    ∷ (0x33, by_shift (code "<") (code ","))
    ∷ (0x34, by_shift (code ">") (code "."))
    ∷ (0x35, by_shift (code "?") (code "/"))
    ∷ (0x39, fixed 32)
    ∷ (0x1C, fixed 10)
    ∷ (0x0E, fixed 8)
    ∷ []

-- The character of a case.
unfoldable pub character : Key → Bool → Bool → ℕ
character (by_shift shifted plain) shift upper = if shift then shifted else plain
character (letter capital small) shift upper = if upper then capital else small
character (fixed c) shift upper = c

-- The switch: 0 for a code without a case.
unfoldable pub key_char : List (ℕ × Key) → ℕ → Bool → Bool → ℕ
key_char [] key shift upper = 0
key_char ((number, k) ∷ rest) key shift upper =
    if key == number then character k shift upper else key_char rest key shift upper

-- The two Booleans differ: `a != b`.
unfoldable pub differ : Bool → Bool → Bool
differ true b = not b
differ false b = b

-- `keyboard_transform`, of a `uint16_t`.
unfoldable pub keyboard_transform : ℕ → Keyboard → ℕ × Keyboard × List Effect
keyboard_transform key k =
    let raw_code = bit_and key 0xFF in
    if (raw_code == key_lshift) || (raw_code == key_rshift)
    then (0, record k { shift_active = true }, [])
    else if (raw_code == key_lshift_rel) || (raw_code == key_rshift_rel)
    then (0, record k { shift_active = false }, [])
    else if raw_code == key_capslock
    then (
      0,
      record k { capslock_active = not k.capslock_active },
      update_kbd_leds (not k.capslock_active) ∷ [],
    )
    else if not (bit_and key 0x80 == 0) && not (bit_and key 0xFF00 == 0xE000)
    then (0, k, [])
    else if key == key_esc
    then (0, k, clear_screen ∷ list_task ∷ [])
    else (key_char keys key k.shift_active (differ k.capslock_active k.shift_active), k, [])
