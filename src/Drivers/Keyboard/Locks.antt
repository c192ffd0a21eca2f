-- ===== src/Drivers/Keyboard/Locks.antt =====
-- What a sequence of scan codes leaves of Shift and Caps Lock (kernel/IRQ/scancode.c).
use ly_system_os.Prelude.{
  ℕ, zero, suc, ◌+◌, ◌≤◌, ◌<◌, bit_and, ◌≡◌, refl, ap, ◌∙◌, Bool, true, false, not, ◌&&◌, ◌||◌,
  List, [], ◌∷◌, arith, ltb, ◌==◌, if◌then◌else◌,
}
use ly_system_os.Prelude.Bits.{every_below, every_below-holds}
use ly_system_os.Drivers.Keyboard.{
  Keyboard, key_lshift, key_rshift, key_lshift_rel, key_rshift_rel, key_capslock, differ,
  keyboard_transform,
}

-- The keyboard after a sequence of codes.
abbrev pub after : Keyboard → List ℕ → Keyboard
after k [] = k
after k (key ∷ rest) = after (keyboard_transform key k).1 rest

-- The low byte of a code.
abbrev pub raw : ℕ → ℕ
raw key = bit_and key 0xFF

-- What the last press or release of a Shift key says, and `s` if there is none.
unfoldable pub last_shift : Bool → List ℕ → Bool
last_shift s [] = s
last_shift s (key ∷ rest) =
    last_shift
      (if (raw key == key_lshift) || (raw key == key_rshift)
        then true
        else if (raw key == key_lshift_rel) || (raw key == key_rshift_rel)
        then false
        else s)
      rest

-- How often Caps Lock was pressed.
unfoldable pub caps_presses : List ℕ → ℕ
caps_presses [] = 0
caps_presses (key ∷ rest) = (if raw key == key_capslock then 1 else 0) + caps_presses rest

unfoldable pub odd : ℕ → Bool
odd zero = false
odd (suc n) = not (odd n)

step-shift :
    (key : ℕ) (k : Keyboard)
    → (keyboard_transform key k).1.shift_active ≡ last_shift k.shift_active (key ∷ [])
unfolding keyboard_transform last_shift
step-shift key k = ground arith

step-caps :
    (key : ℕ) (k : Keyboard)
    → (keyboard_transform key k).1.capslock_active
      ≡ (if raw key == key_capslock then not k.capslock_active else k.capslock_active)
unfolding keyboard_transform
step-caps key k = ground arith

parity :
    (pressed caps : Bool) (n : ℕ)
    → differ (odd n) (if pressed then not caps else caps)
      ≡ differ (odd ((if pressed then 1 else 0) + n)) caps
unfolding differ odd
parity true true n = ground arith
parity true false n = ground arith
parity false caps n = ground arith

-- After any sequence of codes given to keyboard_transform, Shift is what the last press or release of a Shift key says, and Caps Lock has changed once for each press of it.
pub after-locks :
    (k : Keyboard) (keys : List ℕ)
    → ((after k keys).shift_active ≡ last_shift k.shift_active keys)
      × ((after k keys).capslock_active ≡ differ (odd (caps_presses keys)) k.capslock_active)
unfolding last_shift caps_presses odd differ
after-locks k [] = (refl, refl)
after-locks k (key ∷ rest) =
    let (shift, caps) = after-locks (keyboard_transform key k).1 rest in
    (
      shift ∙ ap (λ s. last_shift s rest) (step-shift key k),
      caps
          ∙ ap (differ (odd (caps_presses rest))) (step-caps key k)
          ∙ parity (raw key == key_capslock) k.capslock_active (caps_presses rest),
    )

released : ℕ → Bool
released key =
    not (bit_and key 0x80 == 0)
    && not (bit_and key 0xFF00 == 0xE000)
    && not (raw key == key_capslock)
    && not (raw key == key_lshift)
    && not (raw key == key_rshift)

released_table : every_below (λ key. ltb key 0x80 || released key) 256 ≡ true
unfolding every_below released
released_table = refl

released_lem :
    (key : ℕ) (k : Keyboard)
    → released key ≡ true
    → ((keyboard_transform key k).0 ≡ 0)
      × ((keyboard_transform key k).2 ≡ [])
      × ((keyboard_transform key k).1.capslock_active ≡ k.capslock_active)
unfolding keyboard_transform released
released_lem key k h = (ground arith, ground arith, ground arith)

-- keyboard_transform of a code of one byte that says that a key was released gives no character, has no effect and does not touch Caps Lock.
pub keyboard_transform-Released :
    (key : ℕ) (k : Keyboard)
    → 0x80 ≤ key
    → key < 0x100
    → ((keyboard_transform key k).0 ≡ 0)
      × ((keyboard_transform key k).2 ≡ [])
      × ((keyboard_transform key k).1.capslock_active ≡ k.capslock_active)
keyboard_transform-Released key k above below =
    let holds =
      every_below-holds (λ key. ltb key 0x80 || released key) key 256 below released_table in
    released_lem key k (ground arith)
