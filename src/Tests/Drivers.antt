-- ===== src/Tests/Drivers.antt =====
-- The keyboard and the clock: the theorems at concrete keys and times.
use ly_system_os.Prelude.{
  ℕ, ◌%◌, bit_or, ◌≡◌, refl, ap, true, false, some, List, [], ◌∷◌, arith, ◌==◌, ==_iff, get_or,
}
use ly_system_os.Prelude.Bits.{every_below, every_below-holds}
use ly_system_os.Drivers.Keyboard.{Keyboard, differ}
use ly_system_os.Drivers.Keyboard.Locks.{after, last_shift, caps_presses, odd, after-locks}
use ly_system_os.Drivers.Clock.{Registers}
use ly_system_os.Drivers.Clock.Hours.{registers_of, IsTime, time_with, in_digits, in_digits}
use ly_system_os.Io.{Devices}
use ly_system_os.Drivers.Clock.Init.{time_init, IsStill, registers_at, time_init-registers_of}

abbrev shifted : Keyboard
shifted = record { capslock_active = false; shift_active = true }

-- Caps Lock, the left Shift pressed, Q, and the left Shift released.
abbrev typed : List ℕ
typed = 0x3A ∷ 0x2A ∷ 0x10 ∷ 0xAA ∷ []

after-locks_example :
    ((after shifted typed).shift_active ≡ last_shift shifted.shift_active typed)
    × ((after shifted typed).capslock_active
        ≡ differ (odd (caps_presses typed)) shifted.capslock_active)
after-locks_example = after-locks shifted typed

-- 23:59:30 on the 31st of December 2025.
abbrev evening : Registers
evening = record { sec = 30; min = 59; hour = 23; mday = 31; mon = 12; year = 25 }

evening-IsTime : IsTime evening
evening-IsTime = record {
  sec = omega arith;
  min = omega arith;
  hour = omega arith;
  mday = omega arith;
  mon = omega arith;
  year = omega arith;
}

-- A clock that has this time in two digits, and 24 hours.
abbrev clock_reg : ℕ → ℕ
clock_reg addr =
    get_or (0x30 ∷ 0 ∷ 0x59 ∷ 0 ∷ 0x23 ∷ 0 ∷ 0 ∷ 0x31 ∷ 0x12 ∷ 0x25 ∷ 0 ∷ 0x02 ∷ []) addr 0

evening_digits : registers_at clock_reg ≡ registers_of 0x02 evening
unfolding registers_of in_digits
evening_digits = refl

abbrev clock : Devices ℕ
clock = record {
  outb = λ port v d. v;
  inb = λ port d. (clock_reg (d % 128), d);
  outw = λ port v d. d;
  inw = λ port d. (0, d);
  hlt = λ d. (false, d);
}

select_all : every_below (λ x. bit_or 0x80 x % 128 == x) 128 ≡ true
unfolding every_below
select_all = refl

clock-IsStill : IsStill clock clock_reg (λ d. Unit {0})
clock-IsStill = record {
  reads = λ d addr small _. (
    ap clock_reg (
        (==_iff _ _).0
          (every_below-holds (λ x. bit_or 0x80 x % 128 == x) addr 128 small select_all)),
    tt,
  );
}

time_init-registers_of_example : (r : ℕ) × (time_init clock 1 0 ≡ some (time_with evening 23, r))
time_init-registers_of_example =
    time_init-registers_of clock clock_reg (λ d. Unit {0}) clock-IsStill 0 0 evening tt
      evening-IsTime (omega arith) evening_digits

-- Eleven in the evening on a twelve-hour clock of two digits.
