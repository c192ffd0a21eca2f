-- ===== src/Drivers/Clock/Hours.antt =====
-- The values that time_init of kernel/time.c reads right, and the hours that it reads wrong.
use ly_system_os.Prelude.{
  ℕ, ◌+◌, ◌*◌, ◌/◌, ◌%◌, ◌<◌, bit_and, ◌≡◌, refl, ap, ◌∙◌, ◌≢◌, Bool, true, false, ◌&&◌, arith,
  ◌==◌, if◌then◌else◌, ==_iff,
}
use ly_system_os.Prelude.Int.{sub_ℕ}
use ly_system_os.Prelude.Bits.{every_below, every_below-holds}
use ly_system_os.Drivers.Clock.{Registers, Time, bcd_to_bin, binary, hour_of, time_of}

-- Two decimal digits in a byte.
abbrev pub bcd : ℕ → ℕ
bcd n = n / 10 * 16 + n % 10

bcd_table : every_below (λ n. bcd_to_bin (bcd n) == n) 100 ≡ true
unfolding every_below bcd_to_bin
bcd_table = refl

bcd_to_bin-bcd : (n : ℕ) → n < 100 → bcd_to_bin (bcd n) ≡ n
bcd_to_bin-bcd n h =
    (==_iff (bcd_to_bin (bcd n)) n).0
      (every_below-holds (λ n. bcd_to_bin (bcd n) == n) n 100 h bcd_table)

-- The digits of each field.
unfoldable pub in_digits : Registers → Registers
in_digits r = record {
  sec = bcd r.sec;
  min = bcd r.min;
  hour = bcd r.hour;
  mday = bcd r.mday;
  mon = bcd r.mon;
  year = bcd r.year;
}

-- The time of the fields, at an hour.
abbrev pub time_with : Registers → ℕ → Time
time_with r h = record {
  tm_sec = r.sec;
  tm_min = r.min;
  tm_hour = h;
  tm_mday = r.mday;
  tm_mon = sub_ℕ r.mon 1;
  tm_year = r.year + 2000;
}

-- The values that a clock holds for a time: as they are, or in two digits.
unfoldable pub registers_of : ℕ → Registers → Registers
registers_of status_b r = if bit_and status_b 0x04 == 0 then in_digits r else r

-- The fields of a time in a century.
pub record IsTime (r : Registers) : Type 0 where
  pub sec : r.sec < 60
  pub min : r.min < 60
  pub hour : r.hour < 24
  pub mday : r.mday < 32
  pub mon : r.mon < 13
  pub year : r.year < 100

binary-in_digits : (r : Registers) → IsTime r → binary (in_digits r) ≡ r
unfolding binary in_digits
binary-in_digits r t =
    rw
      (
        bcd_to_bin-bcd r.sec (omega arith),
        bcd_to_bin-bcd r.min (omega arith),
        bcd_to_bin-bcd r.hour (omega arith),
        bcd_to_bin-bcd r.mday (omega arith),
        bcd_to_bin-bcd r.mon (omega arith),
        bcd_to_bin-bcd r.year (omega arith),
      )
      refl

read_back :
    (digits : Bool) (r : Registers)
    → IsTime r
    → (if digits
        then binary (if digits then in_digits r else r)
        else (if digits then in_digits r else r))
      ≡ r
read_back true r t = binary-in_digits r t
read_back false r t = refl

hour_of-full : (status_b hour : ℕ) → bit_and status_b 0x02 ≢ 0 → hour_of status_b hour ≡ hour
unfolding hour_of
hour_of-full status_b hour full = ground arith

-- time_init on a clock that counts 24 hours, with the values of a time of this century in it, as they are or in two digits as the status says: it gives that time, with months from 0 and the full year.
pub time_of-registers_of :
    (status_b : ℕ) (r : Registers)
    → IsTime r
    → bit_and status_b 0x02 ≢ 0
    → time_of status_b (registers_of status_b r) ≡ time_with r r.hour
unfolding time_of registers_of
time_of-registers_of status_b r t full =
    ap (λ x. time_with x (hour_of status_b x.hour)) (read_back (bit_and status_b 0x04 == 0) r t)
    ∙ ap (time_with r) (hour_of-full status_b r.hour full)

pm_hour : ℕ → Bool
pm_hour h = (bcd_to_bin (0x80 + bcd h) == 80 + h) && (bit_and (80 + h) 0x80 == 0)

pm_table : every_below pm_hour 13 ≡ true
unfolding every_below pm_hour bcd_to_bin
pm_table = refl

pm_lem :
    (status_b h hour : ℕ)
    → hour ≡ 0x80 + bcd h
    → pm_hour h ≡ true
    → hour_of status_b (bcd_to_bin hour) ≡ 80 + h
unfolding hour_of pm_hour
pm_lem status_b h hour e holds =
    let read : bcd_to_bin hour ≡ 80 + h = rw e (ground arith) in rw read (ground arith)

-- time_init on a clock that keeps two digits: an hour h up to 12 that is held with its top bit set, as a twelve-hour clock holds the afternoon, is read as 80 + h.
pub time_of-Afternoon :
    (status_b h : ℕ) (r : Registers)
    → bit_and status_b 0x04 ≡ 0
    → h < 13
    → r.hour ≡ 0x80 + bcd h
    → (time_of status_b r).tm_hour ≡ 80 + h
unfolding time_of binary
time_of-Afternoon status_b h r digits below e =
    rw digits (pm_lem status_b h r.hour e (every_below-holds pm_hour h 13 below pm_table))
