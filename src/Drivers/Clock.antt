-- ===== src/Drivers/Clock.antt =====
-- kernel/time.c: what time_init makes of the values that it read from the clock. Init has the reads.
pub mod Hours
pub mod Init
use ly_system_os.Prelude.{ℕ, ◌+◌, ◌*◌, ◌/◌, ◌%◌, ◌^◌, bit_and, not, ◌&&◌, ◌==◌, if◌then◌else◌}
use ly_system_os.Prelude.Int.{ℤ, sub_ℕ}

-- struct tm, as it is read: unsigned bytes.
pub record Registers : Type 0 where
  pub sec : ℕ
  pub min : ℕ
  pub hour : ℕ
  pub mday : ℕ
  pub mon : ℕ
  pub year : ℕ

-- struct tm, as it is left.
pub record Time : Type 0 where
  pub tm_sec : ℕ
  pub tm_min : ℕ
  pub tm_hour : ℕ
  pub tm_mday : ℕ
  pub tm_mon : ℤ
  pub tm_year : ℕ

-- `BCD_TO_BIN`
unfoldable pub bcd_to_bin : ℕ → ℕ
bcd_to_bin val = bit_and val 0x0F + val / 2 ^ 4 * 10

unfoldable pub binary : Registers → Registers
binary r = record {
  sec = bcd_to_bin r.sec;
  min = bcd_to_bin r.min;
  hour = bcd_to_bin r.hour;
  mday = bcd_to_bin r.mday;
  mon = bcd_to_bin r.mon;
  year = bcd_to_bin r.year;
}

-- The hour, where the clock counts twelve of them.
unfoldable pub hour_of : ℕ → ℕ → ℕ
hour_of status_b hour =
    if (bit_and status_b 0x02 == 0) && not (bit_and hour 0x80 == 0)
    then (bit_and hour 0x7F + 12) % 24
    else hour

-- `time_init` behind its reads.
unfoldable pub time_of : ℕ → Registers → Time
time_of status_b registers =
    let r = if bit_and status_b 0x04 == 0 then binary registers else registers in
    record {
      tm_sec = r.sec;
      tm_min = r.min;
      tm_hour = hour_of status_b r.hour;
      tm_mday = r.mday;
      tm_mon = sub_ℕ r.mon 1;
      tm_year = r.year + 2000;
    }
