-- ===== src/Rtc.antt =====
-- drivers/rtc_time.c, drivers/rtc_time.h and include/rtc.h: the decoding of a snapshot of the clock's
-- registers and the calendar test. A pointer that may be null is an `Option`; a value that is
-- returned through a pointer only on success is an `Option` as well.
pub mod Encode
pub mod Decode
pub mod Equal
mod Tests
use efes_os.Base.{
  ℕ, zero, suc, ◌+◌, ◌-◌, ◌*◌, ◌/◌, ◌%◌, ◌^◌, ◌>>=◌, Bool, true, false, not, ◌&&◌, ◌||◌, Option,
  none, some, bit_and, ◌==◌, ltb, leb, if◌then◌else◌, List, [], ◌∷◌, get_or,
}

pub record RtcTime : Type 0 where
  pub year : ℕ
  pub month : ℕ
  pub day : ℕ
  pub hour : ℕ
  pub minute : ℕ
  pub second : ℕ

pub record RtcRawSnapshot : Type 0 where
  pub second : ℕ
  pub minute : ℕ
  pub hour : ℕ
  pub day : ℕ
  pub month : ℕ
  pub year : ℕ
  pub century : ℕ
  pub register_b : ℕ

abbrev pub register_b_24_hour : ℕ
register_b_24_hour = 0x02

abbrev pub register_b_binary : ℕ
register_b_binary = 0x04

pub decode_bcd : ℕ → Option ℕ
decode_bcd raw =
    let low = bit_and raw 0x0F in
    let high = bit_and (raw / 2 ^ 4) 0x0F in
    if ltb 9 low || ltb 9 high then none else some (high * 10 + low)

pub decode_value : ℕ → Bool → Option ℕ
decode_value raw binary = if binary then some raw else decode_bcd raw

pub leap_year : ℕ → Bool
leap_year year = (year % 4 == 0) && not (year % 100 == 0) || (year % 400 == 0)

abbrev pub days : List ℕ
days = 31 ∷ 28 ∷ 31 ∷ 30 ∷ 31 ∷ 30 ∷ 31 ∷ 31 ∷ 30 ∷ 31 ∷ 30 ∷ 31 ∷ []

pub month_days : ℕ → ℕ → ℕ
month_days year month =
    if (month == 0) || ltb 12 month
    then 0
    else if (month == 2) && leap_year year
    then 29
    else get_or days (month - 1) 0

pub rtc_raw_snapshots_equal : Option RtcRawSnapshot → Option RtcRawSnapshot → Bool
rtc_raw_snapshots_equal none right = false
rtc_raw_snapshots_equal (some left) none = false
rtc_raw_snapshots_equal (some left) (some right) =
    (left.second == right.second)
    && (left.minute == right.minute)
    && (left.hour == right.hour)
    && (left.day == right.day)
    && (left.month == right.month)
    && (left.year == right.year)
    && (left.century == right.century)
    && (left.register_b == right.register_b)

pub rtc_time_is_valid : Option RtcTime → Bool
rtc_time_is_valid none = false
rtc_time_is_valid (some time) =
    not (
      ltb time.year 1900
      || ltb 9999 time.year
      || (time.month == 0)
      || ltb 12 time.month
      || ltb 23 time.hour
      || ltb 59 time.minute
      || ltb 59 time.second)
    && not (time.day == 0)
    && leb time.day (month_days time.year time.month)

-- The correction of a 12-hour value, which is refused outside 1 to 12.
pub correct_hour : Bool → Bool → ℕ → Option ℕ
correct_hour hour_24 afternoon hour =
    if hour_24
    then some hour
    else if (hour == 0) || ltb 12 hour
    then none
    else some ((if hour == 12 then 0 else hour) + (if afternoon then 12 else 0))

-- The year with the century byte where it is plausible, otherwise with the pivot at 1980.
pub full_year : ℕ → Bool → ℕ → ℕ
full_year raw_century binary year =
    let pivot = year + (if leb 80 year then 1900 else 2000) in
    elim (decode_value raw_century binary) [
      | some century ↦
          if not (raw_century == 0) && leb 19 century && leb century 99
          then year + century * 100
          else pivot
      | none ↦ pivot
    ]

-- The fields of a snapshot as numbers, its hour and year corrected, with the casts to a byte.
pub decode_fields : RtcRawSnapshot → Option RtcTime
decode_fields raw =
    let binary = not (bit_and raw.register_b register_b_binary == 0) in
    let hour_24 = not (bit_and raw.register_b register_b_24_hour == 0) in
    let afternoon = not hour_24 && not (bit_and raw.hour 0x80 == 0) in
    let hour_raw = if hour_24 then raw.hour else bit_and raw.hour 0x7F in
    do
      second ← decode_value raw.second binary
      minute ← decode_value raw.minute binary
      hour ← decode_value hour_raw binary
      day ← decode_value raw.day binary
      month ← decode_value raw.month binary
      year ← decode_value raw.year binary
      corrected ← correct_hour hour_24 afternoon hour
      some (record {
        year = full_year raw.century binary year;
        month = month % 0x100;
        day = day % 0x100;
        hour = corrected % 0x100;
        minute = minute % 0x100;
        second = second % 0x100;
      })

-- The time behind the pointer is written before it is judged; it is kept where a field is refused.
pub judged : Option RtcTime → RtcTime → Bool × Option RtcTime
judged (some decoded) time = (rtc_time_is_valid (some decoded), some decoded)
judged none time = (false, some time)

pub rtc_decode_snapshot : Option RtcRawSnapshot → Option RtcTime → Bool × Option RtcTime
rtc_decode_snapshot none time = (false, time)
rtc_decode_snapshot (some raw) none = (false, none)
rtc_decode_snapshot (some raw) (some time) = judged (decode_fields raw) time
