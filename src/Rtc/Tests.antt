-- ===== src/Rtc/Tests.antt =====
-- Snapshots at concrete times.
use efes_os.Base.{◌≡◌, refl, true, some}
use efes_os.Rtc.{
  RtcTime, RtcRawSnapshot, rtc_decode_snapshot, rtc_time_is_valid, rtc_raw_snapshots_equal,
}
use efes_os.Rtc.Encode.{encode}
use efes_os.Rtc.Decode.{rtc_decode_snapshot-encode}

-- The last minute of a leap day, in the evening.
abbrev leap_day : RtcTime
leap_day = record { year = 2024; month = 2; day = 29; hour = 23; minute = 59; second = 7 }

abbrev unset : RtcTime
unset = record { year = 0; month = 0; day = 0; hour = 0; minute = 0; second = 0 }

-- Decimal digits on a dial of twelve hours.
abbrev shown : RtcRawSnapshot
shown = record {
  second = 0x07;
  minute = 0x59;
  hour = 0x91;
  day = 0x29;
  month = 0x02;
  year = 0x24;
  century = 0x20;
  register_b = 0;
}

rtc_decode_snapshot-encode_example :
    rtc_decode_snapshot (some shown) (some unset) ≡ (true, some leap_day)
unfolding rtc_time_is_valid efes_os.Rtc.month_days efes_os.Rtc.leap_year encode
    efes_os.Rtc.Encode.encode_value efes_os.Rtc.Encode.encode_hour
rtc_decode_snapshot-encode_example = rtc_decode_snapshot-encode 0 leap_day unset refl
