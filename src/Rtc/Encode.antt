-- ===== src/Rtc/Encode.antt =====
-- The registers that a clock shows at a time, in each of the four formats that register B selects.
use efes_os.Base.{ℕ, ◌+◌, ◌*◌, ◌/◌, ◌%◌, Bool, not, ◌==◌, leb, bit_and, if◌then◌else◌}
use efes_os.Rtc.{RtcTime, RtcRawSnapshot, register_b_24_hour, register_b_binary}

-- A number below 100 as two decimal digits in four bits each, or as it is.
unfoldable pub encode_value : Bool → ℕ → ℕ
encode_value binary v = if binary then v else v / 10 * 16 + v % 10

-- Twelve stands for the hours 0 and 12; the afternoon has bit 7.
unfoldable pub encode_hour : Bool → Bool → ℕ → ℕ
encode_hour binary hour_24 hour =
    if hour_24
    then encode_value binary hour
    else encode_value binary (if hour % 12 == 0 then 12 else hour % 12)
      + (if leb 12 hour then 0x80 else 0)

unfoldable pub encode : ℕ → RtcTime → RtcRawSnapshot
encode register_b t =
    let binary = not (bit_and register_b register_b_binary == 0) in
    let hour_24 = not (bit_and register_b register_b_24_hour == 0) in
    record {
      second = encode_value binary t.second;
      minute = encode_value binary t.minute;
      hour = encode_hour binary hour_24 t.hour;
      day = encode_value binary t.day;
      month = encode_value binary t.month;
      year = encode_value binary (t.year % 100);
      century = encode_value binary (t.year / 100);
      register_b = register_b;
    }
