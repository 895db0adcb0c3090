-- ===== src/Rtc/Decode.antt =====
-- Decoding gives back the time a clock shows.
use native.Mathlib.Decide.{dec_lt}
use efes_os.Base.{
  ℕ, zero, suc, ◌+◌, ◌-◌, ◌*◌, ◌/◌, ◌%◌, ◌≤◌, ◌<◌, ◌≡◌, refl, ap, ◌∙◌, Bool, true, false, bit_and,
  arith, ◌==◌, leb, ltb, if◌then◌else◌, not, ◌&&◌, ◌||◌, if_each, if_both, some, Option, ◌>>=◌,
  List, [], ◌∷◌, get_or, all,
}
use efes_os.Base.Words.{bit_and-mask}
use efes_os.Base.Bits.{bit, bit_and-pow}
use efes_os.Rtc.{
  RtcTime, register_b_24_hour, register_b_binary, decode_bcd, decode_value, correct_hour, full_year,
  decode_fields, judged, rtc_decode_snapshot, rtc_time_is_valid, month_days, leap_year, days,
}
use efes_os.Rtc.Encode.{encode_value, encode_hour, encode}

nibble : (a : ℕ) → bit_and a 0x0F ≡ a % 16
nibble a = bit_and-mask 4 a

-- Two decimal digits come back as the number.
decode_value-encode_value :
    (binary : Bool) (v : ℕ) → v < 100 → decode_value (encode_value binary v) binary ≡ some v
unfolding decode_value decode_bcd encode_value
decode_value-encode_value true v h = refl
decode_value-encode_value false v h =
    let low : (v / 10 * 16 + v % 10) % 16 ≡ v % 10 = omega arith in
    let high : (v / 10 * 16 + v % 10) / 16 % 16 ≡ v / 10 = omega arith in
    rw (nibble (v / 10 * 16 + v % 10), nibble ((v / 10 * 16 + v % 10) / 16), low, high)
      (if_each (λ o. o ≡ some v) (ltb 9 (v % 10) || ltb 9 (v / 10)) _ _
        (λ wrong.
          absurd
            (let a : v % 10 ≤ 9 = omega arith in let b : v / 10 ≤ 9 = omega arith in ground arith))
        (λ right. ap some (omega arith)))

encode_value-range :
    (binary : Bool) (v : ℕ) → v < 100 → encode_value binary v ≤ v / 10 * 16 + v % 10
unfolding encode_value
encode_value-range true v h = omega arith
encode_value-range false v h = omega arith

encode_value-ge : (binary : Bool) (v : ℕ) → v ≤ encode_value binary v
unfolding encode_value
encode_value-ge true v = omega arith
encode_value-ge false v = omega arith

-- The hour register carries the hour below bit 7 and the half of the day in it.
low_bits : (a b : ℕ) → b < 0x80 → bit_and (b + a * 0x80) 0x7F ≡ b
low_bits a b h = bit_and-mask 7 (b + a * 0x80) ∙ omega arith

top_bit : (a b : ℕ) → b < 0x80 → a ≤ 1 → bit_and (b + a * 0x80) 0x80 ≡ a * 0x80
unfolding bit
top_bit a b h le = bit_and-pow (b + a * 0x80) 7 ∙ omega arith

-- What the fields of a valid time satisfy.
record Fits (t : RtcTime) : Type 0 where
  year_low : 1900 ≤ t.year
  year_high : t.year ≤ 9999
  month_high : t.month ≤ 12
  day_high : t.day ≤ 31
  hour_high : t.hour ≤ 23
  minute_high : t.minute ≤ 59
  second_high : t.second ≤ 59

get_or-le : (xs : List ℕ) (i b : ℕ) → all (λ d. leb d b) xs ≡ true → get_or xs i 0 ≤ b
get_or-le [] i b h = omega arith
get_or-le (x ∷ xs) zero b h = ground arith
get_or-le (x ∷ xs) (suc i) b h = get_or-le xs i b (ground arith)

month_days-le : (y m : ℕ) → month_days y m ≤ 31
unfolding month_days
month_days-le y m =
    if_both (λ n. n ≤ 31) ((m == 0) || ltb 12 m) _ _ (omega arith)
      (if_both (λ n. n ≤ 31) ((m == 2) && leap_year y) _ _ (omega arith)
        (get_or-le days (m - 1) 31 refl))

Fits-of_valid : (t : RtcTime) → rtc_time_is_valid (some t) ≡ true → Fits t
unfolding rtc_time_is_valid
Fits-of_valid t h = record {
  year_low = ground arith;
  year_high = ground arith;
  month_high = ground arith;
  day_high = ground (arith, month_days-le t.year t.month);
  hour_high = ground arith;
  minute_high = ground arith;
  second_high = ground arith;
}

full_year-encode_value :
    (binary : Bool) (y : ℕ)
    → 1900 ≤ y
    → y ≤ 9999
    → full_year (encode_value binary (y / 100)) binary (y % 100) ≡ y
unfolding full_year
full_year-encode_value binary y low high =
    rw (full_year, decode_value-encode_value binary (y / 100) (omega arith))
      (let positive : 0 < encode_value binary (y / 100) =
          omega (arith, encode_value-ge binary (y / 100)) in
        ground arith)

-- The hour on a dial of twelve.
abbrev dial : ℕ → ℕ
dial hour = if hour % 12 == 0 then 12 else hour % 12

abbrev half : ℕ → ℕ
half hour = if leb 12 hour then 1 else 0

dial-range : (hour : ℕ) → (0 < dial hour) × (dial hour ≤ 12)
dial-range hour = (ground arith, ground arith)

-- The 12-hour register without its half of the day.
encode_hour-dial :
    (binary : Bool) (hour : ℕ)
    → encode_hour binary false hour ≡ encode_value binary (dial hour) + half hour * 0x80
unfolding encode_hour
encode_hour-dial binary hour = ap (λ n. encode_value binary (dial hour) + n) (ground arith)

encode_dial-small : (binary : Bool) (hour : ℕ) → encode_value binary (dial hour) < 0x80
encode_dial-small binary hour =
    let (pos, le) = dial-range hour in
    let range : encode_value binary (dial hour) ≤ dial hour / 10 * 16 + dial hour % 10 =
      encode_value-range binary (dial hour) (omega arith) in
    omega arith

correct_hour-dial :
    (hour : ℕ)
    → hour ≤ 23
    → correct_hour false (not (half hour * 0x80 == 0)) (dial hour) ≡ some hour
unfolding correct_hour
correct_hour-dial hour le = elim (dec_lt hour 12) [
  | yes morning ↦
      let e : half hour ≡ 0 = ground arith in
      rw e (
        if_each (λ o. o ≡ some hour) ((dial hour == 0) || ltb 12 (dial hour)) _ _
          (λ wrong. absurd (ground arith)) (λ right. ap some (ground arith)))
  | no afternoon ↦
      let e : half hour ≡ 1 = ground arith in
      rw e (
        if_each (λ o. o ≡ some hour) ((dial hour == 0) || ltb 12 (dial hour)) _ _
          (λ wrong. absurd (ground arith)) (λ right. ap some (ground arith)))
]

-- In both formats the hour register is read as a number that corrects to the hour.
hour_register :
    (binary hour_24 : Bool) (hour : ℕ)
    → hour ≤ 23
    → let register = encode_hour binary hour_24 hour in
      (shown : ℕ) × (decode_value (if hour_24 then register else bit_and register 0x7F) binary
        ≡ some shown)
      × (correct_hour hour_24 (not hour_24 && not (bit_and register 0x80 == 0)) shown ≡ some hour)
unfolding encode_hour correct_hour
hour_register binary true hour le =
    (hour, decode_value-encode_value binary hour (omega arith), refl)
hour_register binary false hour le = (dial hour, shown_lem, corrected_lem)
  where
    small : encode_value binary (dial hour) < 0x80
    small = encode_dial-small binary hour

    shown_lem :
        decode_value (bit_and (encode_hour binary false hour) 0x7F) binary ≡ some (dial hour)
    shown_lem =
        rw
          (
            encode_hour-dial binary hour,
            low_bits (half hour) (encode_value binary (dial hour)) small,
          )
          (decode_value-encode_value binary (dial hour) (omega (arith, (dial-range hour).1)))

    corrected_lem :
        correct_hour false (not (bit_and (encode_hour binary false hour) 0x80 == 0)) (dial hour)
        ≡ some hour
    corrected_lem =
        rw
          (
            encode_hour-dial binary hour,
            top_bit (half hour) (encode_value binary (dial hour)) small (ground arith),
          )
          (correct_hour-dial hour le)

byte : (v : ℕ) → v < 0x100 → v % 0x100 ≡ v
byte v h = omega arith

bind_some :
    {A B : Type 0} {o : Option A} {a : A} {r : Option B} (next : A → Option B)
    → o ≡ some a
    → next a ≡ r
    → (o >>= next) ≡ r
bind_some next e f = ap (λ p. p >>= next) e ∙ f

decode_fields-encode :
    (register_b : ℕ) (t : RtcTime) → Fits t → decode_fields (encode register_b t) ≡ some t
unfolding decode_fields encode
decode_fields-encode register_b t f =
    let (shown, shown_lem, corrected_lem) = hour_register binary hour_24 t.hour f.hour_high in
    bind_some _ (field t.second (omega arith)) (
      bind_some _ (field t.minute (omega arith)) (
        bind_some _ shown_lem (
          bind_some _ (field t.day (omega arith)) (
            bind_some _ (field t.month (omega arith)) (
              bind_some _ (field (t.year % 100) (omega arith))
                (bind_some _ corrected_lem written))))))
  where
    binary : Bool
    binary = not (bit_and register_b register_b_binary == 0)

    field : (v : ℕ) → v < 100 → decode_value (encode_value binary v) binary ≡ some v
    field = decode_value-encode_value binary

    hour_24 : Bool
    hour_24 = not (bit_and register_b register_b_24_hour == 0)

    written :
        some (record {
          year = full_year (encode_value binary (t.year / 100)) binary (t.year % 100);
          month = t.month % 0x100;
          day = t.day % 0x100;
          hour = t.hour % 0x100;
          minute = t.minute % 0x100;
          second = t.second % 0x100;
        })
        ≡ some t
    written =
        rw
          (
            full_year-encode_value binary t.year f.year_low f.year_high,
            byte t.month (omega arith),
            byte t.day (omega arith),
            byte t.hour (omega arith),
            byte t.minute (omega arith),
            byte t.second (omega arith),
          )
          refl

-- A snapshot of the registers at a valid time decodes to that time, whatever register B selects: binary
-- or decimal digits, 24 or 12 hours.
pub rtc_decode_snapshot-encode :
    (register_b : ℕ) (t before : RtcTime)
    → rtc_time_is_valid (some t) ≡ true
    → rtc_decode_snapshot (some (encode register_b t)) (some before) ≡ (true, some t)
unfolding rtc_decode_snapshot judged
rtc_decode_snapshot-encode register_b t before valid =
    ap (λ o. judged o before) (decode_fields-encode register_b t (Fits-of_valid t valid))
    ∙ ap (λ b. (b, some t)) valid
