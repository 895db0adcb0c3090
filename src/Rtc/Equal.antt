-- ===== src/Rtc/Equal.antt =====
-- The comparison of two snapshots.
use efes_os.Base.{◌≡◌, ◌↔◌, true, some, arith}
use efes_os.Rtc.{RtcRawSnapshot, rtc_raw_snapshots_equal}

-- Two snapshots compare equal exactly when all eight registers agree.
pub rtc_raw_snapshots_equal_lem :
    (left right : RtcRawSnapshot)
    → (rtc_raw_snapshots_equal (some left) (some right) ≡ true) ↔ (left ≡ right)
unfolding rtc_raw_snapshots_equal
rtc_raw_snapshots_equal_lem left right = (forth, back)
  where
    forth : rtc_raw_snapshots_equal (some left) (some right) ≡ true → left ≡ right
    forth h =
        let second_lem : left.second ≡ right.second = ground arith in
        let minute_lem : left.minute ≡ right.minute = ground arith in
        let hour_lem : left.hour ≡ right.hour = ground arith in
        let day_lem : left.day ≡ right.day = ground arith in
        let month_lem : left.month ≡ right.month = ground arith in
        let year_lem : left.year ≡ right.year = ground arith in
        let century_lem : left.century ≡ right.century = ground arith in
        let register_b_lem : left.register_b ≡ right.register_b = ground arith in
        λ i. record {
          second = second_lem i;
          minute = minute_lem i;
          hour = hour_lem i;
          day = day_lem i;
          month = month_lem i;
          year = year_lem i;
          century = century_lem i;
          register_b = register_b_lem i;
        }

    back : left ≡ right → rtc_raw_snapshots_equal (some left) (some right) ≡ true
    back e = rw e (ground arith)
