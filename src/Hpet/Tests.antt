-- ===== src/Hpet/Tests.antt =====
-- Conversions and counter readings at concrete values.
use efes_os.Base.{◌≡◌, refl, arith}
use efes_os.Hpet.{divide_u64_u32, saturating_multiply_u32, ticks_to_nanoseconds, Counter, u64_max}
use efes_os.Hpet.Divide.{divide_u64_u32_lem}
use efes_os.Hpet.Convert.{ticks_to_nanoseconds_lem}

divide_u64_u32_lem_example : divide_u64_u32 100000 7 ≡ (14285, 5)
divide_u64_u32_lem_example = divide_u64_u32_lem 100000 7 (omega arith) (omega arith) (omega arith)

ticks_to_nanoseconds_lem_example : ticks_to_nanoseconds 1000 69841279 ≡ 69841
ticks_to_nanoseconds_lem_example =
    ticks_to_nanoseconds_lem 1000 69841279 (omega arith) (omega arith) (omega arith)

-- The counter has wrapped three times and wraps again.
abbrev three_wraps : Counter
three_wraps = record { last_low = 0xFFFF_FFF0; wrap_count = 3 }

-- A period of zero saturates.
no_period : ticks_to_nanoseconds 5 0 ≡ u64_max
unfolding ticks_to_nanoseconds divide_u64_u32 saturating_multiply_u32
no_period = refl
