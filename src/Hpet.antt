-- ===== src/Hpet.antt =====
-- drivers/hpet_time.c: 64-bit division and multiplication without library calls, the conversion of
-- ticks to nanoseconds, and the extension of a 32-bit counter. A pointer that may be null is an
-- `Option`.
pub mod Divide
pub mod Multiply
pub mod Convert
mod Tests
use efes_os.Base.{
  ℕ, zero, suc, ◌+◌, ◌-◌, ◌*◌, ◌/◌, ◌%◌, ◌^◌, Bool, true, false, not, ◌&&◌, ◌||◌, Option, none,
  some, bit_and, bit_or, ◌==◌, ltb, leb, if◌then◌else◌,
}
use efes_os.Base.Words.{add32}

-- HPET_U64_MAX
abbrev pub u64_max : ℕ
u64_max = 0xFFFF_FFFF_FFFF_FFFF

abbrev pub femtoseconds_per_nanosecond : ℕ
femtoseconds_per_nanosecond = 1000000

abbrev pub max_period_femtoseconds : ℕ
max_period_femtoseconds = 100000000

-- The loop of `divide_u64_u32` with `bit` rounds left: the quotient and the rest so far.
pub divide_from : ℕ → ℕ → ℕ → ℕ → ℕ → ℕ × ℕ
divide_from zero value divisor quotient rest = (quotient, rest)
divide_from (suc bit) value divisor quotient rest =
    let shifted = bit_or (rest * 2 % 0x1_0000_0000) (bit_and (value / 2 ^ bit) 1) in
    divide_from bit value divisor
      (if leb divisor shifted then bit_or quotient (2 ^ bit) else quotient)
      (if leb divisor shifted then shifted - divisor else shifted)

pub divide_u64_u32 : ℕ → ℕ → ℕ × ℕ
divide_u64_u32 value divisor = divide_from 64 value divisor 0 0

-- The loop of `saturating_multiply_u32`; a factor of `fuel` bits needs `fuel` rounds.
pub multiply_from : ℕ → ℕ → ℕ → ℕ → ℕ
multiply_from zero result value factor = result
multiply_from (suc fuel) result value factor =
    let odd = not (bit_and factor 1 == 0) in
    let sum = if odd then result + value else result in
    let next = factor / 2 in
    let rest = multiply_from fuel sum (value + value) next in
    if factor == 0
    then result
    else if odd && ltb (u64_max - value) result
    then u64_max
    else if next == 0
    then sum
    else if ltb (u64_max - value) value
    then u64_max
    else rest

pub saturating_multiply_u32 : ℕ → ℕ → ℕ
saturating_multiply_u32 value factor = multiply_from 32 0 value factor

pub ticks_to_nanoseconds : ℕ → ℕ → ℕ
ticks_to_nanoseconds ticks period_femtoseconds =
    let (whole_ticks, remainder) = divide_u64_u32 ticks femtoseconds_per_nanosecond in
    let whole_nanoseconds = saturating_multiply_u32 whole_ticks period_femtoseconds in
    let fractional_femtoseconds = saturating_multiply_u32 remainder period_femtoseconds in
    let fractional_nanoseconds =
      (divide_u64_u32 fractional_femtoseconds femtoseconds_per_nanosecond).0 in
    if period_femtoseconds == 0 || ltb max_period_femtoseconds period_femtoseconds
    then u64_max
    else if ltb (u64_max - fractional_nanoseconds) whole_nanoseconds
    then u64_max
    else whole_nanoseconds + fractional_nanoseconds

-- The two words behind the pointers of `hpet_extend_counter32`.
pub record Counter : Type 0 where
  pub last_low : ℕ
  pub wrap_count : ℕ

-- The result is 0 and nothing is written where a pointer is null (`none`).
pub extend_counter32 : ℕ → Option Counter → ℕ × Option Counter
extend_counter32 low none = (0, none)
extend_counter32 low (some c) =
    let wraps = if ltb low c.last_low then add32 c.wrap_count 1 else c.wrap_count in
    (bit_or (wraps * 0x1_0000_0000) low, some (record { last_low = low; wrap_count = wraps }))
