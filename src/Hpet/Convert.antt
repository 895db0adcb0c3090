-- ===== src/Hpet/Convert.antt =====
-- The conversion of ticks and the extension of the counter.
use native.Mathlib.Nat.{mul-add-div, mul-le-mul}
use efes_os.Base.{
  ℕ, ◌+◌, ◌-◌, ◌*◌, ◌/◌, ◌%◌, ◌≤◌, ◌<◌, ◌≡◌, ap, ◌∙◌, false, arith, ◌==◌, ltb, if◌then◌else◌, min,
  ◌||◌, if_each, ltb→lt, some,
}
use efes_os.Base.Words.{bit_or-disjoint, add32}
use efes_os.Hpet.{u64_max, saturating_multiply_u32, ticks_to_nanoseconds, extend_counter32, Counter}
use efes_os.Hpet.Divide.{divide_u64_u32_lem}
use efes_os.Hpet.Multiply.{saturating_multiply_u32_lem}

-- The whole part and the fraction add up to the quotient of the product.
scaled_split :
    (ticks period : ℕ)
    → ticks * period / 1000000 ≡ ticks / 1000000 * period + ticks % 1000000 * period / 1000000
scaled_split ticks period =
    let e : ticks ≡ ticks / 1000000 * 1000000 + ticks % 1000000 = omega arith in
    let f : ticks * period ≡ 1000000 * (ticks / 1000000 * period) + ticks % 1000000 * period =
      ap (λ t. t * period) e ∙ grind arith in
    rw f (mul-add-div (omega arith) (ticks / 1000000 * period) (ticks % 1000000 * period))

ltb-sum : (a b : ℕ) → a ≤ u64_max → ltb (u64_max - a) b ≡ false → b + a ≤ u64_max
ltb-sum a b le h = ground arith

-- A period the source accepts scales a tick count by the period in femtoseconds, rounded down to
-- nanoseconds, and the result stops at the largest 64-bit number.
pub ticks_to_nanoseconds_lem :
    (ticks period : ℕ)
    → ticks ≤ u64_max
    → 0 < period
    → period ≤ 100000000
    → ticks_to_nanoseconds ticks period ≡ min (ticks * period / 1000000) u64_max
unfolding ticks_to_nanoseconds
ticks_to_nanoseconds_lem ticks period t pos small =
    rw
      (
        divide_u64_u32_lem ticks 1000000 t (omega arith) (omega arith),
        saturating_multiply_u32_lem (ticks / 1000000) period (omega arith) (omega arith),
        fraction_lem,
        divide_u64_u32_lem part 1000000 (omega (arith, part_small)) (omega arith) (omega arith),
        scaled_split ticks period,
      )
      (if_each Good (period == 0 || ltb 100000000 period) _ _ (λ h. absurd (ground arith))
        (λ h2.
          if_each Good (ltb (u64_max - part / 1000000) (min (ticks / 1000000 * period) u64_max)) _ _
            (λ h3. omega (
              arith,
              ltb→lt (u64_max - part / 1000000) (min (ticks / 1000000 * period) u64_max) h3,
              part_small,
            ))
            (λ h3.
              let le : min (ticks / 1000000 * period) u64_max + part / 1000000 ≤ u64_max =
                fits h3 in
              omega (arith, le))))
  where
    part : ℕ
    part = ticks % 1000000 * period

    Good : ℕ → Type 0
    Good x = x ≡ min (ticks / 1000000 * period + part / 1000000) u64_max

    part_small : part ≤ 1000000 * 100000000
    part_small = let below : ticks % 1000000 ≤ 1000000 = omega arith in mul-le-mul below small

    fits :
        ltb (u64_max - part / 1000000) (min (ticks / 1000000 * period) u64_max) ≡ false
        → min (ticks / 1000000 * period) u64_max + part / 1000000 ≤ u64_max
    fits h =
        let small_part : part / 1000000 ≤ 100000000 = omega (arith, part_small) in
        ltb-sum (part / 1000000) (min (ticks / 1000000 * period) u64_max) (omega arith) h

    fraction_lem : saturating_multiply_u32 (ticks % 1000000) period ≡ part
    fraction_lem =
        saturating_multiply_u32_lem (ticks % 1000000) period (omega arith) (omega arith)
        ∙ omega (arith, part_small)

-- The true 64-bit count of a counter the source reads 32 bits of.
unfoldable pub count_of : Counter → ℕ
count_of c = c.wrap_count * 0x1_0000_0000 + c.last_low

-- Where the counter has moved on by less than one turn since the last reading, the extended reading is
-- the true count, and it is what the state stands for afterwards.
pub extend_counter32_lem :
    (c : Counter) (elapsed : ℕ)
    → c.last_low < 0x1_0000_0000
    → elapsed < 0x1_0000_0000
    → count_of c + elapsed ≤ u64_max
    → extend_counter32 ((c.last_low + elapsed) % 0x1_0000_0000) (some c) ≡ (
      count_of c + elapsed,
      some (record {
        last_low = (count_of c + elapsed) % 0x1_0000_0000;
        wrap_count = (count_of c + elapsed) / 0x1_0000_0000;
      }),
    )
unfolding count_of extend_counter32
extend_counter32_lem c elapsed l e fits =
    rw (wraps_lem, low_lem)
      (ap
        (λ v. (
          v,
          some (record { last_low = total % 0x1_0000_0000; wrap_count = total / 0x1_0000_0000 }),
        ))
        (bit_or-disjoint 32 (total / 0x1_0000_0000) (total % 0x1_0000_0000) (omega arith)
          ∙ omega arith))
  where
    total : ℕ
    total = c.wrap_count * 0x1_0000_0000 + c.last_low + elapsed

    low : ℕ
    low = (c.last_low + elapsed) % 0x1_0000_0000

    low_lem : low ≡ total % 0x1_0000_0000
    low_lem = omega arith

    wraps_lem :
        (if ltb low c.last_low then add32 c.wrap_count 1 else c.wrap_count) ≡ total / 0x1_0000_0000
    wraps_lem =
        if_each (λ w. w ≡ total / 0x1_0000_0000) (ltb low c.last_low) _ _
          (λ h. let lt : low < c.last_low = ltb→lt low c.last_low h in omega arith)
          (λ h. let ge : c.last_low ≤ low = ground arith in omega arith)
