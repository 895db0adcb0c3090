-- ===== src/Hpet/Multiply.antt =====
-- `saturating_multiply_u32` is multiplication up to the largest 64-bit number.
use native.Mathlib.Nat.{pow-suc}
use native.Mathlib.Decide.{dec_lt}
use efes_os.Base.{
  ℕ, zero, suc, ◌+◌, ◌-◌, ◌*◌, ◌/◌, ◌%◌, ◌^◌, ◌≤◌, ◌<◌, ◌≡◌, ap, sym, ◌∙◌, false, arith, ◌==◌, ltb,
  ltb→lt, if_each, ==_iff, min,
}
use efes_os.Base.Bits.{bit_and-one}
use efes_os.Hpet.{u64_max, multiply_from, saturating_multiply_u32}

-- A product in terms of half of the factor.
even_product : (value factor : ℕ) → factor % 2 ≡ 0 → value * factor ≡ (value + value) * (factor / 2)
even_product value factor even =
    let e : factor ≡ factor / 2 * 2 = omega arith in ap (λ f. value * f) e ∙ grind arith

odd_product :
    (value factor : ℕ) → factor % 2 ≡ 1 → value * factor ≡ (value + value) * (factor / 2) + value
odd_product value factor odd =
    let e : factor ≡ factor / 2 * 2 + 1 = omega arith in ap (λ f. value * f) e ∙ grind arith

product-zero : (value factor : ℕ) → factor ≡ 0 → value * factor ≡ 0
product-zero value factor e = rw e (omega arith)

product-le : (value factor : ℕ) → 0 < factor → value ≤ value * factor
product-le value zero pos = absurd (omega arith)
product-le value (suc factor) pos =
    let e : value * suc factor ≡ value + value * factor = grind arith in omega (arith, e)

multiply_from_lem :
    (fuel result value factor : ℕ)
    → factor < 2 ^ fuel
    → result ≤ u64_max
    → value ≤ u64_max
    → multiply_from fuel result value factor ≡ min (result + value * factor) u64_max
unfolding multiply_from
multiply_from_lem zero result value factor small r v =
    let e : factor ≡ 0 = omega arith in rw e (ground arith)
multiply_from_lem (suc fuel) result value factor small r v =
    rw (bit_and-one factor) (elim (dec_lt (factor % 2) 1) [
      | yes even ↦
          let e : factor % 2 ≡ 0 = omega arith in
          rw e (
            if_each Good (factor == 0) _ _
              (λ h. omega (arith, product-zero value factor ((==_iff factor 0).0 h)))
              (λ h.
                if_each Good (factor / 2 == 0) _ _ (λ h2. absurd (ground arith))
                  (λ h2.
                    if_each Good (ltb (u64_max - value) value) _ _
                      (λ h3. omega (
                        arith,
                        ltb→lt (u64_max - value) value h3,
                        even_product value factor e,
                        twice_le (ground arith),
                      ))
                      (λ h3.
                        multiply_from_lem fuel result (value + value) (factor / 2) next_small r
                          (ground arith)
                        ∙ ap (λ n. min (result + n) u64_max) (sym (even_product value factor e))))))
      | no odd ↦
          let e : factor % 2 ≡ 1 = omega arith in
          rw e (
            if_each Good (factor == 0) _ _ (λ h. absurd (ground arith))
              (λ h.
                if_each Good (ltb (u64_max - value) result) _ _
                  (λ h2.
                    omega (arith, ltb→lt (u64_max - value) result h2, odd_product value factor e))
                  (λ h2.
                    if_each Good (factor / 2 == 0) _ _
                      (λ h3. omega (
                        arith,
                        odd_product value factor e,
                        product-zero (value + value) (factor / 2) ((==_iff (factor / 2) 0).0 h3),
                        fits h2,
                      ))
                      (λ h3.
                        if_each Good (ltb (u64_max - value) value) _ _
                          (λ h4. omega (
                            arith,
                            ltb→lt (u64_max - value) value h4,
                            odd_product value factor e,
                            twice_le (ground arith),
                          ))
                          (λ h4.
                            multiply_from_lem fuel (result + value) (value + value) (factor / 2)
                              next_small (ground arith) (ground arith)
                            ∙ ap (λ n. min n u64_max)
                                (omega (arith, odd_product value factor e)))))))
    ])
  where
    Good : ℕ → Type 0
    Good x = x ≡ min (result + value * factor) u64_max

    next_small : factor / 2 < 2 ^ fuel
    next_small = omega (arith, pow-suc 2 fuel)

    fits : ltb (u64_max - value) result ≡ false → result + value ≤ u64_max
    fits h = ground arith

    twice_le : 0 < factor / 2 → value + value ≤ (value + value) * (factor / 2)
    twice_le pos = product-le (value + value) (factor / 2) pos

-- The product up to the largest 64-bit number, for a 32-bit factor.
pub saturating_multiply_u32_lem :
    (value factor : ℕ)
    → value ≤ u64_max
    → factor < 0x1_0000_0000
    → saturating_multiply_u32 value factor ≡ min (value * factor) u64_max
unfolding saturating_multiply_u32
saturating_multiply_u32_lem value factor v f =
    multiply_from_lem 32 0 value factor f (omega arith) v ∙ ap (λ n. min n u64_max) (omega arith)
