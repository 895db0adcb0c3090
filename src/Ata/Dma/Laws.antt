-- ===== src/Ata/Dma/Laws.antt =====
-- What the controller does with a descriptor, and which mode is chosen.
use mathlib.Core.Option.{some-injective, none-ne-some}
use efes_os.Base.{
  ℕ, ◌+◌, ◌-◌, ◌/◌, ◌%◌, ◌≤◌, ◌≡◌, ◌↔◌, refl, true, not, Option, none, some, ◌==◌, ◌||◌, ltb,
  if◌then◌else◌, if_each, arith, bit_and, is_some, subst,
}
use efes_os.Base.Words.{bit_and-mask}
use efes_os.Ata.Dma.{Prd, prepare_prd}

-- The length that a controller takes a count for: 0 stands for 64 KiB.
pub transfer_length : Prd → ℕ
transfer_length prd = if prd.byte_count == 0 then 0x1_0000 else prd.byte_count

low_two : (n : ℕ) → bit_and n 3 ≡ n % 4
low_two n = bit_and-mask 2 n

low_word : (n : ℕ) → bit_and n 0xFFFF ≡ n % 0x1_0000
low_word n = bit_and-mask 16 n

-- A descriptor is prepared exactly for an aligned region of 1 to 65536 bytes that stays inside one
-- 64 KiB page.
pub prepare_prd_iff :
    (prd : Prd) (physical_base byte_count : ℕ)
    → (is_some (prepare_prd (some prd) physical_base byte_count) ≡ true) ↔ (
        (physical_base % 4 ≡ 0)
        × (1 ≤ byte_count)
        × (physical_base / 0x1_0000 ≡ (physical_base + byte_count - 1) / 0x1_0000))
unfolding prepare_prd
prepare_prd_iff prd physical_base byte_count =
    rw (low_two physical_base, low_word physical_base)
      (if_each Decides
        (not (physical_base % 4 == 0) || (byte_count == 0) || ltb 0x1_0000 byte_count) none _
        (λ refused. (
          λ h. absurd (ground arith),
          λ f. absurd (
              let (a, b, c) = f in
              let le : byte_count ≤ 0x1_0000 = omega (arith, c) in ground arith),
        ))
        (λ allowed.
          if_each Decides (ltb (0x1_0000 - physical_base % 0x1_0000) byte_count) none (some written)
            (λ refused. (
              λ h. absurd (ground arith),
              λ f. absurd (
                  let (a, b, c) = f in
                  let le : byte_count ≤ 0x1_0000 - physical_base % 0x1_0000 = omega arith in
                  ground arith),
            ))
            (λ fits.
              let le : byte_count ≤ 0x1_0000 - physical_base % 0x1_0000 = ground arith in
              let pos : 1 ≤ byte_count = ground arith in
              (λ h. (ground arith, pos, omega (arith, le, pos)), λ f. refl))))
  where
    written : Prd
    written = record {
      physical_base = physical_base;
      byte_count = if byte_count == 0x1_0000 then 0 else byte_count % 0x1_0000;
      flags = 0x8000;
    }

    Decides : Option Prd → Type 0
    Decides o = (is_some o ≡ true) ↔ (
        (physical_base % 4 ≡ 0)
        × (1 ≤ byte_count)
        × (physical_base / 0x1_0000 ≡ (physical_base + byte_count - 1) / 0x1_0000))

-- The controller transfers the length asked for, from the base asked for.
pub prepare_prd_lem :
    (prd : Prd) (physical_base byte_count : ℕ) (prepared : Prd)
    → prepare_prd (some prd) physical_base byte_count ≡ some prepared
    → (prepared.physical_base ≡ physical_base) × (transfer_length prepared ≡ byte_count)
unfolding prepare_prd transfer_length
prepare_prd_lem prd physical_base byte_count prepared =
    if_each Means
      (not (bit_and physical_base 3 == 0) || (byte_count == 0) || ltb 0x1_0000 byte_count) none _
      (λ refused e. absurd (none-ne-some prepared e))
      (λ allowed.
        if_each Means (ltb (0x1_0000 - bit_and physical_base 0xFFFF) byte_count) none (some written)
          (λ refused e. absurd (none-ne-some prepared e))
          (λ fits e.
            subst (λ p. (p.physical_base ≡ physical_base) × (transfer_length p ≡ byte_count))
              (some-injective written prepared e) (refl, length_lem (ground arith) (ground arith))))
  where
    written : Prd
    written = record {
      physical_base = physical_base;
      byte_count = if byte_count == 0x1_0000 then 0 else byte_count % 0x1_0000;
      flags = 0x8000;
    }

    Means : Option Prd → Type 0
    Means o =
        o ≡ some prepared
        → (prepared.physical_base ≡ physical_base) × (transfer_length prepared ≡ byte_count)

    length_lem : 1 ≤ byte_count → byte_count ≤ 0x1_0000 → transfer_length written ≡ byte_count
    length_lem low high = ground arith
