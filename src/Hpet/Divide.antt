-- ===== src/Hpet/Divide.antt =====
-- `divide_u64_u32` is division with remainder.
use native.Mathlib.Nat.{
  pow-suc, mod-lt, mod-eq_of_lt, div-eq_of_lt, mul-add-mod_self_left, mul-add-div, div-add-mod,
  mul_comm,
}
use native.Mathlib.Decide.{dec_lt}
use efes_os.Base.{
  ℕ, zero, suc, ◌+◌, ◌-◌, ◌*◌, ◌/◌, ◌%◌, ◌^◌, ◌≤◌, ◌<◌, ◌≡◌, ap, ◌∙◌, bit_and, bit_or, arith, leb,
  Bool-cases, inl, inr, leb→le,
}
use efes_os.Base.Bits.{bit_and-one, pow-pos}
use efes_os.Base.Words.{bit_or-disjoint}
use efes_os.Hpet.{divide_from, divide_u64_u32}

-- The `k + 1` low bits of a value are its bit `k` before the `k` bits below.
low-split : (k v : ℕ) → v % 2 ^ suc k ≡ v / 2 ^ k % 2 * 2 ^ k + v % 2 ^ k
low-split k v =
    ap (λ n. n % 2 ^ suc k) whole
    ∙ mul-add-mod_self_left (2 ^ suc k) (v / 2 ^ k / 2) part
    ∙ mod-eq_of_lt below
  where
    part : ℕ
    part = v / 2 ^ k % 2 * 2 ^ k + v % 2 ^ k

    digit-lt : v / 2 ^ k % 2 * 2 ^ k ≤ 2 ^ k
    digit-lt = elim (dec_lt (v / 2 ^ k % 2) 1) [
      | yes h ↦ let e : v / 2 ^ k % 2 ≡ 0 = omega arith in rw e (omega arith)
      | no h ↦ let e : v / 2 ^ k % 2 ≡ 1 = omega arith in rw e (omega arith)
    ]

    below : part < 2 ^ suc k
    below = omega (arith, pow-suc 2 k, digit-lt, mod-lt v (pow-pos k))

    halves : v / 2 ^ k * 2 ^ k ≡ v / 2 ^ k / 2 * 2 * 2 ^ k + v / 2 ^ k % 2 * 2 ^ k
    halves =
        let e : v / 2 ^ k ≡ v / 2 ^ k / 2 * 2 + v / 2 ^ k % 2 = omega arith in
        ap (λ q. q * 2 ^ k) e ∙ grind arith

    whole : v ≡ 2 ^ suc k * (v / 2 ^ k / 2) + part
    whole = rw (pow-suc 2 k) (omega (arith, halves, shuffle, div-add-mod v (2 ^ k), comm))
      where
        comm : 2 ^ k * (v / 2 ^ k) ≡ v / 2 ^ k * 2 ^ k
        comm = mul_comm (2 ^ k) (v / 2 ^ k)

        shuffle : 2 ^ k * 2 * (v / 2 ^ k / 2) ≡ v / 2 ^ k / 2 * 2 * 2 ^ k
        shuffle = grind arith

-- One round shifts the next bit in; `rest * 2` does not overflow.
shifted_lem :
    (k value d rest : ℕ)
    → d ≤ 0x8000_0000
    → rest < d
    → bit_or (rest * 2 % 0x1_0000_0000) (bit_and (value / 2 ^ k) 1) ≡ rest * 2 + value / 2 ^ k % 2
shifted_lem k value d rest small lt =
    let e : rest * 2 % 0x1_0000_0000 ≡ rest * 2 ^ 1 = omega arith in
    rw (e, bit_and-one (value / 2 ^ k))
      (bit_or-disjoint 1 rest (value / 2 ^ k % 2) (omega arith) ∙ omega arith)

-- What is still to be divided, when the next bit has been shifted in.
shifted-rest :
    (k value rest : ℕ)
    → rest * 2 ^ suc k + value % 2 ^ suc k ≡ (rest * 2 + value / 2 ^ k % 2) * 2 ^ k + value % 2 ^ k
shifted-rest k value rest = rw (low-split k value, pow-suc 2 k) (grind arith)

set-digit : (k high : ℕ) → bit_or (high * 2 ^ suc k) (2 ^ k) ≡ (high * 2 + 1) * 2 ^ k
set-digit k high =
    bit_or-disjoint (suc k) high (2 ^ k) (omega (arith, pow-suc 2 k, pow-pos k))
    ∙ rw (pow-suc 2 k) (grind arith)

divide_from_lem :
    (k value d high rest : ℕ)
    → 0 < d
    → d ≤ 0x8000_0000
    → rest < d
    → divide_from k value d (high * 2 ^ k) rest
      ≡ (high * 2 ^ k + (rest * 2 ^ k + value % 2 ^ k) / d, (rest * 2 ^ k + value % 2 ^ k) % d)
unfolding divide_from
divide_from_lem zero value d high rest pos small lt =
    let e : rest * 1 + value % 1 ≡ rest = omega arith in
    rw (e, div-eq_of_lt lt, mod-eq_of_lt lt) (ap (λ q. (q, rest)) (omega arith))
divide_from_lem (suc k) value d high rest pos small lt =
    rw (shifted_lem k value d rest small lt, shifted-rest k value rest)
      (elim (Bool-cases (leb d shifted)) [
        | inl taken ↦
            let h : d ≤ shifted = leb→le d shifted taken in
            rw (taken, set-digit k high)
              (divide_from_lem k value d (high * 2 + 1) (shifted - d) pos small (omega arith)
                ∙ rw
                    (
                      split h,
                      mul-add-div pos (2 ^ k) ((shifted - d) * 2 ^ k + value % 2 ^ k),
                      mul-add-mod_self_left d (2 ^ k) ((shifted - d) * 2 ^ k + value % 2 ^ k),
                      pow-suc 2 k,
                    )
                    (ap (λ q. (q, ((shifted - d) * 2 ^ k + value % 2 ^ k) % d)) (grind arith)))
        | inr kept ↦
            rw (kept, twice) (divide_from_lem k value d (high * 2) shifted pos small (ground arith))
      ])
  where
    shifted : ℕ
    shifted = rest * 2 + value / 2 ^ k % 2

    twice : high * 2 ^ suc k ≡ high * 2 * 2 ^ k
    twice = rw (pow-suc 2 k) (grind arith)

    split :
        d ≤ shifted
        → shifted * 2 ^ k + value % 2 ^ k ≡ d * 2 ^ k + ((shifted - d) * 2 ^ k + value % 2 ^ k)
    split h =
        let e : shifted ≡ d + (shifted - d) = omega arith in
        ap (λ q. q * 2 ^ k + value % 2 ^ k) e ∙ grind arith

-- For a divisor that 31 bits hold, the 64 rounds are division with remainder.
pub divide_u64_u32_lem :
    (value d : ℕ)
    → value ≤ 0xFFFF_FFFF_FFFF_FFFF
    → 0 < d
    → d ≤ 0x8000_0000
    → divide_u64_u32 value d ≡ (value / d, value % d)
unfolding divide_u64_u32
divide_u64_u32_lem value d h pos small =
    divide_from_lem 64 value d 0 0 pos small pos ∙ rw whole (ap (λ q. (q, value % d)) (omega arith))
  where
    whole : 0 * 2 ^ 64 + value % 2 ^ 64 ≡ value
    whole = omega arith
