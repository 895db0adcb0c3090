-- ===== src/Base/Words.antt =====
-- C's unsigned arithmetic, with its wrap-around.
use Prim.Native.Nat.{ℕ, zero, suc, ◌+◌, ◌-◌, ◌*◌, ◌/◌, ◌%◌, ◌^◌, ◌≤◌, ◌<◌, bit_or, bit_and}
use mathlib.Core.Path.{◌≡◌, refl, ap, ◌∙◌}
use native.Mathlib.Omega.{arith}
use native.Mathlib.Nat.{pow-suc, mod-eq_of_lt, mod-lt, mul-add-mod_self_left, div-add-mod}
use efes_os.Base.Bits.{bit_or_step, bit_and_step, bit_and-zero, pow-pos}

abbrev pub add32 : ℕ → ℕ → ℕ
add32 a b = (a + b) % 0x1_0000_0000

abbrev pub sub32 : ℕ → ℕ → ℕ
sub32 a b = (a + 0x1_0000_0000 - b) % 0x1_0000_0000

abbrev pub add64 : ℕ → ℕ → ℕ
add64 a b = (a + b) % 0x1_0000_0000_0000_0000

bit_or-zero_fuel : (n a : ℕ) → a ≤ n → bit_or a 0 ≡ a
bit_or-zero_fuel n zero h = refl
bit_or-zero_fuel zero (suc a) h = absurd (omega arith)
bit_or-zero_fuel (suc n) (suc a) h =
    omega (arith, bit_or_step (suc a) 0, bit_or-zero_fuel n (suc a / 2) (omega arith))

pub bit_or-zero : (a : ℕ) → bit_or a 0 ≡ a
bit_or-zero a = bit_or-zero_fuel a a (omega arith)

-- `(high << k) | low` is a sum where `low` has `k` bits.
pub bit_or-disjoint :
    (k high low : ℕ) → low < 2 ^ k → bit_or (high * 2 ^ k) low ≡ high * 2 ^ k + low
bit_or-disjoint zero high zero h = bit_or-zero (high * 2 ^ 0) ∙ omega arith
bit_or-disjoint zero high (suc low) h = absurd (omega arith)
bit_or-disjoint (suc k) high low h = omega (
  arith,
  bit_or_step (high * 2 ^ suc k) low,
  halved,
  bit_or-disjoint k high (low / 2) (omega (arith, pow-suc 2 k)),
  ap_halved,
)
  where
    halved : high * 2 ^ suc k ≡ high * 2 ^ k * 2
    halved = rw (pow-suc 2 k) (grind arith)

    ap_halved : bit_or (high * 2 ^ suc k / 2) (low / 2) ≡ bit_or (high * 2 ^ k) (low / 2)
    ap_halved = let e : high * 2 ^ suc k / 2 ≡ high * 2 ^ k = omega (arith, halved) in rw e

bit_or_comm_fuel : (n a b : ℕ) → a ≤ n → b ≤ n → bit_or a b ≡ bit_or b a
bit_or_comm_fuel zero a b ha hb = let e : a ≡ b = omega arith in rw e refl
bit_or_comm_fuel (suc n) a b ha hb = omega (
  arith,
  bit_or_step a b,
  bit_or_step b a,
  bit_or_comm_fuel n (a / 2) (b / 2) (omega arith) (omega arith),
)

-- A low part below `2 ^ k` and a shifted high part.
pub bit_or-low : (k high low : ℕ) → low < 2 ^ k → bit_or low (high * 2 ^ k) ≡ high * 2 ^ k + low
bit_or-low k high low h =
    bit_or_comm_fuel (low + high * 2 ^ k) low (high * 2 ^ k) (omega arith) (omega arith)
    ∙ bit_or-disjoint k high low h

-- The lowest digit comes first in a remainder by a power of two.
low-digit : (k a : ℕ) → a % 2 ^ suc k ≡ a / 2 % 2 ^ k * 2 + a % 2
low-digit k a =
    ap (λ n. n % 2 ^ suc k) whole
    ∙ mul-add-mod_self_left (2 ^ suc k) (a / 2 / 2 ^ k) (a / 2 % 2 ^ k * 2 + a % 2)
    ∙ mod-eq_of_lt (omega (arith, pow-suc 2 k, mod-lt (a / 2) (pow-pos k)))
  where
    shuffle : 2 ^ k * 2 * (a / 2 / 2 ^ k) ≡ 2 ^ k * (a / 2 / 2 ^ k) * 2
    shuffle = grind arith

    whole : a ≡ 2 ^ suc k * (a / 2 / 2 ^ k) + (a / 2 % 2 ^ k * 2 + a % 2)
    whole = rw (pow-suc 2 k) (omega (arith, shuffle, div-add-mod (a / 2) (2 ^ k)))

-- A mask of `k` ones keeps the `k` low bits.
pub bit_and-mask : (k a : ℕ) → bit_and a (2 ^ k - 1) ≡ a % 2 ^ k
bit_and-mask zero a = bit_and-zero a ∙ omega arith
bit_and-mask (suc k) a =
    let half : (2 ^ suc k - 1) / 2 ≡ 2 ^ k - 1 = omega (arith, pow-suc 2 k, pow-pos k) in
    let odd : (2 ^ suc k - 1) % 2 ≡ 1 = omega (arith, pow-suc 2 k, pow-pos k) in
    let tail : bit_and (a / 2) ((2 ^ suc k - 1) / 2) ≡ a / 2 % 2 ^ k =
      rw half (bit_and-mask k (a / 2)) in
    omega (arith, bit_and_step a (2 ^ suc k - 1), odd, tail, low-digit k a)

abbrev pub mul32 : ℕ → ℕ → ℕ
mul32 a b = a * b % 0x1_0000_0000
