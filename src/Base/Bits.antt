-- ===== src/Base/Bits.antt =====
-- Laws of the bit operations at variables, from the digit recursion of the native operations.
use Prim.Native.Nat.{
  ℕ, zero, suc, ◌+◌, ◌-◌, ◌*◌, ◌/◌, ◌%◌, ◌^◌, ◌≤◌, ◌<◌, min, max, bit_and, bit_or, digits,
  bit_and-bitwise, bit_or-bitwise,
}
use mathlib.Core.Path.{◌≡◌, refl, sym, ap, ◌∙◌}
use native.Mathlib.Omega.{arith}
use native.Mathlib.Nat.{pow-suc}
use efes_os.Base.Tests.{◌==◌, if◌then◌else◌}

-- Bit `k` of a word.
unfoldable pub bit : ℕ → ℕ → ℕ
bit w zero = w % 2
bit w (suc k) = bit (w / 2) k

-- The recursion behind the bit operations: `rest` where the first word has ended, `op` on digits.
module _ (rest : ℕ → ℕ) (op : ℕ → ℕ → ℕ) where
  digits-ended : (fuel b : ℕ) → digits rest op fuel 0 b ≡ rest b
  digits-ended zero b = refl
  digits-ended (suc fuel) b = refl

  digits-enough :
      (a b : ℕ) (fuel more : ℕ)
      → a ≤ min fuel more
      → digits rest op fuel a b ≡ digits rest op more a b
  digits-enough zero b fuel more h = digits-ended fuel b ∙ sym (digits-ended more b)
  digits-enough (suc a) b zero more h = absurd (omega arith)
  digits-enough (suc a) b (suc fuel) zero h = absurd (omega arith)
  digits-enough (suc a) b (suc fuel) (suc more) h =
      ap (λ high. high * 2 + op (suc a % 2) (b % 2))
        (digits-enough (suc a / 2) (b / 2) fuel more (omega arith))

  -- One digit of the recursion.
  digits-step :
      (a b : ℕ)
      → digits rest op (suc a) (suc a) b
        ≡ digits rest op (suc a / 2) (suc a / 2) (b / 2) * 2 + op (suc a % 2) (b % 2)
  digits-step a b =
      ap (λ high. high * 2 + op (suc a % 2) (b % 2))
        (digits-enough (suc a / 2) (b / 2) a (suc a / 2) (omega arith))

pub bit_and_step : (a b : ℕ) → bit_and a b ≡ bit_and (a / 2) (b / 2) * 2 + min (a % 2) (b % 2)
bit_and_step zero b = omega (arith, bit_and-bitwise 0 b, bit_and-bitwise 0 (b / 2))
bit_and_step (suc a) b =
    bit_and-bitwise (suc a) b
    ∙ digits-step (λ low. zero) min a b
    ∙ ap (λ high. high * 2 + min (suc a % 2) (b % 2)) (sym (bit_and-bitwise (suc a / 2) (b / 2)))

pub bit_or_step : (a b : ℕ) → bit_or a b ≡ bit_or (a / 2) (b / 2) * 2 + max (a % 2) (b % 2)
bit_or_step zero b = omega (arith, bit_or-bitwise 0 b, bit_or-bitwise 0 (b / 2))
bit_or_step (suc a) b =
    bit_or-bitwise (suc a) b
    ∙ digits-step (λ low. low) max a b
    ∙ ap (λ high. high * 2 + max (suc a % 2) (b % 2)) (sym (bit_or-bitwise (suc a / 2) (b / 2)))

pub bit-zero : (k : ℕ) → bit 0 k ≡ 0
unfolding bit
bit-zero zero = refl
bit-zero (suc k) = bit-zero k

pub bit-le-one : (w k : ℕ) → bit w k ≤ 1
unfolding bit
bit-le-one w zero = omega arith
bit-le-one w (suc k) = bit-le-one (w / 2) k

pub bit-bit_and : (a b k : ℕ) → bit (bit_and a b) k ≡ min (bit a k) (bit b k)
unfolding bit
bit-bit_and a b zero = omega (arith, bit_and_step a b)
bit-bit_and a b (suc k) =
    let half : bit_and a b / 2 ≡ bit_and (a / 2) (b / 2) = omega (arith, bit_and_step a b) in
    rw half (bit-bit_and (a / 2) (b / 2) k)

pub bit-bit_or : (a b k : ℕ) → bit (bit_or a b) k ≡ max (bit a k) (bit b k)
unfolding bit
bit-bit_or a b zero = omega (arith, bit_or_step a b)
bit-bit_or a b (suc k) =
    let half : bit_or a b / 2 ≡ bit_or (a / 2) (b / 2) = omega (arith, bit_or_step a b) in
    rw half (bit-bit_or (a / 2) (b / 2) k)

half-pow : (k : ℕ) → (2 ^ suc k / 2 ≡ 2 ^ k) × (2 ^ suc k % 2 ≡ 0)
half-pow k = (omega (arith, pow-suc 2 k), omega (arith, pow-suc 2 k))

pub pow-pos : (k : ℕ) → 0 < 2 ^ k
pow-pos zero = omega arith
pow-pos (suc k) = omega (arith, pow-suc 2 k, pow-pos k)

pub bit-pow : (j k : ℕ) → bit (2 ^ j) k ≡ (if j == k then 1 else 0)
unfolding bit
bit-pow zero zero = refl
bit-pow zero (suc k) = ground (arith, bit-zero k)
bit-pow (suc j) zero = ground (arith, half-pow j)
bit-pow (suc j) (suc k) = rw ((half-pow j).0) (ground (arith, bit-pow j k))

masked_digits : (fuel a : ℕ) → digits (λ low. zero) min fuel a 0 ≡ 0
masked_digits zero a = refl
masked_digits (suc fuel) zero = refl
masked_digits (suc fuel) (suc a) = omega (arith, masked_digits fuel (suc a / 2))

pub bit_and-zero : (a : ℕ) → bit_and a 0 ≡ 0
bit_and-zero a = bit_and-bitwise a 0 ∙ masked_digits a a

-- Masking a word by one bit leaves that bit in its place.
pub bit_and-pow : (w k : ℕ) → bit_and w (2 ^ k) ≡ bit w k * 2 ^ k
unfolding bit
bit_and-pow w zero = omega (arith, bit_and_step w 1, bit_and-zero (w / 2))
bit_and-pow w (suc k) =
    bit_and_step w (2 ^ suc k)
    ∙ rw ((half-pow k).0, (half-pow k).1)
        (omega (arith, bit_and-pow (w / 2) k, pow-suc 2 k, grouped))
  where
    grouped : bit (w / 2) k * 2 ^ suc k ≡ bit (w / 2) k * 2 ^ k * 2
    grouped = rw (pow-suc 2 k) (grind arith)

-- The complement of `x` in a word of `n` bits, C's `~x`.
abbrev pub complement : ℕ → ℕ → ℕ
complement n x = 2 ^ n - 1 - x

pub bit-complement : (n x k : ℕ) → x < 2 ^ n → k < n → bit (complement n x) k ≡ 1 - bit x k
unfolding bit
bit-complement zero x k hx hk = absurd (omega arith)
bit-complement (suc n) x zero hx hk = omega (arith, pow-suc 2 n)
bit-complement (suc n) x (suc k) hx hk =
    let half : (2 ^ suc n - 1 - x) / 2 ≡ 2 ^ n - 1 - x / 2 = omega (arith, pow-suc 2 n) in
    rw half (bit-complement n (x / 2) k (omega (arith, pow-suc 2 n)) (omega arith))

pub bit_and-one : (w : ℕ) → bit_and w 1 ≡ w % 2
unfolding bit
bit_and-one w = bit_and-pow w 0 ∙ omega arith
