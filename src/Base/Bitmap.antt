-- ===== src/Base/Bitmap.antt =====
-- Bitmaps in arrays of 32-bit words: `map[block / 32U]` and `1U << (block % 32U)`.
use efes_os.Base.Tests.{◌==◌}
use efes_os.Base.Arrays.{update}
use efes_os.Base.Bits.{
  bit, bit_and-pow, bit-bit_or, bit-bit_and, bit-pow, bit-complement, bit-le-one, bit-zero,
  complement, pow-pos,
}
use Prim.Native.Nat.{ℕ, zero, suc, ◌*◌, ◌/◌, ◌%◌, ◌^◌, ◌≤◌, ◌<◌, bit_and, bit_or}
use mathlib.Core.Path.{◌≡◌, refl}
use mathlib.Core.Bool.{Bool, true, false, not, ◌&&◌, ◌||◌}
use native.Mathlib.Omega.{arith}
use native.Mathlib.Nat.{pow-le-pow_right}

-- (word & (1U << k)) != 0U
unfoldable pub test_bit : ℕ → ℕ → Bool
test_bit w k = not (bit_and w (2 ^ k) == 0)

-- word | (1U << k), and word & ~(1U << k)
unfoldable pub set_bit : ℕ → ℕ → ℕ
set_bit w k = bit_or w (2 ^ k)

unfoldable pub clear_bit : ℕ → ℕ → ℕ
clear_bit w k = bit_and w (complement 32 (2 ^ k))

scaled_bit : (b p : ℕ) → b ≤ 1 → 0 < p → not (b * p == 0) ≡ (b == 1)
scaled_bit zero p hb hp = ground arith
scaled_bit (suc zero) p hb hp = ground arith
scaled_bit (suc (suc b)) p hb hp = absurd (omega arith)

pub test_bit-bit : (w k : ℕ) → test_bit w k ≡ (bit w k == 1)
unfolding test_bit
test_bit-bit w k = rw (bit_and-pow w k) (scaled_bit (bit w k) (2 ^ k) (bit-le-one w k) (pow-pos k))

pub test_bit-set_bit : (w j k : ℕ) → test_bit (set_bit w j) k ≡ (j == k) || test_bit w k
unfolding set_bit
test_bit-set_bit w j k =
    rw (test_bit-bit, test_bit-bit, bit-bit_or, bit-pow) (ground (arith, bit-le-one w k))

pub test_bit-clear_bit :
    (w j k : ℕ) → j < 32 → k < 32 → test_bit (clear_bit w j) k ≡ not (j == k) && test_bit w k
unfolding clear_bit
test_bit-clear_bit w j k hj hk =
    rw
      (
        test_bit-bit (bit_and w (complement 32 (2 ^ j))) k,
        test_bit-bit w k,
        bit-bit_and w (complement 32 (2 ^ j)) k,
        bit-complement 32 (2 ^ j) k below hk,
        bit-pow j k,
      )
      (ground (arith, bit-le-one w k))
  where
    below : 2 ^ j < 2 ^ 32
    below = omega (arith, pow-le-pow_right {n = 2} (omega arith) {i = j} {j = 31} (omega arith))

-- The bit of `block` in a bitmap, and the two ways to change it.
unfoldable pub has_bit : (ℕ → ℕ) → ℕ → Bool
has_bit map block = test_bit (map (block / 32)) (block % 32)

unfoldable pub raise_bit : (ℕ → ℕ) → ℕ → ℕ → ℕ
raise_bit map block = update map (block / 32) (set_bit (map (block / 32)) (block % 32))

unfoldable pub lower_bit : (ℕ → ℕ) → ℕ → ℕ → ℕ
lower_bit map block = update map (block / 32) (clear_bit (map (block / 32)) (block % 32))

pub has_bit-raise_bit :
    (map : ℕ → ℕ) (a b : ℕ) → has_bit (raise_bit map a) b ≡ (a == b) || has_bit map b
unfolding has_bit raise_bit
has_bit-raise_bit map a b = ground (arith, test_bit-set_bit (map (a / 32)) (a % 32) (b % 32))

pub has_bit-lower_bit :
    (map : ℕ → ℕ) (a b : ℕ) → has_bit (lower_bit map a) b ≡ not (a == b) && has_bit map b
unfolding has_bit lower_bit
has_bit-lower_bit map a b =
    ground (arith, test_bit-clear_bit (map (a / 32)) (a % 32) (b % 32) (omega arith) (omega arith))

pub has_bit-zero : (b : ℕ) → has_bit (λ word. 0) b ≡ false
unfolding has_bit
has_bit-zero b = rw (test_bit-bit 0 (b % 32), bit-zero (b % 32)) refl

pub has_bit-ones : (b : ℕ) → has_bit (λ word. 0xFFFFFFFF) b ≡ true
unfolding has_bit
has_bit-ones b =
    rw (test_bit-bit 0xFFFFFFFF (b % 32))
      (ground (arith, bit-complement 32 0 (b % 32) (omega arith) (omega arith), bit-zero (b % 32)))
