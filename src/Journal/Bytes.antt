-- ===== src/Journal/Bytes.antt =====
-- Little-endian fields, and what the checksum depends on.
use efes_os.Base.{
  ℕ, zero, suc, ◌+◌, ◌*◌, ◌/◌, ◌%◌, ◌^◌, ◌<◌, ◌≤◌, ◌≡◌, refl, ap, ◌∙◌, true, bit_and, bit_or,
  bit_xor, arith,
}
use efes_os.Base.Words.{bit_and-mask, bit_or-low}
use efes_os.Journal.{Sector, crc32_update, crc_bits, all_zero}

low_byte : (a : ℕ) → bit_and a 0xFF ≡ a % 0x100
low_byte a = bit_and-mask 8 a

low_half : (a : ℕ) → bit_and a 0xFFFF ≡ a % 0x1_0000
low_half a = bit_and-mask 16 a

-- Two bytes hold a 16-bit number.
pub u16_bytes :
    (v : ℕ) → v < 0x1_0000 → bit_or (bit_and v 0xFF) (bit_and (v / 2 ^ 8) 0xFF * 2 ^ 8) ≡ v
u16_bytes v h =
    rw (low_byte v, low_byte (v / 2 ^ 8))
      (bit_or-low 8 (v / 2 ^ 8 % 0x100) (v % 0x100) (omega arith) ∙ omega arith)

-- Four bytes hold a 32-bit number.
pub u32_bytes :
    (v : ℕ)
    → v < 0x1_0000_0000
    → bit_or
        (bit_or
          (bit_or
            (bit_and (bit_and v 0xFFFF) 0xFF)
            (bit_and (bit_and v 0xFFFF / 2 ^ 8) 0xFF * 2 ^ 8))
          (bit_and (v / 2 ^ 16) 0xFF * 2 ^ 16))
        (bit_and (v / 2 ^ 16 / 2 ^ 8) 0xFF * 2 ^ 24)
      ≡ v
u32_bytes v h =
    let low : bit_and v 0xFFFF < 0x1_0000 = omega (arith, low_half v) in
    rw
      (
        u16_bytes (bit_and v 0xFFFF) low,
        low_half v,
        low_byte (v / 2 ^ 16),
        low_byte (v / 2 ^ 16 / 2 ^ 8),
      )
      (ap (λ n. bit_or n (v / 2 ^ 16 / 2 ^ 8 % 0x100 * 2 ^ 24))
          (bit_or-low 16 (v / 2 ^ 16 % 0x100) (v % 0x1_0000) (omega arith))
        ∙ bit_or-low 24 (v / 2 ^ 16 / 2 ^ 8 % 0x100) (v / 2 ^ 16 % 0x100 * 2 ^ 16 + v % 0x1_0000)
            (omega arith)
        ∙ omega arith)

-- The checksum depends on the bytes it covers alone.
pub crc32_update-cong :
    (crc : ℕ) (s t : Sector) (offset length : ℕ)
    → ((i : ℕ) → offset ≤ i → i < offset + length → s i ≡ t i)
    → crc32_update crc s offset length ≡ crc32_update crc t offset length
unfolding crc32_update
crc32_update-cong crc s t offset zero same = refl
crc32_update-cong crc s t offset (suc length) same =
    ap (λ b. crc32_update (crc_bits 8 (bit_xor crc b)) s (offset + 1) length)
      (same offset (omega arith) (omega arith))
    ∙ crc32_update-cong (crc_bits 8 (bit_xor crc (t offset))) s t (offset + 1) length
        (λ i low high. same i (omega arith) (omega arith))

pub all_zero_lem :
    (s : Sector) (index n : ℕ)
    → ((i : ℕ) → index ≤ i → i < index + n → s i ≡ 0)
    → all_zero s index n ≡ true
unfolding all_zero
all_zero_lem s index zero zeroes = refl
all_zero_lem s index (suc n) zeroes =
    let e : s index ≡ 0 = zeroes index (omega arith) (omega arith) in
    rw e (all_zero_lem s (index + 1) n (λ i low high. zeroes i (omega arith) (omega arith)))
