-- ===== src/Journal/Superblock.antt =====
-- The superblock that is written can be read.
use efes_os.Base.{
  ℕ, ◌-◌, ◌<◌, ◌≤◌, ◌≡◌, refl, ap, true, false, not, ◌||◌, none, some, arith, ◌==◌, ltb,
  if◌then◌else◌, if_each, Bool-cases, inl, inr, ==_self, ◌>>=◌,
}
use efes_os.Journal.{
  Sector, read_u16, read_u32, write_u16, write_u32, superblock_crc, superblock_fields,
  superblock_encode, superblock_decode, all_zero,
}
use efes_os.Journal.Bytes.{u16_bytes, u32_bytes, crc32_update-cong, all_zero_lem}

-- The sector for a number of sectors and a checksum.
written : ℕ → ℕ → Sector
written n crc = write_u32 (write_u32 (superblock_fields n) 12 crc) 508 0xC0DE_17ED

written-crc : (n crc : ℕ) → superblock_crc (written n crc) ≡ superblock_crc (superblock_fields n)
unfolding superblock_crc written write_u32 write_u16
written-crc n crc =
    ap (λ c. 0xFFFF_FFFF - c)
      (crc32_update-cong 0xFFFF_FFFF (written n crc) (superblock_fields n) 0 12
        (λ i low high. ground arith))

written-zero : (n crc i : ℕ) → 16 ≤ i → i < 508 → written n crc i ≡ 0
unfolding written write_u32 write_u16 superblock_fields
written-zero n crc i low high = ground arith

written-fields :
    (n crc : ℕ)
    → n < 0x1_0000
    → crc < 0x1_0000_0000
    → (read_u32 (written n crc) 0 ≡ 0x314A_5346)
      × (read_u16 (written n crc) 4 ≡ 1)
      × (read_u32 (written n crc) 508 ≡ 0xC0DE_17ED)
      × (read_u16 (written n crc) 6 ≡ n)
      × (read_u32 (written n crc) 8 ≡ 0)
      × (read_u32 (written n crc) 12 ≡ crc)
unfolding written write_u32 write_u16 superblock_fields read_u16 read_u32
written-fields n crc hn hc = (refl, refl, refl, u16_bytes n hn, refl, u32_bytes crc hc)

superblock_crc-range : (s : Sector) → superblock_crc s < 0x1_0000_0000
unfolding superblock_crc
superblock_crc-range s = omega arith

read_back :
    (n : ℕ)
    → ((n == 0) || ltb 1024 n) ≡ false
    → superblock_decode (some (written n (superblock_crc (superblock_fields n)))) ≡ some n
unfolding superblock_decode
read_back n fits =
    let crc = superblock_crc (superblock_fields n) in
    let (magic, version, commit, count, reserved, stored) =
      written-fields n (superblock_crc (superblock_fields n)) (ground arith)
        (superblock_crc-range (superblock_fields n)) in
    let zeroes : all_zero (written n (superblock_crc (superblock_fields n))) 16 492 ≡ true =
      all_zero_lem (written n (superblock_crc (superblock_fields n))) 16 492
        (written-zero n (superblock_crc (superblock_fields n))) in
    let same : (superblock_crc (superblock_fields n) == superblock_crc (superblock_fields n))
        ≡ true =
      ==_self (superblock_crc (superblock_fields n)) in
    rw
      (
        magic,
        version,
        commit,
        count,
        reserved,
        stored,
        written-crc n (superblock_crc (superblock_fields n)),
        zeroes,
      )
      (if_each (λ o. o ≡ some n)
        ((n == 0)
          || ltb 1024 n
          || not (0 == 0)
          || not (superblock_crc (superblock_fields n) == superblock_crc (superblock_fields n)))
        none (some n) (λ wrong. absurd (ground arith)) (λ right. refl))

-- A superblock that is written for 1 to 1024 sectors is read as that number, whatever the buffer held;
-- nothing is written for any other number.
pub superblock_decode-encode :
    (sector : Sector) (data_sectors : ℕ)
    → data_sectors < 0x1_0000_0000
    → (superblock_encode (some sector) data_sectors >>= λ encoded. superblock_decode (some encoded))
      ≡ (if (data_sectors == 0) || ltb 1024 data_sectors then none else some data_sectors)
unfolding superblock_encode written
superblock_decode-encode sector data_sectors small =
    elim (Bool-cases ((data_sectors == 0) || ltb 1024 data_sectors)) [
      | inl refused ↦ rw refused refl
      | inr fits ↦ rw fits (read_back data_sectors fits)
    ]
