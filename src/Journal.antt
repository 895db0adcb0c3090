-- ===== src/Journal.antt =====
-- fs/journal.c and fs/journal.h: the bytes of a sector, the checksum, the superblock and the form of a
-- record. A sector is a function of the byte's index; a pointer that may be null is an `Option`, and so
-- is what a function writes only where it succeeds.
pub mod Bytes
pub mod Superblock
pub mod Record
pub mod Log
pub mod Append
mod Tests
use efes_os.Base.{
  ℕ, zero, suc, ◌+◌, ◌-◌, ◌*◌, ◌/◌, ◌^◌, Bool, true, false, not, ◌&&◌, ◌||◌, Option, none, some,
  bit_and, bit_or, bit_xor, ◌==◌, ltb, leb, if◌then◌else◌,
}
use efes_os.Base.Arrays.{update}
use efes_os.Base.Bits.{complement}

abbrev pub Sector : Type 0
Sector = ℕ → ℕ

abbrev pub journal_magic : ℕ
journal_magic = 0x314A_5346

abbrev pub journal_version : ℕ
journal_version = 1

abbrev pub journal_commit : ℕ
journal_commit = 0xC0DE_17ED

abbrev pub header_size : ℕ
header_size = 20

abbrev pub name_max : ℕ
name_max = 32

abbrev pub content_max : ℕ
content_max = 256

abbrev pub payload_size : ℕ
payload_size = name_max + content_max

abbrev pub sector_size : ℕ
sector_size = 512

abbrev pub commit_offset : ℕ
commit_offset = sector_size - 4

abbrev pub max_data_sectors : ℕ
max_data_sectors = 1024

unfoldable pub read_u16 : Sector → ℕ → ℕ
read_u16 bytes offset = bit_or (bytes offset) (bytes (offset + 1) * 2 ^ 8)

unfoldable pub read_u32 : Sector → ℕ → ℕ
read_u32 bytes offset =
    bit_or
      (bit_or (bit_or (bytes offset) (bytes (offset + 1) * 2 ^ 8)) (bytes (offset + 2) * 2 ^ 16))
      (bytes (offset + 3) * 2 ^ 24)

unfoldable pub write_u16 : Sector → ℕ → ℕ → Sector
write_u16 bytes offset value =
    update (update bytes offset (bit_and value 0xFF)) (offset + 1) (bit_and (value / 2 ^ 8) 0xFF)

unfoldable pub write_u32 : Sector → ℕ → ℕ → Sector
write_u32 bytes offset value =
    write_u16 (write_u16 bytes offset (bit_and value 0xFFFF)) (offset + 2) (value / 2 ^ 16)

-- The `n` rounds of the loop over the bits of a byte that are left.
unfoldable pub crc_bits : ℕ → ℕ → ℕ
crc_bits zero crc = crc
crc_bits (suc n) crc =
    crc_bits n (bit_xor (crc / 2) (if not (bit_and crc 1 == 0) then 0xEDB8_8320 else 0))

-- The `length` rounds of the loop over the bytes from `offset` on.
unfoldable pub crc32_update : ℕ → Sector → ℕ → ℕ → ℕ
crc32_update crc bytes offset zero = crc
crc32_update crc bytes offset (suc length) =
    crc32_update (crc_bits 8 (bit_xor crc (bytes offset))) bytes (offset + 1) length

unfoldable pub record_crc : Sector → ℕ
record_crc sector =
    complement 32
      (crc32_update (crc32_update 0xFFFF_FFFF sector 0 16) sector header_size payload_size)

unfoldable pub superblock_crc : Sector → ℕ
superblock_crc sector = complement 32 (crc32_update 0xFFFF_FFFF sector 0 12)

-- The `n` rounds of a loop that fails at the first byte that is not zero.
unfoldable pub all_zero : Sector → ℕ → ℕ → Bool
all_zero sector index zero = true
all_zero sector index (suc n) =
    if not (sector index == 0) then false else all_zero sector (index + 1) n

unfoldable pub sector_is_empty : Sector → Bool
sector_is_empty sector = all_zero sector 0 sector_size

unfoldable pub sequence_is_newer : ℕ → ℕ → Bool
sequence_is_newer sequence previous = not (sequence == 0) && ltb previous sequence

unfoldable pub region_fits : ℕ → ℕ → Bool
region_fits start_lba sector_count =
    not (sector_count == 0) && leb start_lba (0xFFFF_FFFF_FFFF_FFFF - (sector_count - 1))

-- The superblock up to its checksum.
unfoldable pub superblock_fields : ℕ → Sector
superblock_fields data_sectors =
    write_u32
      (write_u16 (write_u16 (write_u32 (λ index. 0) 0 journal_magic) 4 journal_version) 6
        data_sectors)
      8 0

unfoldable pub superblock_encode : Option Sector → ℕ → Option Sector
superblock_encode none data_sectors = none
superblock_encode (some sector) data_sectors =
    let fields = superblock_fields data_sectors in
    if (data_sectors == 0) || ltb max_data_sectors data_sectors
    then none
    else some (write_u32 (write_u32 fields 12 (superblock_crc fields)) commit_offset journal_commit)

unfoldable pub superblock_decode : Option Sector → Option ℕ
superblock_decode none = none
superblock_decode (some sector) =
    let count = read_u16 sector 6 in
    if not (read_u32 sector 0 == journal_magic)
      || not (read_u16 sector 4 == journal_version)
      || not (read_u32 sector commit_offset == journal_commit)
    then none
    else if (count == 0)
        || ltb max_data_sectors count
        || not (read_u32 sector 8 == 0)
        || not (read_u32 sector 12 == superblock_crc sector)
    then none
    else if not (all_zero sector 16 (commit_offset - 16))
    then none
    else some count
