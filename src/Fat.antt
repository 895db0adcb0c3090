-- ===== src/Fat.antt =====
-- fs/fat.c and fs/fat.h: reading a FAT16 volume. The callback that reads a sector is an argument; a
-- sector is a function of the byte's index. A pointer that the source tests against 0 is never 0 here.
pub mod Names
pub mod Chain
pub mod Files
pub mod Layout
pub mod Mount
pub mod Reading
pub mod Guard
pub mod Contents
pub mod Complete
mod Tests
use efes_os.Base.{
  ℕ, zero, suc, ◌+◌, ◌-◌, ◌*◌, ◌/◌, ◌%◌, ◌^◌, Bool, true, false, not, ◌&&◌, ◌||◌, Option, none,
  some, ◌==◌, ltb, leb, if◌then◌else◌, bit_or, bit_and,
}
use efes_os.Base.Words.{add32, sub32, add64, mul32}

abbrev pub sector_size : ℕ
sector_size = 512

abbrev pub end_of_chain : ℕ
end_of_chain = 0xFFF8

abbrev pub bad_cluster : ℕ
bad_cluster = 0xFFF7

abbrev pub attribute_directory : ℕ
attribute_directory = 0x10

abbrev pub attribute_volume_id : ℕ
attribute_volume_id = 0x08

abbrev pub attribute_long_name : ℕ
attribute_long_name = 0x0F

abbrev pub Sector : Type 0
Sector = ℕ → ℕ

abbrev pub Read : Type 0
Read = ℕ → Option Sector

pub record FatVolume : Type 0 where
  pub read : Read
  pub start_lba : ℕ
  pub total_sectors : ℕ
  pub fat_start : ℕ
  pub root_start : ℕ
  pub data_start : ℕ
  pub sectors_per_fat : ℕ
  pub fat_count : ℕ
  pub root_entries : ℕ
  pub sectors_per_cluster : ℕ
  pub cluster_count : ℕ
  pub mounted : Bool

unfoldable pub read_sector : FatVolume → ℕ → Option Sector
read_sector volume lba =
    if not volume.mounted
      || ltb lba volume.start_lba
      || leb volume.total_sectors (lba - volume.start_lba)
    then none
    else volume.read lba

unfoldable pub read_u16 : (ℕ → ℕ) → ℕ → ℕ
read_u16 bytes offset = bit_or (bytes offset) (bytes (offset + 1) * 2 ^ 8)

unfoldable pub read_u32 : (ℕ → ℕ) → ℕ → ℕ
read_u32 bytes offset =
    bit_or
      (bit_or (bit_or (bytes offset) (bytes (offset + 1) * 2 ^ 8)) (bytes (offset + 2) * 2 ^ 16))
      (bytes (offset + 3) * 2 ^ 24)

-- The numbers in a boot record.
pub record BootRecord : Type 0 where
  pub bytes_per_sector : ℕ
  pub sectors_per_cluster : ℕ
  pub reserved : ℕ
  pub fats : ℕ
  pub root_entries : ℕ
  pub sectors_per_fat : ℕ
  pub media_descriptor : ℕ
  pub total_sectors : ℕ

unfoldable pub boot_record : Sector → BootRecord
boot_record boot = record {
  bytes_per_sector = read_u16 boot 11;
  sectors_per_cluster = boot 13;
  reserved = read_u16 boot 14;
  fats = boot 16;
  root_entries = read_u16 boot 17;
  sectors_per_fat = read_u16 boot 22;
  media_descriptor = boot 21;
  total_sectors = if read_u16 boot 19 == 0 then read_u32 boot 32 else read_u16 boot 19;
}

unfoldable pub fields_are_valid : BootRecord → Bool
fields_are_valid b =
    (b.bytes_per_sector == sector_size)
    && leb 0xF0 b.media_descriptor
    && not (b.sectors_per_cluster == 0)
    && leb b.sectors_per_cluster 128
    && (bit_and b.sectors_per_cluster (b.sectors_per_cluster - 1) == 0)
    && not (b.reserved == 0)
    && not (b.fats == 0)
    && not (b.root_entries == 0)
    && not (b.sectors_per_fat == 0)
    && not (b.total_sectors == 0)

unfoldable pub root_sectors : BootRecord → ℕ
root_sectors b = sub32 (add32 (mul32 b.root_entries 32) sector_size) 1 / sector_size

-- The sectors of the file allocation tables.
unfoldable pub fat_sectors : BootRecord → ℕ
fat_sectors b = mul32 b.fats b.sectors_per_fat

unfoldable pub data_sectors : BootRecord → ℕ
data_sectors b = sub32 (sub32 (sub32 b.total_sectors b.reserved) (fat_sectors b)) (root_sectors b)

unfoldable pub cluster_count_of : BootRecord → ℕ
cluster_count_of b = data_sectors b / b.sectors_per_cluster

unfoldable pub is_fat16 : BootRecord → Bool
is_fat16 b =
    not (data_sectors b == 0)
    && leb 4085 (cluster_count_of b)
    && ltb (cluster_count_of b) 65525
    && leb (add32 (cluster_count_of b) 2) (mul32 b.sectors_per_fat sector_size / 2)

-- The `n` rounds of the loop over the tables that are left at `fat_index`. The address is cut off to 32
-- bits.
unfoldable pub fats_are_valid : Read → ℕ → BootRecord → ℕ → ℕ → Bool
fats_are_valid read start_lba b fat_index zero = true
fats_are_valid read start_lba b fat_index (suc n) =
    let fat_lba =
      add64 (add64 start_lba b.reserved) (mul32 fat_index b.sectors_per_fat) % 0x1_0000_0000 in
    let rest = fats_are_valid read start_lba b (fat_index + 1) n in
    elim (read fat_lba) [
      | none ↦ false
      | some header ↦
          if not (header 0 == b.media_descriptor)
            || not (header 1 == 0xFF)
            || not (header 2 == 0xFF)
          then false
          else rest
    ]

unfoldable pub mounted_volume : Read → ℕ → BootRecord → FatVolume
mounted_volume read start_lba b =
    let fat_start = add64 start_lba b.reserved in
    let root_start = add64 fat_start (fat_sectors b) in
    record {
      read = read;
      start_lba = start_lba;
      total_sectors = b.total_sectors;
      fat_start = fat_start;
      root_start = root_start;
      data_start = add64 root_start (root_sectors b);
      sectors_per_fat = b.sectors_per_fat;
      fat_count = b.fats;
      root_entries = b.root_entries;
      sectors_per_cluster = b.sectors_per_cluster;
      cluster_count = cluster_count_of b;
      mounted = true;
    }

-- The error, or 0 and the volume.
unfoldable pub mount_record : Read → ℕ → BootRecord → ℕ × Option FatVolume
mount_record read start_lba b =
    if not (fields_are_valid b)
    then (4, none)
    else if leb b.total_sectors (add32 (add32 b.reserved (fat_sectors b)) (root_sectors b))
    then (5, none)
    else if not (is_fat16 b)
    then (6, none)
    else if ltb (0xFFFF_FFFF_FFFF_FFFF - (b.total_sectors - 1)) start_lba
    then (7, none)
    else if not (fats_are_valid read start_lba b 0 b.fats)
    then (8, none)
    else (0, some (mounted_volume read start_lba b))

unfoldable pub fat_mount : Read → ℕ → ℕ × Option FatVolume
fat_mount read start_lba = elim (read start_lba) [
  | none ↦ (2, none)
  | some boot ↦
      if not (boot 510 == 0x55) || not (boot 511 == 0xAA)
      then (3, none)
      else mount_record read start_lba (boot_record boot)
]
