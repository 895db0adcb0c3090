-- ===== src/Fat/Layout.antt =====
-- The layout of a volume that fat_mount of fs/fat.c accepts.
use native.Mathlib.Nat.{mul-le-mul, div-mul-le_self, mod-eq_of_lt}
use efes_os.Base.{
  ℕ, ◌+◌, ◌-◌, ◌*◌, ◌/◌, ◌^◌, ◌≤◌, ◌<◌, ◌≡◌, refl, true, false, ◌==◌, ltb, leb, if◌then◌else◌,
  arith,
}
use efes_os.Base.Words.{add32, add64, bit_or-low}
use efes_os.Fat.{
  FatVolume, Sector, Read, BootRecord, read_u16, read_u32, boot_record, fields_are_valid,
  root_sectors, fat_sectors, data_sectors, cluster_count_of, is_fat16, mounted_volume,
}

abbrev pub Bytes : Sector → Type 0
Bytes bytes = (i : ℕ) → bytes i < 256

read_u16-bound : (bytes : Sector) (offset : ℕ) → Bytes bytes → read_u16 bytes offset < 0x1_0000
unfolding read_u16
read_u16-bound bytes o h =
    omega (arith, h o, h (o + 1), bit_or-low 8 (bytes (o + 1)) (bytes o) (h o))

read_u32-bound : (bytes : Sector) (offset : ℕ) → Bytes bytes → read_u32 bytes offset < 0x1_0000_0000
unfolding read_u32
read_u32-bound bytes o h =
    let low = bit_or-low 8 (bytes (o + 1)) (bytes o) (h o) in
    let middle =
      bit_or-low 16 (bytes (o + 2)) (bytes (o + 1) * 2 ^ 8 + bytes o)
        (omega (arith, h o, h (o + 1))) in
    let high =
      bit_or-low 24 (bytes (o + 3)) (bytes (o + 2) * 2 ^ 16 + (bytes (o + 1) * 2 ^ 8 + bytes o))
        (omega (arith, h o, h (o + 1), h (o + 2))) in
    rw (low, middle, high) (omega (arith, h o, h (o + 1), h (o + 2), h (o + 3)))

-- The widths of the fields.
abbrev pub Fields : BootRecord → Type 0
Fields b =
    (b.reserved < 0x1_0000)
    × (b.fats < 0x100)
    × (b.root_entries < 0x1_0000)
    × (b.sectors_per_fat < 0x1_0000)
    × (b.total_sectors < 0x1_0000_0000)

pub boot_record-Fields : (boot : Sector) → Bytes boot → Fields (boot_record boot)
unfolding boot_record
boot_record-Fields boot h = (
  read_u16-bound boot 14 h,
  h 16,
  read_u16-bound boot 17 h,
  read_u16-bound boot 22 h,
  total (read_u16 boot 19) (read_u32 boot 32) (read_u16-bound boot 19 h) (read_u32-bound boot 32 h),
)
  where
    total : (a c : ℕ) → a < 0x1_0000 → c < 0x1_0000_0000 → (if a == 0 then c else a) < 0x1_0000_0000
    total a c ha hc = ground arith

-- The parts of the volume lie behind each other and inside it, and no address wraps around.
abbrev pub Sound : FatVolume → Type 0
Sound v =
    (v.mounted ≡ true)
    × (v.start_lba < v.fat_start)
    × (v.root_start ≡ v.fat_start + v.fat_count * v.sectors_per_fat)
    × (v.data_start ≡ v.root_start + (v.root_entries + 15) / 16)
    × (v.data_start + v.cluster_count * v.sectors_per_cluster ≤ v.start_lba + v.total_sectors)
    × (v.start_lba + v.total_sectors ≤ 0x1_0000_0000_0000_0000)
    × (v.cluster_count + 2 ≤ v.sectors_per_fat * 256)
    × (0 < v.fat_count)
    × (v.cluster_count < 65525)
    × (v.sectors_per_cluster ≤ 128)
    × (v.fat_count < 0x100)
    × (v.sectors_per_fat < 0x1_0000)

-- What the tests of fat_mount say of the numbers of a boot record.
abbrev pub Accepted : ℕ → BootRecord → Type 0
Accepted start b =
    (fields_are_valid b ≡ true)
    × (leb b.total_sectors (add32 (add32 b.reserved (fat_sectors b)) (root_sectors b)) ≡ false)
    × (is_fat16 b ≡ true)
    × (ltb (0xFFFF_FFFF_FFFF_FFFF - (b.total_sectors - 1)) start ≡ false)

fields :
    (b : BootRecord)
    → fields_are_valid b ≡ true
    → (0 < b.sectors_per_cluster)
      × (b.sectors_per_cluster ≤ 128)
      × (0 < b.reserved)
      × (0 < b.fats)
      × (0 < b.total_sectors)
unfolding fields_are_valid
fields b e = ground arith

fat_sectors_lem :
    (b : BootRecord)
    → Fields b
    → (fat_sectors b ≡ b.fats * b.sectors_per_fat) × (b.fats * b.sectors_per_fat < 0x100_0000)
unfolding fat_sectors
fat_sectors_lem b (hr, hf, he, hs, ht) =
    let bound : b.fats * b.sectors_per_fat ≤ 255 * 65535 =
      mul-le-mul {n₂ = 255} {m₂ = 65535} (omega arith) (omega arith) in
    (mod-eq_of_lt (omega (arith, bound)), omega (arith, bound))

root_sectors_lem :
    (b : BootRecord)
    → Fields b
    → (root_sectors b ≡ (b.root_entries + 15) / 16) × (root_sectors b < 0x1_0000)
unfolding root_sectors
root_sectors_lem b (hr, hf, he, hs, ht) = (omega arith, omega arith)

-- The sectors that are left for the clusters, and how many clusters they hold.
data_sectors_lem :
    (b : BootRecord) (start : ℕ)
    → Fields b
    → Accepted start b
    → (b.reserved + fat_sectors b + root_sectors b + data_sectors b ≡ b.total_sectors)
      × (cluster_count_of b * b.sectors_per_cluster ≤ data_sectors b)
unfolding data_sectors cluster_count_of
data_sectors_lem b start f (valid, large, fat16, near) =
    let (hr, hf, he, hs, ht) = f in
    let (f-eq, f-bound) = fat_sectors_lem b f in
    let (r-eq, r-bound) = root_sectors_lem b f in
    (ground (arith, f-eq, f-bound, r-bound), div-mul-le_self (data_sectors b) b.sectors_per_cluster)

clusters :
    (b : BootRecord)
    → Fields b
    → is_fat16 b ≡ true
    → (cluster_count_of b < 65525)
      × (cluster_count_of b + 2 ≤ b.sectors_per_fat * 256)
      × (0 < data_sectors b)
unfolding is_fat16
clusters b (hr, hf, he, hs, ht) e = ground arith

pub mounted_volume-Sound :
    (read : Read) (start : ℕ) (b : BootRecord)
    → Fields b
    → Accepted start b
    → Sound (mounted_volume read start b)
unfolding mounted_volume
mounted_volume-Sound read start b f a =
    let (valid, large, fat16, near) = a in
    let (hr, hf, he, hs, ht) = f in
    let (f-eq, f-bound) = fat_sectors_lem b f in
    let (r-eq, r-bound) = root_sectors_lem b f in
    let (sum, fit) = data_sectors_lem b start f a in
    let (c-bound, capacity, d-pos) = clusters b f fat16 in
    let (c-pos, c-max, r-pos, fats-pos, t-pos) = fields b valid in
    let fits : start + b.total_sectors ≤ 0x1_0000_0000_0000_0000 = ground (arith, t-pos) in
    let tables : add64 start b.reserved ≡ start + b.reserved = omega arith in
    let root : add64 (add64 start b.reserved) (fat_sectors b)
        ≡ add64 start b.reserved + b.fats * b.sectors_per_fat =
      omega arith in
    let area : add64 (add64 (add64 start b.reserved) (fat_sectors b)) (root_sectors b)
        ≡ add64 (add64 start b.reserved) (fat_sectors b) + (b.root_entries + 15) / 16 =
      omega arith in
    let inside : add64 (add64 (add64 start b.reserved) (fat_sectors b)) (root_sectors b)
          + cluster_count_of b * b.sectors_per_cluster
        ≤ start + b.total_sectors =
      omega arith in
    let behind : start < add64 start b.reserved = omega arith in
    (refl, behind, root, area, inside, fits, capacity, fats-pos, c-bound, c-max, hf, hs)
