-- ===== src/Fat/Mount.antt =====
-- What a volume that fat_mount of fs/fat.c accepts lets the other calls read.
use native.Mathlib.Nat.{mul-le-mul, mul-le-mul_right}
use mathlib.Core.Option.{some-injective, none-ne-some}
use efes_os.Base.{
  ℕ, ◌+◌, ◌-◌, ◌*◌, ◌/◌, ◌%◌, ◌≤◌, ◌<◌, ◌≡◌, refl, sym, ap, subst, ◌∙◌, Bool, true, false, not,
  ◌||◌, Option, none, some, inl, inr, ◌==◌, ltb, leb, if◌then◌else◌, Option-cases, if_each, arith,
}
use efes_os.Base.Words.{add32, sub32, add64, mul32}
use efes_os.Fat.{
  FatVolume, Sector, Read, BootRecord, sector_size, read_sector, boot_record, fields_are_valid,
  root_sectors, fat_sectors, is_fat16, fats_are_valid, mounted_volume, mount_record, fat_mount,
}
use efes_os.Fat.Chain.{is_cluster, data_lba}
use efes_os.Fat.Layout.{Bytes, Accepted, Sound, boot_record-Fields, mounted_volume-Sound}

not-false : (t : Bool) → not t ≡ false → t ≡ true
not-false t e = ground arith

mount_record-Accepted :
    (read : Read) (start : ℕ) (b : BootRecord) (v : FatVolume)
    → (mount_record read start b).1 ≡ some v
    → Accepted start b × (mounted_volume read start b ≡ v)
unfolding mount_record
mount_record-Accepted read start b v =
    if_each Leads (not (fields_are_valid b)) (4, none) behind_fields (λ e h. refused h)
      (λ e1.
        if_each Leads too_small (5, none) behind_size (λ e h. refused h)
          (λ e2.
            if_each Leads (not (is_fat16 b)) (6, none) behind_type (λ e h. refused h)
              (λ e3.
                if_each Leads too_far (7, none) behind_end (λ e h. refused h)
                  (λ e4.
                    if_each Leads (not (fats_are_valid read start b 0 b.fats)) (8, none)
                      (0, some (mounted_volume read start b)) (λ e h. refused h)
                      (λ e5 h. (
                        (not-false (fields_are_valid b) e1, e2, not-false (is_fat16 b) e3, e4),
                        some-injective (mounted_volume read start b) v h,
                      ))))))
  where
    too_small : Bool
    too_small = leb b.total_sectors (add32 (add32 b.reserved (fat_sectors b)) (root_sectors b))

    too_far : Bool
    too_far = ltb (0xFFFF_FFFF_FFFF_FFFF - (b.total_sectors - 1)) start

    behind_end : ℕ × Option FatVolume
    behind_end =
        if not (fats_are_valid read start b 0 b.fats)
        then (8, none)
        else (0, some (mounted_volume read start b))

    behind_type : ℕ × Option FatVolume
    behind_type = if too_far then (7, none) else behind_end

    behind_size : ℕ × Option FatVolume
    behind_size = if not (is_fat16 b) then (6, none) else behind_type

    behind_fields : ℕ × Option FatVolume
    behind_fields = if too_small then (5, none) else behind_size

    Leads : ℕ × Option FatVolume → Type 0
    Leads r = r.1 ≡ some v → Accepted start b × (mounted_volume read start b ≡ v)

    refused : none ≡ some v → Accepted start b × (mounted_volume read start b ≡ v)
    refused h = absurd (none-ne-some v h)

-- Every sector that is read is made of bytes.
abbrev pub ReadsBytes : Read → Type 0
ReadsBytes read = (lba : ℕ) (sector : Sector) → read lba ≡ some sector → Bytes sector

fat_mount-none : (read : Read) (start : ℕ) → read start ≡ none → (fat_mount read start).1 ≡ none
unfolding fat_mount
fat_mount-none read start e = rw (fat_mount, e) refl

fat_mount-some :
    (read : Read) (start : ℕ) (boot : Sector)
    → read start ≡ some boot
    → fat_mount read start ≡ (
        if not (boot 510 == 0x55) || not (boot 511 == 0xAA)
        then (3, none)
        else mount_record read start (boot_record boot))
unfolding fat_mount
fat_mount-some read start boot e = rw (fat_mount, e) refl

-- A volume that fat_mount accepts is sound, where the callback reads bytes.
pub fat_mount-Sound :
    (read : Read) (start_lba : ℕ) (v : FatVolume)
    → ReadsBytes read
    → (fat_mount read start_lba).1 ≡ some v
    → Sound v
fat_mount-Sound read start v bytes h = elim (Option-cases (read start)) [
  | inl e ↦ absurd (none-ne-some v (sym (fat_mount-none read start e) ∙ h))
  | inr (boot, e) ↦
      if_each Leads (not (boot 510 == 0x55) || not (boot 511 == 0xAA)) (3, none)
        (mount_record read start (boot_record boot)) (λ t k. absurd (none-ne-some v k))
        (λ t k. sound boot e k) (sym (ap (λ r. r.1) (fat_mount-some read start boot e)) ∙ h)
]
  where
    Leads : ℕ × Option FatVolume → Type 0
    Leads r = r.1 ≡ some v → Sound v

    sound :
        (boot : Sector)
        → read start ≡ some boot
        → (mount_record read start (boot_record boot)).1 ≡ some v
        → Sound v
    sound boot e k =
        let (accepted, eq) = mount_record-Accepted read start (boot_record boot) v k in
        subst Sound eq (
          mounted_volume-Sound read start (boot_record boot)
            (boot_record-Fields boot (bytes start boot e)) accepted)

read_sector-inside :
    (v : FatVolume) (lba : ℕ)
    → Sound v
    → v.start_lba ≤ lba
    → lba < v.start_lba + v.total_sectors
    → read_sector v lba ≡ v.read lba
unfolding read_sector
read_sector-inside v lba s lo hi = let mounted : v.mounted ≡ true = s.0 in ground (arith, mounted)

range :
    (v : FatVolume) (cluster : ℕ)
    → Sound v
    → is_cluster v cluster ≡ true
    → (2 ≤ cluster) × (cluster < v.cluster_count + 2)
unfolding is_cluster
range v c (m, o, r, d, a, l, f, p, cc, spc, fats, spf) e = ground arith

-- Row `row` of `rows`, each of `width` cells, ends before the table does.
row-le : (row rows width : ℕ) → row < rows → row * width + width ≤ rows * width
row-le row rows width h =
    let next : (row + 1) * width ≤ rows * width = mul-le-mul_right width (omega arith) in
    let split : (row + 1) * width ≡ row * width + width = grind arith in omega (arith, next, split)

data_lba_lem :
    (v : FatVolume) (cluster i : ℕ)
    → Sound v
    → is_cluster v cluster ≡ true
    → i < v.sectors_per_cluster
    → (data_lba v cluster i ≡ v.data_start + ((cluster - 2) * v.sectors_per_cluster + i))
      × (v.start_lba ≤ data_lba v cluster i)
      × (data_lba v cluster i < v.start_lba + v.total_sectors)
unfolding data_lba
data_lba_lem v c i s e h =
    let (m, o, r, d, a, l, f, p, cc, spc, fats, spf) = s in
    let (lo, hi) = range v c s e in
    let index : (c + 0x1_0000_0000 - 2) % 0x1_0000_0000 ≡ c - 2 = omega arith in
    let row = row-le (c - 2) v.cluster_count v.sectors_per_cluster (omega arith) in
    let whole : v.cluster_count * v.sectors_per_cluster ≤ 65525 * 128 =
      mul-le-mul {n₂ = 65525} {m₂ = 128} (omega arith) (omega arith) in
    let offset : mul32 (sub32 c 2) v.sectors_per_cluster ≡ (c - 2) * v.sectors_per_cluster =
      rw index (omega (arith, row, whole)) in
    rw offset (omega arith, omega arith, omega arith)

abbrev pub table_lba : FatVolume → ℕ → ℕ → ℕ
table_lba v copy cluster =
    add64 (add64 v.fat_start (mul32 copy v.sectors_per_fat)) (mul32 cluster 2 / sector_size)

table_lba_lem :
    (v : FatVolume) (cluster copy : ℕ)
    → Sound v
    → is_cluster v cluster ≡ true
    → copy < v.fat_count
    → (table_lba v copy cluster ≡ v.fat_start + copy * v.sectors_per_fat + cluster / 256)
      × (v.start_lba ≤ table_lba v copy cluster)
      × (table_lba v copy cluster < v.start_lba + v.total_sectors)
table_lba_lem v c k s e h =
    let (m, o, r, d, a, l, f, p, cc, spc, fats, spf) = s in
    let (lo, hi) = range v c s e in
    let row = row-le k v.fat_count v.sectors_per_fat h in
    let whole : v.fat_count * v.sectors_per_fat ≤ 256 * 65536 =
      mul-le-mul {n₂ = 256} {m₂ = 65536} (omega arith) (omega arith) in
    (omega arith, omega arith, omega arith)

-- On a volume that fat_mount accepts, where the callback gives bytes, read_sector does not refuse the
-- sectors of a cluster in the table's range, nor its entry in any copy of the table: it calls back for
-- the address that the layout gives them, with nothing that wraps around.
pub fat_mount-reads_inside :
    (read : Read) (start_lba : ℕ) (v : FatVolume) (cluster i copy : ℕ)
    → ReadsBytes read
    → (fat_mount read start_lba).1 ≡ some v
    → is_cluster v cluster ≡ true
    → i < v.sectors_per_cluster
    → copy < v.fat_count
    → (read_sector v (data_lba v cluster i)
        ≡ v.read (v.data_start + ((cluster - 2) * v.sectors_per_cluster + i)))
      × (read_sector v (table_lba v copy cluster)
          ≡ v.read (v.fat_start + copy * v.sectors_per_fat + cluster / 256))
fat_mount-reads_inside read start v c i k bytes h e hi hk =
    let s = fat_mount-Sound read start v bytes h in
    let (at, lo, up) = data_lba_lem v c i s e hi in
    let (at', lo', up') = table_lba_lem v c k s e hk in
    (
      read_sector-inside v (data_lba v c i) s lo up ∙ ap v.read at,
      read_sector-inside v (table_lba v k c) s lo' up' ∙ ap v.read at',
    )
