-- ===== src/Fat/Tests.antt =====
-- Runs of fs/fat.c on a small volume: 4,222 sectors with one file of three bytes, named "A".
use native.Mathlib.Nat.{mod-lt}
use mathlib.Core.Option.{some-injective}
use efes_os.Base.{
  ℕ, ◌%◌, ◌<◌, ◌≤◌, ◌≡◌, refl, subst, ap, true, false, none, some, List, [], ◌∷◌, ◌==◌,
  if◌then◌else◌, arith,
}
use efes_os.Fat.{
  FatVolume, Read, boot_record, fat_mount, read_sector, read_u16, read_u32, fields_are_valid,
  root_sectors, fat_sectors, data_sectors, cluster_count_of, is_fat16, fats_are_valid,
  mounted_volume, mount_record,
}
use efes_os.Fat.Chain.{is_cluster, item_at, data_lba}
use efes_os.Fat.Files.{
  is_file, count_items, count_sectors, fat_file_count, list_items, list_sectors, fat_file_name,
  read_chain, is_too_large, fat_read_file,
}
use efes_os.Fat.Layout.{Sound}
use efes_os.Fat.Mount.{ReadsBytes, table_lba, fat_mount-Sound, fat_mount-reads_inside}
use efes_os.Fat.Reading.{fat_read_file-within}
use efes_os.Fat.Guard.{read_chain-guard}

-- A sector by the bytes that are not 0.
abbrev byte_of : List (ℕ × ℕ) → ℕ → ℕ
byte_of [] i = 0
byte_of ((k, b) ∷ rest) i = if i == k then b else byte_of rest i

abbrev boot_bytes : List (ℕ × ℕ)
boot_bytes =
    (12, 2)
    ∷ (13, 1)
    ∷ (14, 1)
    ∷ (16, 1)
    ∷ (17, 16)
    ∷ (19, 0x7E)
    ∷ (20, 0x10)
    ∷ (21, 0xF8)
    ∷ (22, 20)
    ∷ (510, 0x55)
    ∷ (511, 0xAA)
    ∷ []

abbrev table_bytes : List (ℕ × ℕ)
table_bytes = (0, 0xF8) ∷ (1, 0xFF) ∷ (2, 0xFF) ∷ (3, 0xFF) ∷ (4, 0xFF) ∷ (5, 0xFF) ∷ []

abbrev root_bytes : List (ℕ × ℕ)
root_bytes =
    (0, 65)
    ∷ (1, 32)
    ∷ (2, 32)
    ∷ (3, 32)
    ∷ (4, 32)
    ∷ (5, 32)
    ∷ (6, 32)
    ∷ (7, 32)
    ∷ (8, 32)
    ∷ (9, 32)
    ∷ (10, 32)
    ∷ (11, 0x20)
    ∷ (26, 2)
    ∷ (28, 3)
    ∷ []

abbrev data_bytes : List (ℕ × ℕ)
data_bytes = (0, 7) ∷ (1, 8) ∷ (2, 9) ∷ []

abbrev bytes_at : ℕ → List (ℕ × ℕ)
bytes_at lba =
    if lba == 0
    then boot_bytes
    else if lba == 1
    then table_bytes
    else if lba == 21
    then root_bytes
    else if lba == 22
    then data_bytes
    else []

abbrev disk : Read
disk lba = some (λ i. byte_of (bytes_at lba) i % 256)

disk-ReadsBytes : ReadsBytes disk
disk-ReadsBytes lba sector e i =
    subst (λ s. s i < 256) (some-injective (λ j. byte_of (bytes_at lba) j % 256) sector e)
      (mod-lt (byte_of (bytes_at lba) i) (omega arith))

abbrev volume : FatVolume
volume = record {
  read = disk;
  start_lba = 0;
  total_sectors = 4222;
  fat_start = 1;
  root_start = 21;
  data_start = 22;
  sectors_per_fat = 20;
  fat_count = 1;
  root_entries = 16;
  sectors_per_cluster = 1;
  cluster_count = 4200;
  mounted = true;
}

volume_is_mounted : fat_mount disk 0 ≡ (0, some volume)
unfolding fat_mount boot_record read_u16 read_u32 mount_record fields_are_valid root_sectors
    fat_sectors data_sectors cluster_count_of is_fat16 fats_are_valid mounted_volume
volume_is_mounted = refl

volume-Sound : Sound volume
volume-Sound = fat_mount-Sound disk 0 volume disk-ReadsBytes (ap (λ r. r.1) volume_is_mounted)

files_are_listed : (fat_file_count volume ≡ 1) × (fat_file_name volume 1 (λ i. 0) 13 ≡ none)
unfolding fat_file_count count_sectors count_items is_file item_at read_sector fat_file_name
    list_sectors list_items
files_are_listed = (refl, refl)

two_is_cluster : is_cluster volume 2 ≡ true
unfolding is_cluster
two_is_cluster = refl

fat_mount-reads_inside_example :
    (read_sector volume (data_lba volume 2 0) ≡ disk 22)
    × (read_sector volume (table_lba volume 0 2) ≡ disk 1)
fat_mount-reads_inside_example =
    fat_mount-reads_inside disk 0 volume 2 0 0 disk-ReadsBytes (ap (λ r. r.1) volume_is_mounted)
      two_is_cluster (omega arith) (omega arith)

fat_read_file-within_example :
    ((fat_read_file volume (65 ∷ []) (λ i. 5) 512).1.0 ≤ 512)
    × ((fat_read_file volume (65 ∷ []) (λ i. 5) 512).1.1 600 ≡ 5)
fat_read_file-within_example =
    fat_read_file-within volume (65 ∷ []) (λ i. 5) 512 600 (omega arith) (omega arith)

three_fit : is_too_large volume 3 512 ≡ false
unfolding is_too_large
three_fit = refl

read_chain-guard_example :
    read_chain volume 2 5000 (record { buffer = λ i. 0; output = 0; remaining = 3 })
    ≡ read_chain volume 2 4200 (record { buffer = λ i. 0; output = 0; remaining = 3 })
read_chain-guard_example =
    read_chain-guard volume 2 3 512 5000 (λ i. 0) volume-Sound three_fit (omega arith)

abbrev entry_of_a : ℕ → ℕ
entry_of_a = item_at (λ i. byte_of (bytes_at 21) i % 256) 0
