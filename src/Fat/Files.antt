-- ===== src/Fat/Files.antt =====
-- The calls of fs/fat.c on a mounted volume: the files of the root directory and the bytes of a file.
use efes_os.Base.{
  ℕ, zero, suc, ◌+◌, ◌-◌, ◌/◌, ◌%◌, Bool, true, false, not, ◌&&◌, ◌||◌, Option, none, some, List,
  ◌==◌, ltb, leb, if◌then◌else◌, bit_and, bit_or,
}
use efes_os.Base.Words.{add32, add64, mul32}
use efes_os.Base.Arrays.{update}
use efes_os.Fat.{
  FatVolume, Sector, sector_size, attribute_directory, attribute_volume_id, attribute_long_name,
  read_sector, read_u16, read_u32,
}
use efes_os.Fat.Names.{entry_to_text}
use efes_os.Fat.Chain.{is_cluster, item_at, read_fat_entry, data_lba, find_path}

unfoldable pub is_file : (ℕ → ℕ) → Bool
is_file entry =
    not (entry 0 == 0xE5)
    && not (entry 11 == attribute_long_name)
    && (bit_and (entry 11) (bit_or attribute_directory attribute_volume_id) == 0)

-- Whether the items go on behind the `n` of this sector, and the count.
unfoldable pub count_items : FatVolume → Sector → ℕ → ℕ → ℕ → ℕ → Bool × ℕ
count_items volume sector sector_index item zero count = (true, count)
count_items volume sector sector_index item (suc n) count =
    let entry = item_at sector item in
    let rest =
      count_items volume sector sector_index (item + 1) n
        (if is_file entry then add32 count 1 else count) in
    if leb volume.root_entries (add32 (mul32 sector_index 16) item)
    then (true, count)
    else if entry 0 == 0
    then (false, count)
    else rest

unfoldable pub count_sectors : FatVolume → ℕ → ℕ → ℕ → ℕ
count_sectors volume sector_index zero count = count
count_sectors volume sector_index (suc n) count =
    elim (read_sector volume (add64 volume.root_start sector_index)) [
      | none ↦ count
      | some sector ↦
          let (go_on, count') = count_items volume sector sector_index 0 16 count in
          elim go_on [ false ↦ count' | true ↦ count_sectors volume (sector_index + 1) n count' ]
    ]

unfoldable pub fat_file_count : FatVolume → ℕ
fat_file_count volume =
    if not volume.mounted then 0 else count_sectors volume 0 (add32 volume.root_entries 15 / 16) 0

-- How the search in one sector ends: with the entry, with no entry at all, or with the count so far.
pub data Listing : Type 0 where
  listed : (ℕ → ℕ) → Listing
  no_more : Listing
  counted : ℕ → Listing

unfoldable pub list_items : FatVolume → ℕ → Sector → ℕ → ℕ → ℕ → ℕ → Listing
list_items volume wanted sector sector_index item zero count = counted count
list_items volume wanted sector sector_index item (suc n) count =
    let entry = item_at sector item in
    let skipped = list_items volume wanted sector sector_index (item + 1) n count in
    let passed = list_items volume wanted sector sector_index (item + 1) n (add32 count 1) in
    if leb volume.root_entries (add32 (mul32 sector_index 16) item)
    then counted count
    else if entry 0 == 0
    then no_more
    else if not (is_file entry)
    then skipped
    else if count == wanted
    then listed entry
    else passed

unfoldable pub list_sectors : FatVolume → ℕ → ℕ → ℕ → ℕ → Option (ℕ → ℕ)
list_sectors volume wanted sector_index zero count = none
list_sectors volume wanted sector_index (suc n) count =
    elim (read_sector volume (add64 volume.root_start sector_index)) [
      | none ↦ none
      | some sector ↦ elim (list_items volume wanted sector sector_index 0 16 count) [
        | listed entry ↦ some entry
        | no_more ↦ none
        | counted count' ↦ list_sectors volume wanted (sector_index + 1) n count'
      ]
    ]

unfoldable pub fat_file_name : FatVolume → ℕ → (ℕ → ℕ) → ℕ → Option (ℕ → ℕ)
fat_file_name volume index name capacity =
    if not volume.mounted || (capacity == 0)
    then none
    else elim (list_sectors volume index 0 (add32 volume.root_entries 15 / 16) 0) [
      | none ↦ none
      | some entry ↦ some (entry_to_text entry capacity name)
    ]

-- The loop of fat_read_file keeps the buffer, the count of the bytes in it and the count of the bytes
-- that are still to come.
pub record Progress : Type 0 where
  pub buffer : ℕ → ℕ
  pub output : ℕ
  pub remaining : ℕ

unfoldable pub copy_sector : (ℕ → ℕ) → ℕ → Sector → ℕ → ℕ → ℕ → ℕ
copy_sector buffer output sector cluster_offset zero = buffer
copy_sector buffer output sector cluster_offset (suc n) =
    copy_sector (update buffer (add32 output cluster_offset) (sector cluster_offset)) output sector
      (cluster_offset + 1) n

unfoldable pub amount_of : ℕ → ℕ
amount_of remaining = if ltb remaining sector_size then remaining else sector_size

unfoldable pub take_sector : Progress → Sector → Progress
take_sector p sector = record {
  buffer = copy_sector p.buffer p.output sector 0 (amount_of p.remaining);
  output = add32 p.output (amount_of p.remaining);
  remaining = p.remaining - amount_of p.remaining;
}

-- The `n` rounds of the loop over a cluster's sectors that are left at `sector_index`.
unfoldable pub read_cluster : FatVolume → ℕ → ℕ → ℕ → Progress → Bool × Progress
read_cluster volume cluster sector_index zero p = (true, p)
read_cluster volume cluster sector_index (suc n) p = elim (p.remaining == 0) [
  | true ↦ (true, p)
  | false ↦ elim (read_sector volume (data_lba volume cluster sector_index)) [
    | none ↦ (false, p)
    | some sector ↦ read_cluster volume cluster (sector_index + 1) n (take_sector p sector)
  ]
]

-- The `n` rounds that the guard still allows.
unfoldable pub read_chain : FatVolume → ℕ → ℕ → Progress → Bool × Progress
read_chain volume cluster zero p = (p.remaining == 0, p)
read_chain volume cluster (suc n) p =
    if p.remaining == 0
    then (true, p)
    else if not (is_cluster volume cluster)
    then (false, p)
    else let (ok, p') = read_cluster volume cluster 0 volume.sectors_per_cluster p in
      elim ok [
        | false ↦ (false, p')
        | true ↦ elim (p'.remaining == 0) [
          | true ↦ (true, p')
          | false ↦ elim (read_fat_entry volume cluster) [
            | none ↦ (false, p')
            | some next_cluster ↦ read_chain volume next_cluster n p'
          ]
        ]
      ]

unfoldable pub is_too_large : FatVolume → ℕ → ℕ → Bool
is_too_large volume remaining capacity =
    let max_sectors = mul32 volume.cluster_count volume.sectors_per_cluster in
    ltb capacity remaining
    || ltb max_sectors (remaining / sector_size)
    || not (remaining % sector_size == 0) && leb max_sectors (remaining / sector_size)

-- Whether the file is read, the size and the buffer.
unfoldable pub read_entry : FatVolume → (ℕ → ℕ) → (ℕ → ℕ) → ℕ → Bool × (ℕ × (ℕ → ℕ))
read_entry volume entry buffer capacity =
    let remaining = read_u32 entry 28 in
    let cluster = read_u16 entry 26 in
    if is_too_large volume remaining capacity
    then (false, (0, buffer))
    else if remaining == 0
    then (cluster == 0, (0, buffer))
    else let (ok, p) =
        read_chain volume cluster volume.cluster_count
          (record { buffer = buffer; output = 0; remaining = remaining }) in
      (ok, ((if ok then p.output else 0), p.buffer))

abbrev pub refused_attributes : ℕ
refused_attributes = bit_or (bit_or attribute_directory attribute_volume_id) attribute_long_name

unfoldable pub fat_read_file : FatVolume → List ℕ → (ℕ → ℕ) → ℕ → Bool × (ℕ × (ℕ → ℕ))
fat_read_file volume name buffer capacity =
    if not volume.mounted then (false, (0, buffer)) else elim (find_path volume name) [
      | none ↦ (false, (0, buffer))
      | some entry ↦
          if not (bit_and (entry 11) refused_attributes == 0)
          then (false, (0, buffer))
          else read_entry volume entry buffer capacity
    ]
