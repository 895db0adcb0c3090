-- ===== src/Fat/Chain.antt =====
-- The chains of clusters and the search for a path in fs/fat.c. A path is the list of its bytes before
-- the zero.
use efes_os.Base.{
  ℕ, zero, suc, ◌+◌, ◌-◌, ◌*◌, ◌/◌, ◌%◌, Bool, true, false, not, ◌&&◌, ◌||◌, Option, none, some,
  List, [], ◌∷◌, ◌==◌, ltb, leb, if◌then◌else◌, bit_and,
}
use efes_os.Base.Words.{add32, sub32, add64, mul32}
use efes_os.Base.Arrays.{update}
use efes_os.Fat.{
  FatVolume, Sector, sector_size, end_of_chain, bad_cluster, attribute_directory,
  attribute_volume_id, attribute_long_name, read_sector, read_u16,
}
use efes_os.Fat.Names.{short_name_from_text, name_matches}

unfoldable pub is_cluster : FatVolume → ℕ → Bool
is_cluster volume cluster = not (ltb cluster 2 || leb (add32 volume.cluster_count 2) cluster)

-- The `n` rounds of the loop over the copies of the table that are left at `fat_index`.
unfoldable pub mirrors_agree : FatVolume → Sector → ℕ → ℕ → ℕ → Bool
mirrors_agree volume primary offset fat_index zero = true
mirrors_agree volume primary offset fat_index (suc n) =
    let lba =
      add64 (add64 volume.fat_start (mul32 fat_index volume.sectors_per_fat))
        (offset / sector_size) in
    let rest = mirrors_agree volume primary offset (fat_index + 1) n in
    elim (read_sector volume lba) [
      | none ↦ false
      | some mirror ↦
          if not (mirror (offset % sector_size) == primary (offset % sector_size))
            || not (mirror (offset % sector_size + 1) == primary (offset % sector_size + 1))
          then false
          else rest
    ]

unfoldable pub read_fat_entry : FatVolume → ℕ → Option ℕ
read_fat_entry volume cluster =
    if not (is_cluster volume cluster)
    then none
    else let offset = mul32 cluster 2 in
      elim (read_sector volume (add64 volume.fat_start (offset / sector_size))) [
        | none ↦ none
        | some primary ↦
            let next_cluster = read_u16 primary (offset % sector_size) in
            if not (mirrors_agree volume primary offset 1 (volume.fat_count - 1))
            then none
            else if not (next_cluster == bad_cluster) && ltb next_cluster end_of_chain
            then some next_cluster
            else none
      ]

pub record FatDirectory : Type 0 where
  pub cluster : ℕ
  pub root : Bool

-- How a part of a directory's search ends: with the entry, with the answer that there is none, or with
-- nothing yet.
pub data Scan : Type 0 where
  found : (ℕ → ℕ) → Scan
  ended : Scan
  continues : Scan

unfoldable pub item_at : Sector → ℕ → ℕ → ℕ
item_at sector item index = sector (item * 32 + index)

unfoldable pub entry_is_skipped : (ℕ → ℕ) → Bool
entry_is_skipped entry =
    (entry 0 == 0xE5)
    || (entry 11 == attribute_long_name)
    || not (bit_and (entry 11) attribute_volume_id == 0)

-- The `n` rounds of the loop over the items of a sector that are left at `item`.
unfoldable pub scan_items : FatVolume → Bool → (ℕ → ℕ) → Sector → ℕ → ℕ → ℕ → Scan
scan_items volume root short_name sector sector_index item zero = continues
scan_items volume root short_name sector sector_index item (suc n) =
    let candidate = item_at sector item in
    let rest = scan_items volume root short_name sector sector_index (item + 1) n in
    if root && leb volume.root_entries (add32 (mul32 sector_index 16) item)
    then continues
    else if candidate 0 == 0
    then ended
    else if entry_is_skipped candidate
    then rest
    else if name_matches candidate short_name
    then found candidate
    else rest

unfoldable pub data_lba : FatVolume → ℕ → ℕ → ℕ
data_lba volume cluster sector_index =
    add64 (add64 volume.data_start (mul32 (sub32 cluster 2) volume.sectors_per_cluster))
      sector_index

-- The `n` rounds of the loop over the sectors that are left at `sector_index`.
unfoldable pub scan_sectors : FatVolume → Bool → ℕ → (ℕ → ℕ) → ℕ → ℕ → Scan
scan_sectors volume root cluster short_name sector_index zero = continues
scan_sectors volume root cluster short_name sector_index (suc n) =
    let lba =
      if root then add64 volume.root_start sector_index else data_lba volume cluster sector_index in
    elim (read_sector volume lba) [
      | none ↦ ended
      | some sector ↦ elim (scan_items volume root short_name sector sector_index 0 16) [
        | found entry ↦ found entry
        | ended ↦ ended
        | continues ↦ scan_sectors volume root cluster short_name (sector_index + 1) n
      ]
    ]

-- The `n` rounds that the guard still allows.
unfoldable pub scan_chain : FatVolume → Bool → (ℕ → ℕ) → ℕ → ℕ → Option (ℕ → ℕ)
scan_chain volume root short_name cluster zero = none
scan_chain volume root short_name cluster (suc n) =
    let sector_count =
      if root then add32 volume.root_entries 15 / 16 else volume.sectors_per_cluster in
    elim (scan_sectors volume root cluster short_name 0 sector_count) [
      | found entry ↦ some entry
      | ended ↦ none
      | continues ↦ elim root [
        | true ↦ none
        | false ↦ elim (read_fat_entry volume cluster) [
          | none ↦ none
          | some next_cluster ↦ scan_chain volume root short_name next_cluster n
        ]
      ]
    ]

-- There is one round before the guard is tested.
unfoldable pub find_entry_in_directory : FatVolume → FatDirectory → (ℕ → ℕ) → Option (ℕ → ℕ)
find_entry_in_directory volume directory short_name =
    if not directory.root && not (is_cluster volume directory.cluster)
    then none
    else scan_chain volume directory.root short_name directory.cluster
        (suc (volume.cluster_count - 1))

unfoldable pub find_component : FatVolume → FatDirectory → (ℕ → ℕ) → ℕ → Option (ℕ → ℕ)
find_component volume directory component length =
    if length == 0 then none else elim (short_name_from_text (some (update component length 0))) [
      | none ↦ none
      | some short_name ↦ find_entry_in_directory volume directory short_name
    ]

unfoldable pub subdirectory : FatVolume → (ℕ → ℕ) → Option FatDirectory
subdirectory volume entry =
    if bit_and (entry 11) attribute_directory == 0
    then none
    else if not (is_cluster volume (read_u16 entry 26))
    then none
    else some (record { cluster = read_u16 entry 26; root = false })

-- The rest of the path, where `length` bytes of the component at hand are copied.
unfoldable pub find_from : FatVolume → FatDirectory → (ℕ → ℕ) → ℕ → List ℕ → Option (ℕ → ℕ)
find_from volume directory component length [] = find_component volume directory component length
find_from volume directory component length (c ∷ rest) = elim (c == 47) [
  | false ↦ elim (leb 13 (length + 1)) [
    | true ↦ none
    | false ↦ find_from volume directory (update component length c) (length + 1) rest
  ]
  | true ↦ elim (find_component volume directory component length) [
    | none ↦ none
    | some entry ↦ elim (subdirectory volume entry) [
      | none ↦ none
      | some next ↦ elim rest [ [] ↦ none | _ ∷ _ ↦ find_from volume next (λ index. 0) 0 rest ]
    ]
  ]
]

unfoldable pub find_path : FatVolume → List ℕ → Option (ℕ → ℕ)
find_path volume path = find_from volume (record { cluster = 0; root = true }) (λ index. 0) 0 path
