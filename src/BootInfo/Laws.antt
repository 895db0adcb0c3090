-- ===== src/BootInfo/Laws.antt =====
-- What a valid boot record promises of its memory map, and the order of the two passes.
use efes_os.Base.{ℕ, zero, suc, ◌+◌, ◌≤◌, ◌<◌, ◌≡◌, ◌≢◌, ap, true, some, arith}
use efes_os.Base.Words.{bit_or-disjoint}
use efes_os.BootInfo.{
  Entry, BootInfo, entry_base, entry_length, entry_is_valid, entries_are_valid, boot_info_is_valid,
  header_is_valid,
}

-- The fields of an entry are 32-bit words.
pub record IsWords (e : Entry) : Type 0 where
  pub base_low : e.base_low < 0x1_0000_0000
  pub base_high : e.base_high < 0x1_0000_0000
  pub length_low : e.length_low < 0x1_0000_0000
  pub length_high : e.length_high < 0x1_0000_0000

pub entry_base-lt : {e : Entry} → IsWords e → entry_base e < 0x1_0000_0000_0000_0000
unfolding entry_base
entry_base-lt {e} w = omega (arith, bit_or-disjoint 32 e.base_high e.base_low w.base_low)

pub entry_length-lt : {e : Entry} → IsWords e → entry_length e < 0x1_0000_0000_0000_0000
unfolding entry_length
entry_length-lt {e} w = omega (arith, bit_or-disjoint 32 e.length_high e.length_low w.length_low)

-- A valid entry is a range that is not empty and does not go round the 64-bit address space.
pub entry_is_valid-range :
    {e : Entry}
    → IsWords e
    → entry_is_valid e ≡ true
    → (0 < entry_length e) × (entry_base e + entry_length e < 0x1_0000_0000_0000_0000)
unfolding entry_is_valid
entry_is_valid-range {e} w h = ground (arith, entry_base-lt {e = e} w, entry_length-lt {e = e} w)

entry_is_valid-type : (e : Entry) → entry_is_valid e ≡ true → e.type ≢ 0
unfolding entry_is_valid
entry_is_valid-type e h = ground arith

pub entries_are_valid-at :
    (n index j : ℕ) (map : ℕ → Entry)
    → entries_are_valid n index map ≡ true
    → index ≤ j
    → j < index + n
    → entry_is_valid (map j) ≡ true
unfolding entries_are_valid
entries_are_valid-at zero index j map h p q = absurd (omega arith)
entries_are_valid-at (suc n) index j map h p q = ground (
  arith,
  entries_are_valid-at n (index + 1) j map,
  ap (λ k. entry_is_valid (map k)) {x = j} {y = index},
)

-- `boot_info_is_valid` accepts only records with one to 32 memory map entries, none of them empty,
-- none of type 0 and none that goes round the 64-bit address space.
pub boot_info_is_valid-range :
    (info : BootInfo) (j : ℕ)
    → boot_info_is_valid (some info) ≡ true
    → j < info.memory_map_entry_count
    → IsWords (info.memory_map j)
    → (info.memory_map_entry_count ≤ 32)
      × ((info.memory_map j).type ≢ 0)
      × (0 < entry_length (info.memory_map j))
      × (entry_base (info.memory_map j) + entry_length (info.memory_map j)
          < 0x1_0000_0000_0000_0000)
unfolding boot_info_is_valid header_is_valid
boot_info_is_valid-range info j h lt w =
    let valid : entry_is_valid (info.memory_map j) ≡ true =
      entries_are_valid-at info.memory_map_entry_count 0 j info.memory_map (ground arith)
        (omega arith) (omega arith) in
    let range = entry_is_valid-range {e = info.memory_map j} w valid in
    (ground arith, entry_is_valid-type (info.memory_map j) valid, range.0, range.1)
