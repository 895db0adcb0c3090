-- ===== src/BootInfo.antt =====
-- include/boot_info.h and memory/e820.c: the record that stage 2 hands to the kernel, its validation,
-- and the two passes over the BIOS memory map. A null pointer is `none`; the context pointer of the
-- handlers is the state that they thread.
pub mod Laws
use efes_os.Base.{
  ℕ, zero, suc, ◌+◌, ◌*◌, ◌%◌, Bool, true, false, not, ◌&&◌, ◌||◌, Option, none, some, bit_and,
  bit_or, ◌==◌, ltb, leb, if◌then◌else◌,
}
use efes_os.Base.Bits.{complement}
use efes_os.Base.Words.{add64}

pub record Entry : Type 0 where
  pub base_low : ℕ
  pub base_high : ℕ
  pub length_low : ℕ
  pub length_high : ℕ
  pub type : ℕ
  pub attributes : ℕ

pub record BootInfo : Type 0 where
  pub magic : ℕ
  pub boot_drive : ℕ
  pub memory_map_entry_count : ℕ
  pub memory_map_entry_size : ℕ
  pub vga_font_address : ℕ
  pub video_flags : ℕ
  pub memory_map : ℕ → Entry
  pub acpi_rsdp_address : ℕ

abbrev pub boot_info_magic : ℕ
boot_info_magic = 0x534F4645

abbrev pub max_memory_map_entries : ℕ
max_memory_map_entries = 32

abbrev pub memory_available : ℕ
memory_available = 1

unfoldable pub entry_base : Entry → ℕ
entry_base e = bit_or (e.base_high * 0x1_0000_0000) e.base_low

unfoldable pub entry_length : Entry → ℕ
entry_length e = bit_or (e.length_high * 0x1_0000_0000) e.length_low

-- The checks of the fixed fields, one for each operand of the condition.
unfoldable pub header_is_valid : BootInfo → Bool
header_is_valid info =
    info.magic == boot_info_magic
    && leb info.boot_drive 0xFF
    && info.memory_map_entry_size == 24
    && not (info.memory_map_entry_count == 0)
    && leb info.memory_map_entry_count max_memory_map_entries
    && bit_and info.video_flags (complement 32 3) == 0
    && font_is_valid
    && rsdp_is_valid
  where
    font_is_valid : Bool
    font_is_valid =
        if bit_and info.video_flags 1 == 0
        then info.vga_font_address == 0
        else leb 0x1000 info.vga_font_address && ltb info.vga_font_address 0x003FF000

    rsdp_is_valid : Bool
    rsdp_is_valid =
        info.acpi_rsdp_address == 0
        || (info.acpi_rsdp_address % 16 == 0
            && ((leb 0x00080000 info.acpi_rsdp_address && ltb info.acpi_rsdp_address 0x000A0000)
                || (leb 0x000E0000 info.acpi_rsdp_address
                    && ltb info.acpi_rsdp_address 0x00100000)))

unfoldable pub entry_is_valid : Entry → Bool
entry_is_valid e =
    not (entry_length e == 0)
    && leb (entry_base e) (add64 (entry_base e) (entry_length e))
    && not (e.type == 0)
    && bit_and e.attributes (complement 32 3) == 0

-- The loop over the map, with `n` entries left.
unfoldable pub entries_are_valid : ℕ → ℕ → (ℕ → Entry) → Bool
entries_are_valid zero index map = true
entries_are_valid (suc n) index map =
    entry_is_valid (map index) && entries_are_valid n (index + 1) map

unfoldable pub boot_info_is_valid : Option BootInfo → Bool
boot_info_is_valid none = false
boot_info_is_valid (some info) =
    header_is_valid info && entries_are_valid info.memory_map_entry_count 0 info.memory_map

-- Bit 0 of the attributes marks an entry that is in force.
unfoldable pub is_active : Entry → Bool
is_active e = not (bit_and e.attributes 1 == 0)

unfoldable pub is_usable_entry : Entry → Bool
is_usable_entry e = is_active e && e.type == memory_available

unfoldable pub is_reserved_entry : Entry → Bool
is_reserved_entry e = is_active e && not (e.type == memory_available)

module _ {S : Type 0} where
  -- A pass over the `n` entries from `index` on, calling the handler on those that pass the test.
  unfoldable pub apply_entries : (Entry → Bool) → (ℕ → ℕ → S → S) → ℕ → ℕ → (ℕ → Entry) → S → S
  apply_entries test handler zero index map s = s
  apply_entries test handler (suc n) index map s = apply_entries test handler n (index + 1) map (
      if test (map index) then handler (entry_base (map index)) (entry_length (map index)) s else s)

  unfoldable pub apply_memory_map :
      Option BootInfo → Option (ℕ → ℕ → S → S) → Option (ℕ → ℕ → S → S) → S → Bool × S
  apply_memory_map (some info) (some usable_handler) (some reserved_handler) s =
      if boot_info_is_valid (some info)
      then (
        true,
        apply_entries is_reserved_entry reserved_handler info.memory_map_entry_count 0
            info.memory_map
            (apply_entries is_usable_entry usable_handler info.memory_map_entry_count 0
              info.memory_map s),
      )
      else (false, s)
  apply_memory_map info usable_handler reserved_handler s = (false, s)
