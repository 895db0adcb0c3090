-- ===== src/Ahci/Layout.antt =====
-- drivers/ahci_layout.c and drivers/ahci_layout.h: the identification of a drive and the command
-- structures. The packed structures are records of their fields; their sizes, which the source asserts
-- statically, are not stated again. A pointer that may be null is an `Option`, and so is what a
-- function writes only where it succeeds. An identify block is a function of the word's index.
pub mod Laws
use efes_os.Base.{
  ℕ, zero, suc, ◌+◌, ◌-◌, ◌*◌, ◌/◌, ◌%◌, ◌^◌, Bool, true, false, not, ◌&&◌, ◌||◌, Option, none,
  some, bit_and, bit_or, ◌==◌, ltb, leb, if◌then◌else◌, List, set, replicate, ◌>>=◌,
}
use efes_os.Base.Bits.{complement}

abbrev pub lba28_limit : ℕ
lba28_limit = 0x1000_0000

abbrev pub lba48_sector_count_max : ℕ
lba48_sector_count_max = 0x1_0000_0000_0000

abbrev pub ahci_sector_size : ℕ
ahci_sector_size = 512

abbrev pub max_transfer_sectors : ℕ
max_transfer_sectors = 8

abbrev pub ata_signature : ℕ
ata_signature = 0x0000_0101

abbrev pub detection_mask : ℕ
detection_mask = 0x0000_000F

abbrev pub Words : Type 0
Words = ℕ → ℕ

pub record CommandHeader : Type 0 where
  pub flags : ℕ
  pub prdt_length : ℕ
  pub prd_byte_count : ℕ
  pub command_table_base : ℕ
  pub command_table_base_upper : ℕ
  pub reserved : List ℕ

pub record Prd : Type 0 where
  pub data_base : ℕ
  pub data_base_upper : ℕ
  pub reserved : ℕ
  pub byte_count_and_flags : ℕ

pub record CommandTable : Type 0 where
  pub command_fis : List ℕ
  pub atapi_command : List ℕ
  pub reserved : List ℕ
  pub prdt : Prd

pub words_equal : Words → Words → ℕ → ℕ → Bool
words_equal left right first zero = true
words_equal left right first (suc count) =
    if not (left first == right first) then false else words_equal left right (suc first) count

-- Both structures, cleared and filled in.
pub prepared : ℕ → ℕ → ℕ → CommandHeader × CommandTable
prepared table_physical data_physical byte_count = (
  record {
    flags = 5;
    prdt_length = 1;
    prd_byte_count = 0;
    command_table_base = table_physical;
    command_table_base_upper = 0;
    reserved = replicate 4 0;
  },
  record {
    command_fis = set (set (replicate 64 0) 0 0x27) 1 0x80;
    atapi_command = replicate 16 0;
    reserved = replicate 48 0;
    prdt = record {
      data_base = data_physical;
      data_base_upper = 0;
      reserved = 0;
      byte_count_and_flags = byte_count - 1;
    };
  },
)

pub prepare_data_command :
    Option CommandHeader → Option CommandTable → ℕ → ℕ → ℕ → Option (CommandHeader × CommandTable)
prepare_data_command none table table_physical data_physical byte_count = none
prepare_data_command (some header) none table_physical data_physical byte_count = none
prepare_data_command (some header) (some table) table_physical data_physical byte_count =
    if (byte_count == 0)
      || ltb (ahci_sector_size * max_transfer_sectors) byte_count
      || not (bit_and table_physical 0x7F == 0)
      || not (bit_and data_physical 1 == 0)
    then none
    else some (prepared table_physical data_physical byte_count)

pub link_is_active : ℕ → Bool
link_is_active sata_status =
    let detection = bit_and sata_status 0x0F in
    let power = bit_and (sata_status / 2 ^ 8) 0x0F in (detection == 3) && (power == 1)

pub link_is_established : ℕ → ℕ → Bool
link_is_established sata_status signature =
    link_is_active sata_status && (signature == ata_signature)

pub port_is_usable_sata : ℕ → ℕ → ℕ → ℕ → Bool
port_is_usable_sata implemented_ports port sata_status signature =
    ltb port 32
    && not (bit_and implemented_ports (2 ^ port) == 0)
    && link_is_established sata_status signature

pub comreset_assert_control : ℕ → ℕ
comreset_assert_control sata_control =
    bit_or (bit_and sata_control (complement 32 detection_mask)) 1

pub comreset_release_control : ℕ → ℕ
comreset_release_control sata_control = bit_and sata_control (complement 32 detection_mask)

-- The number of sectors and whether the drive takes 48-bit addresses.
unfoldable pub identify_capacity : Option Words → Option (ℕ × Bool)
identify_capacity none = none
identify_capacity (some identify) =
    let supports_lba48 = not (bit_and (identify 83) 0x0400 == 0) in
    let long_count =
      bit_or (bit_or (bit_or (identify 100) (identify 101 * 2 ^ 16)) (identify 102 * 2 ^ 32))
        (identify 103 * 2 ^ 48) in
    let short_count = bit_or (identify 61 * 2 ^ 16) (identify 60) in
    if bit_and (identify 49) 0x0200 == 0
    then none
    else if supports_lba48
    then if ltb lba48_sector_count_max long_count || (long_count == 0)
      then none
      else some (long_count, true)
    else if ltb lba28_limit short_count || (short_count == 0)
    then none
    else some (short_count, false)

pub same_flag : Bool → Bool → Bool
same_flag true b = b
same_flag false b = not b

pub identify_same_device : Option Words → Option Words → Bool
identify_same_device none candidate = false
identify_same_device (some baseline) none = false
identify_same_device (some baseline) (some candidate) = elim (identify_capacity (some baseline)) [
  | none ↦ false
  | some (baseline_sectors, baseline_lba48) ↦ elim (identify_capacity (some candidate)) [
    | none ↦ false
    | some (candidate_sectors, candidate_lba48) ↦
        (baseline_sectors == candidate_sectors)
        && same_flag baseline_lba48 candidate_lba48
        && (baseline 0 == candidate 0)
        && (baseline 49 == candidate 49)
        && words_equal baseline candidate 10 10
        && words_equal baseline candidate 23 24
  ]
]

pub build_identify_command :
    Option CommandHeader → Option CommandTable → ℕ → ℕ → Option (CommandHeader × CommandTable)
build_identify_command header table table_physical data_physical = do
  (h, t) ← prepare_data_command header table table_physical data_physical ahci_sector_size
  some (h, record t { command_fis = set t.command_fis 2 0xEC })

pub read_is_valid : ℕ → ℕ → Bool → Bool
read_is_valid lba count lba48_supported =
    let limit = if lba48_supported then lba48_sector_count_max else lba28_limit in
    not (count == 0) && leb count max_transfer_sectors && ltb lba limit && leb count (limit - lba)

-- The command's frame, byte by byte.
pub fill_read_fis : List ℕ → ℕ → ℕ → Bool → List ℕ
fill_read_fis fis lba count true =
    let low =
      set (set (set (set fis 2 0x25) 4 (lba % 0x100)) 5 (lba / 2 ^ 8 % 0x100)) 6
        (lba / 2 ^ 16 % 0x100) in
    let high =
      set (set (set (set low 7 0x40) 8 (lba / 2 ^ 24 % 0x100)) 9 (lba / 2 ^ 32 % 0x100)) 10
        (lba / 2 ^ 40 % 0x100) in
    set (set high 12 count) 13 0
fill_read_fis fis lba count false =
    let low =
      set (set (set (set fis 2 0xC8) 4 (lba % 0x100)) 5 (lba / 2 ^ 8 % 0x100)) 6
        (lba / 2 ^ 16 % 0x100) in
    set (set low 7 (bit_or 0xE0 (bit_and (lba / 2 ^ 24) 0x0F) % 0x100)) 12 count

pub build_read_command :
    Option CommandHeader
    → Option CommandTable
    → ℕ
    → ℕ
    → ℕ
    → ℕ
    → Bool
    → Option (CommandHeader × CommandTable)
build_read_command header table table_physical data_physical lba count lba48_supported =
    if not (read_is_valid lba count lba48_supported) then none else do
      (h, t) ←
          prepare_data_command header table table_physical data_physical (count * ahci_sector_size)
      some (h, record t { command_fis = fill_read_fis t.command_fis lba count lba48_supported })
