-- ===== src/Ahci/Layout/Laws.antt =====
-- What a drive reads from a command that the driver has built.
use efes_os.Base.{
  ℕ, ◌+◌, ◌*◌, ◌/◌, ◌%◌, ◌^◌, ◌<◌, ◌≡◌, ◌≢◌, refl, Bool, true, false, not, ◌||◌, Option, none, some,
  ◌==◌, if◌then◌else◌, List, [], ◌∷◌, set, replicate, arith, if_each, get_or,
}
use efes_os.Ahci.Layout.{
  CommandHeader, CommandTable, build_read_command, read_is_valid, lba28_limit,
  lba48_sector_count_max,
}

-- The address that a drive assembles from the bytes of a frame.
pub lba_of_fis : Bool → List ℕ → ℕ
lba_of_fis true fis =
    get_or fis 4 0
    + get_or fis 5 0 * 2 ^ 8
    + get_or fis 6 0 * 2 ^ 16
    + get_or fis 8 0 * 2 ^ 24
    + get_or fis 9 0 * 2 ^ 32
    + get_or fis 10 0 * 2 ^ 40
lba_of_fis false fis =
    get_or fis 4 0 + get_or fis 5 0 * 2 ^ 8 + get_or fis 6 0 * 2 ^ 16 + get_or fis 7 0 % 16 * 2 ^ 24

-- The number of sectors that the kind of address can name.
abbrev pub limit : Bool → ℕ
limit lba48_supported = if lba48_supported then lba48_sector_count_max else lba28_limit

abbrev cleared_fis : List ℕ
cleared_fis = set (set (replicate 64 0) 0 0x27) 1 0x80

-- What a drive takes from a host-to-device frame with the command bit: the address and the number of
-- sectors of a read. The command byte names the kind of address, and the device byte has to ask for
-- addresses of sectors.
pub drive_reads : List ℕ → Option (ℕ × ℕ)
drive_reads fis =
    if not (get_or fis 0 0 == 0x27)
      || not (get_or fis 1 0 / 2 ^ 7 % 2 == 1)
      || not (get_or fis 7 0 / 2 ^ 6 % 2 == 1)
    then none
    else if get_or fis 2 0 == 0x25
    then some (lba_of_fis true fis, get_or fis 12 0 + get_or fis 13 0 * 2 ^ 8)
    else if get_or fis 2 0 == 0xC8
    then some (lba_of_fis false fis, get_or fis 12 0)
    else none

-- The regions of memory that a controller transfers: as many entries of the table as the header says,
-- of which the table has one.
pub regions : CommandHeader → CommandTable → List (ℕ × ℕ)
regions h t =
    if h.prdt_length == 0
    then []
    else (t.prdt.data_base, t.prdt.byte_count_and_flags % 2 ^ 22 + 1) ∷ []

too_far :
    (lba count : ℕ) (long : Bool)
    → limit long < lba + count
    → not (read_is_valid lba count long) ≢ false
unfolding read_is_valid
too_far lba count true over valid = ground arith
too_far lba count false over valid = ground arith

-- Nothing is built for a request that leaves the addresses of its kind or the length of a transfer.
pub build_read_command-refuses :
    (header : Option CommandHeader) (table : Option CommandTable)
    (table_physical data_physical lba count : ℕ) (long : Bool)
    → limit long < lba + count
    → build_read_command header table table_physical data_physical lba count long ≡ none
unfolding build_read_command
build_read_command-refuses header table table_physical data_physical lba count long over =
    if_each (λ o. o ≡ none) (not (read_is_valid lba count long)) _ _ (λ refused. refl)
      (λ valid. absurd (too_far lba count long over valid))
