-- ===== src/Journal/Log/Tests.antt =====
-- A log of one record and an empty sector.
use efes_os.Base.{ℕ, none, Bool, ◌+◌, ◌≤◌, ◌≡◌, refl, true, Option, some, ◌==◌, if◌then◌else◌}
use efes_os.Journal.{
  Sector, read_u16, read_u32, write_u16, write_u32, crc32_update, crc_bits, record_crc, all_zero,
  sector_is_empty, sequence_is_newer, region_fits, superblock_decode, superblock_encode,
  superblock_fields, superblock_crc,
}
use efes_os.Journal.Record.{
  JournalEntry, record_fields, copied, decode, decode_internal, decode_prepared, padding_is_zero,
  valid_name, valid_bytes,
}
use efes_os.Journal.Log.{scan_log, scan_from, ended, torn, tail_is_empty}
use efes_os.Journal.Append.{open_log}
use efes_os.Journal.Log.Records.{Records, scan_log-Records}

-- "A"
abbrev letter : ℕ → ℕ
letter index = if index == 0 then 65 else 0

abbrev blank_entry : JournalEntry
blank_entry = record {
  operation = 0;
  sequence = 0;
  name_length = 0;
  content_length = 0;
  name = λ index. 0;
  content = λ index. 0;
}

abbrev removal_fields : Sector
removal_fields = record_fields 2 8 1 0 letter (λ index. 0)

abbrev disk : ℕ → Option Sector
disk lba =
    if lba == 1
    then some (write_u32 (write_u32 removal_fields 16 (record_crc removal_fields)) 508 0xC0DE_17ED)
    else some (λ index. 0)

one_removal : scan_log disk 0 blank_entry 2 ≡ some (1, 8)
unfolding scan_log scan_from ended torn tail_is_empty read_u16 read_u32 write_u16 write_u32
    crc32_update crc_bits record_crc all_zero sector_is_empty sequence_is_newer record_fields copied
    decode decode_internal decode_prepared padding_is_zero valid_name valid_bytes
one_removal = refl

scan_log-Records_example : (1 ≤ 2) × Records disk 0 blank_entry 0 0 1 8
scan_log-Records_example = scan_log-Records disk 0 blank_entry 2 1 8 one_removal

-- The same with a superblock, and a second pass that cannot read the record.
abbrev whole_disk : ℕ → Option Sector
whole_disk lba = if lba == 0 then superblock_encode (some (λ index. 0)) 2 else disk lba

abbrev lost : ℕ → Option Sector
lost lba = none

whole_disk-opens : open_log whole_disk 0 3 blank_entry ≡ some (2, 1, 8)
unfolding open_log scan_log scan_from ended torn tail_is_empty read_u16 read_u32 write_u16 write_u32
    crc32_update crc_bits record_crc all_zero sector_is_empty sequence_is_newer record_fields copied
    decode decode_internal decode_prepared padding_is_zero valid_name valid_bytes region_fits
    superblock_decode superblock_encode superblock_fields superblock_crc
whole_disk-opens = refl

abbrev add_sequence : JournalEntry → ℕ → Bool × ℕ
add_sequence e s = (true, s + e.sequence)
