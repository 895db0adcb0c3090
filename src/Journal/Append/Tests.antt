-- ===== src/Journal/Append/Tests.antt =====
-- An append to an empty log of two sectors.
use efes_os.Base.{
  ℕ, ◌⊎◌, inr, not, ◌+◌, ◌≡◌, ◌≢◌, ◌<◌, refl, Bool, true, false, Option, none, some, ◌==◌,
  if◌then◌else◌, arith,
}
use efes_os.Base.Arrays.{update}
use efes_os.Journal.{
  Sector, read_u16, read_u32, write_u16, write_u32, crc32_update, crc_bits, record_crc, all_zero,
  sector_is_empty, sequence_is_newer, region_fits, superblock_decode, superblock_encode,
  superblock_fields, superblock_crc,
}
use efes_os.Journal.Record.{
  JournalEntry, record_fields, valid_name, valid_bytes, encode_internal, bounded_length,
  bounded_from,
}
use efes_os.Journal.Log.{scan_log, scan_from, ended, torn, tail_is_empty}
use efes_os.Journal.Append.{open_log, journal_append, journal_next_sequence}
use efes_os.Journal.Append.Atomic.{stopping, journal_append-Atomic, open_log-interrupted}
use efes_os.Journal.Append.Success.{journal_append-next_sequence}

abbrev Disk : Type 0
Disk = ℕ → Option Sector

abbrev write_sector : ℕ → Sector → Disk → Bool × Disk
write_sector lba s d = (true, update d lba (some s))

abbrev empty_log : Disk
empty_log lba = if lba == 10 then superblock_encode (some (λ i. 0)) 2 else some (λ i. 0)

abbrev letter : ℕ → ℕ
letter i = if i == 0 then 65 else 0

letter-byte : (i : ℕ) → letter i < 0x100
letter-byte i = ground arith

abbrev blank_entry : JournalEntry
blank_entry = record {
  operation = 0;
  sequence = 0;
  name_length = 0;
  content_length = 0;
  name = λ index. 0;
  content = λ index. 0;
}

read_back :
    (lba : ℕ) (s : Sector) (d : Disk)
    → (write_sector lba s d).0 ≡ true
    → (write_sector lba s d).1 lba ≡ some s
read_back lba s d h = ground arith

-- Every write reaches the disk, but the one of a committed record reports a failure.
abbrev flush_fails : ℕ → Sector → Disk → Bool × Disk
flush_fails lba s d = (not (s 508 == 0xED), update d lba (some s))

flush_read_back :
    (lba : ℕ) (s : Sector) (d : Disk)
    → (flush_fails lba s d).0 ≡ true
    → (flush_fails lba s d).1 lba ≡ some s
flush_read_back lba s d h = ground arith

flush_others :
    (lba other : ℕ) (s : Sector) (d : Disk) → other ≢ lba → (flush_fails lba s d).1 other ≡ d other
flush_others lba other s d h = ground arith

flush_written :
    (lba : ℕ) (s : Sector) (d : Disk)
    → (flush_fails lba s d).0 ≡ false
    → ((flush_fails lba s d).1 lba ≡ d lba) ⊎ ((flush_fails lba s d).1 lba ≡ some s)
flush_written lba s d h = inr (ground arith)

empty_log_opens : open_log empty_log 10 3 blank_entry ≡ some (2, 0, 0)
unfolding open_log scan_log scan_from ended torn tail_is_empty read_u16 read_u32 write_u16 write_u32
    crc32_update crc_bits all_zero sector_is_empty region_fits superblock_decode superblock_encode
    superblock_fields superblock_crc
empty_log_opens = refl

abbrev appended : Bool × Disk
appended =
    journal_append (λ (d : Disk). d) flush_fails 10 3 2 1 (some letter) none 0 (λ i. 0) blank_entry
      empty_log

journal_append-Atomic_example :
    (open_log appended.1 10 3 blank_entry ≡ some (2, 0 + 1, 1))
    ⊎ ((appended.0 ≡ false) × (open_log appended.1 10 3 blank_entry ≡ some (2, 0, 0)))
journal_append-Atomic_example =
    journal_append-Atomic (λ (d : Disk). d) flush_fails flush_read_back flush_others flush_written
      10 3 blank_entry 2 1 (some letter) none 0 (λ i. 0) empty_log 2 0 0 (omega arith) letter-byte
      empty_log_opens

-- The prepared record of the removal of "A" under the number 1.
abbrev removal_fields : Sector
removal_fields = record_fields 2 1 1 0 letter (λ index. 0)

abbrev removal : Sector
removal = write_u32 removal_fields 16 (record_crc removal_fields)

removal_is_encoded : encode_internal (some (λ i. 0)) 2 1 (some letter) none 0 false ≡ some removal
unfolding encode_internal valid_name valid_bytes bounded_length bounded_from
removal_is_encoded = refl

one_is_newer : sequence_is_newer 1 0 ≡ true
unfolding sequence_is_newer
one_is_newer = refl

open_log-interrupted_example :
    open_log
      (journal_append
        (λ (m : ℕ × Disk). m.1)
        (stopping flush_fails)
        10
        3
        2
        1
        (some letter)
        none
        0
        (λ i. 0)
        blank_entry
        (1, empty_log)).1.1
      10
      3
      blank_entry
    ≡ some (2, 0, 0)
open_log-interrupted_example =
    open_log-interrupted (λ (d : Disk). d) flush_fails flush_read_back flush_others flush_written 10
      3 blank_entry 1 2 1 (some letter) none 0 (λ i. 0) empty_log 2 0 0 (omega arith) (omega arith)
      letter-byte empty_log_opens

first_number : journal_next_sequence empty_log 10 3 blank_entry ≡ some 1
unfolding journal_next_sequence
first_number = rw (journal_next_sequence, empty_log_opens) refl

journal_append-next_sequence_example :
    (journal_append
      (λ (d : Disk). d)
      write_sector
      10
      3
      2
      1
      (some letter)
      none
      0
      (λ i. 0)
      blank_entry
      empty_log).0
    ≡ true
journal_append-next_sequence_example =
    journal_append-next_sequence (λ (d : Disk). d) write_sector read_back 10 3 blank_entry 2 1
      (some letter) none 0 (λ i. 0) removal empty_log 2 0 0 (omega arith) letter-byte
      empty_log_opens (omega arith) first_number removal_is_encoded (λ lba s e. refl)
