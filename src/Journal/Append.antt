-- ===== src/Journal/Append.antt =====
-- The next sequence number and the append of a record in fs/journal.c. The callbacks act on a disk of
-- any type. The buffers on the stack begin as the arguments `before` and `entry`.
pub mod Shape
pub mod Publish
pub mod Open
pub mod Atomic
pub mod Success
mod Tests
use efes_os.Base.{
  ℕ, ◌+◌, Bool, true, false, not, ◌||◌, Option, none, some, is_some, ltb, leb, ◌==◌, ◌>>=◌,
  if◌then◌else◌,
}
use efes_os.Base.Words.{add32, add64}
use efes_os.Journal.{
  Sector, commit_offset, journal_commit, write_u32, sequence_is_newer, superblock_decode,
  region_fits, max_data_sectors,
}
use efes_os.Journal.Record.{JournalEntry, encode_internal, decode}
use efes_os.Journal.Log.{scan_log}

-- The size of the log, its count of records and their last sequence number, where the region, the
-- superblock and the log are in order.
unfoldable pub open_log : (ℕ → Option Sector) → ℕ → ℕ → JournalEntry → Option (ℕ × ℕ × ℕ)
open_log read start_lba sector_count entry =
    if ltb sector_count 2
      || ltb (max_data_sectors + 1) sector_count
      || not (region_fits start_lba sector_count)
    then none
    else do
      superblock ← read start_lba
      data_sectors ← superblock_decode (some superblock)
      if ltb sector_count (data_sectors + 1)
          then none
          else elim (scan_log read start_lba entry data_sectors) [
            | none ↦ none
            | some (count, last) ↦ some (data_sectors, count, last)
          ]

unfoldable pub journal_next_sequence : (ℕ → Option Sector) → ℕ → ℕ → JournalEntry → Option ℕ
journal_next_sequence read start_lba sector_count entry =
    elim (open_log read start_lba sector_count entry) [
      | none ↦ none
      | some (data_sectors, count, last) ↦ if last == 0xFFFF_FFFF then none else some (add32 last 1)
    ]

module _ {Disk : Type 0} (read : Disk → ℕ → Option Sector)
    (write : ℕ → Sector → Disk → Bool × Disk) where
  -- The second write, which exposes the record, and the check of what is then read.
  unfoldable pub commit : ℕ → Sector → JournalEntry → Disk → Bool × Disk
  commit target_lba sector entry disk =
      let (ok, after) = write target_lba (write_u32 sector commit_offset journal_commit) disk in
      let checked : Bool = elim (read after target_lba) [
        | none ↦ false
        | some found ↦ is_some (decode (some found) (some entry))
      ] in
      (if ok then checked else false, after)

  -- The two writes of a record.
  unfoldable pub publish : ℕ → Sector → JournalEntry → Disk → Bool × Disk
  publish target_lba sector entry disk =
      let (ok, after) = write target_lba sector disk in
      if not ok then (false, after) else commit target_lba sector entry after

  unfoldable pub journal_append :
      ℕ
      → ℕ
      → ℕ
      → ℕ
      → Option (ℕ → ℕ)
      → Option (ℕ → ℕ)
      → ℕ
      → Sector
      → JournalEntry
      → Disk
      → Bool × Disk
  journal_append start_lba sector_count operation sequence name content content_length before entry
        disk =
      elim (open_log (read disk) start_lba sector_count entry) [
        | none ↦ (false, disk)
        | some (data_sectors, count, last) ↦
            if leb data_sectors count || not (sequence_is_newer sequence last)
            then (false, disk)
            else elim (encode_internal (some before) operation sequence name content content_length
                false) [
                  | none ↦ (false, disk)
                  | some sector ↦ publish (add64 (add64 start_lba 1) count) sector entry disk
                ]
      ]
