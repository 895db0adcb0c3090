-- ===== src/Journal/Log.antt =====
-- The scan and the replay of a log in fs/journal.c. The callback that reads a sector is an argument; a
-- read that fails is `none`, and no read changes the disk. In one pass over the log the answer depends
-- on the address alone; the second pass of a replay has answers of its own, `again`.
pub mod Records
pub mod Replay
mod Tests
use efes_os.Base.{
  ℕ, zero, suc, ◌+◌, Bool, true, false, not, ◌&&◌, ◌||◌, ltb, Option, none, some, ◌==◌,
  if◌then◌else◌,
}
use efes_os.Base.Words.{add64}
use efes_os.Journal.{
  Sector, commit_offset, read_u32, sector_is_empty, sequence_is_newer, superblock_decode,
  region_fits, max_data_sectors,
}
use efes_os.Journal.Record.{JournalEntry, decode, decode_prepared}

module _ (read : ℕ → Option Sector) (start_lba : ℕ) (entry : JournalEntry) where
  abbrev pub lba_at : ℕ → ℕ
  lba_at index = add64 (add64 start_lba 1) index

  -- The `n` rounds of the second loop that are left at `index`.
  unfoldable pub tail_is_empty : ℕ → ℕ → Bool
  tail_is_empty index zero = true
  tail_is_empty index (suc n) = elim (read (lba_at index)) [
    | none ↦ false
    | some sector ↦ if not (sector_is_empty sector) then false else tail_is_empty (index + 1) n
  ]

  -- The count of the records and the last sequence number, where the rest of the log is empty.
  unfoldable pub ended : Bool → ℕ → ℕ → Option (ℕ × ℕ)
  ended tail_empty count previous = if tail_empty then some (count, previous) else none

  -- A sector that is no record is accepted only as a prepared record at the end.
  unfoldable pub torn : Sector → Bool → ℕ → ℕ → Option (ℕ × ℕ)
  torn sector tail_empty count previous = elim (decode_prepared (some sector) (some entry)) [
    | none ↦ none
    | some prepared ↦
        if (read_u32 sector commit_offset == 0) && sequence_is_newer prepared.sequence previous
        then ended tail_empty count previous
        else none
  ]

  -- The `n` rounds of the first loop that are left at `index`.
  unfoldable pub scan_from : ℕ → ℕ → ℕ → ℕ → Option (ℕ × ℕ)
  scan_from index previous count zero = some (count, previous)
  scan_from index previous count (suc n) = elim (read (lba_at index)) [
    | none ↦ none
    | some sector ↦
        if sector_is_empty sector
        then ended (tail_is_empty index (suc n)) count previous
        else elim (decode (some sector) (some entry)) [
          | none ↦ torn sector (tail_is_empty (index + 1) n) count previous
          | some found ↦
              let rest = scan_from (index + 1) found.sequence (count + 1) n in
              if sequence_is_newer found.sequence previous
              then rest
              else torn sector (tail_is_empty (index + 1) n) count previous
        ]
  ]

  unfoldable pub scan_log : ℕ → Option (ℕ × ℕ)
  scan_log data_sectors = scan_from 0 0 0 data_sectors

-- The consumer of the records acts on a state of its own.
module _ {Consumer : Type 0} (read again : ℕ → Option Sector) (start_lba : ℕ) (entry : JournalEntry)
    (apply : JournalEntry → Consumer → Bool × Consumer) where
  -- The `n` rounds of the second pass that are left at `index`.
  unfoldable pub apply_from : ℕ → ℕ → Consumer → Bool × Consumer
  apply_from index zero state = (true, state)
  apply_from index (suc n) state = elim (again (lba_at again start_lba entry index)) [
    | none ↦ (false, state)
    | some sector ↦ elim (decode (some sector) (some entry)) [
      | none ↦ (false, state)
      | some found ↦
          let (ok, after) = apply found state in
          let rest = apply_from (index + 1) n after in if not ok then (false, after) else rest
    ]
  ]

  -- The two passes over the log of a superblock: the result, the count of applied records and the
  -- consumer.
  unfoldable pub replay_log : ℕ → Consumer → Bool × ℕ × Consumer
  replay_log data_sectors state = elim (scan_log read start_lba entry data_sectors) [
    | none ↦ (false, 0, state)
    | some (count, last) ↦
        let (ok, after) = apply_from 0 count state in (ok, if ok then count else 0, after)
  ]

  unfoldable pub replay : ℕ → Consumer → Bool × ℕ × Consumer
  replay sector_count state =
      if ltb sector_count 2
        || ltb (max_data_sectors + 1) sector_count
        || not (region_fits start_lba sector_count)
      then (false, 0, state)
      else elim (read start_lba) [
        | none ↦ (false, 0, state)
        | some sector ↦ elim (superblock_decode (some sector)) [
          | none ↦ (false, 0, state)
          | some data_sectors ↦
              if ltb sector_count (data_sectors + 1)
              then (false, 0, state)
              else replay_log data_sectors state
        ]
      ]
