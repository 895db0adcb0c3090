-- ===== src/Journal/Append/Open.antt =====
-- What opens a log of fs/journal.c, and how it opens where the sector behind its records has changed.
use mathlib.Core.Option.{some-injective, none-ne-some}
use efes_os.Base.{
  ℕ, ◌+◌, ◌≤◌, ◌<◌, ◌≡◌, ◌≢◌, refl, ap, sym, ◌∙◌, subst, true, false, not, ◌||◌, ltb, Option, none,
  some, arith, if_each, Option-cases, inl, inr,
}
use efes_os.Base.Words.{add64}
use efes_os.Journal.{Sector, sequence_is_newer, write_u32, region_fits, superblock_decode}
use efes_os.Journal.Record.{JournalEntry}
use efes_os.Journal.Record.Encoded.{IsEncoded}
use efes_os.Journal.Log.{lba_at, scan_log}
use efes_os.Journal.Append.{open_log}
use efes_os.Journal.Append.Publish.{scan_log-prepared, scan_log-committed}

-- What it takes to open a log.
pub record IsOpen (read : ℕ → Option Sector) (start_lba sector_count : ℕ) (entry : JournalEntry)
    (data_sectors count last : ℕ) : Type 0 where
  pub large : 2 ≤ sector_count
  pub small : sector_count ≤ 1025
  pub fits : region_fits start_lba sector_count ≡ true
  pub superblock : Sector
  pub read_first : read start_lba ≡ some superblock
  pub decoded : superblock_decode (some superblock) ≡ some data_sectors
  pub within : data_sectors + 1 ≤ sector_count
  pub scanned : scan_log read start_lba entry data_sectors ≡ some (count, last)

module _ (read : ℕ → Option Sector) (start_lba sector_count : ℕ) (entry : JournalEntry)
    (data_sectors count last : ℕ) where
  pub IsOpen-open_log :
      IsOpen read start_lba sector_count entry data_sectors count last
      → open_log read start_lba sector_count entry ≡ some (data_sectors, count, last)
  unfolding open_log
  IsOpen-open_log o =
      let a : (ltb sector_count 2
            || ltb 1025 sector_count
            || not (region_fits start_lba sector_count))
          ≡ false =
        ground (arith, o.large, o.small, o.fits) in
      let b : ltb sector_count (data_sectors + 1) ≡ false = ground (arith, o.within) in
      rw (a, o.read_first, o.decoded, b, o.scanned) refl

  pub open_log-IsOpen :
      open_log read start_lba sector_count entry ≡ some (data_sectors, count, last)
      → IsOpen read start_lba sector_count entry data_sectors count last
  unfolding open_log
  open_log-IsOpen =
      if_each Result
        (ltb sector_count 2 || ltb 1025 sector_count || not (region_fits start_lba sector_count))
        none _ (λ refused h. absurd (none-ne-some (data_sectors, count, last) h))
        (λ allowed. elim (Option-cases (read start_lba)) [
          | inl e ↦ rw e (λ h. absurd (none-ne-some (data_sectors, count, last) h))
          | inr (sector, e) ↦ elim (Option-cases (superblock_decode (some sector))) [
            | inl d ↦ rw (e, d) (λ h. absurd (none-ne-some (data_sectors, count, last) h))
            | inr (size, d) ↦
                rw (e, d)
                  (if_each Result (ltb sector_count (size + 1)) none _
                    (λ short h. absurd (none-ne-some (data_sectors, count, last) h))
                    (λ within.
                      found sector size e d (ground arith) (ground arith) (ground arith)
                        (ground arith)))
          ]
        ])
    where
      Result : Option (ℕ × ℕ × ℕ) → Type 0
      Result o =
          o ≡ some (data_sectors, count, last)
          → IsOpen read start_lba sector_count entry data_sectors count last

      found :
          (sector : Sector) (size : ℕ)
          → read start_lba ≡ some sector
          → superblock_decode (some sector) ≡ some size
          → 2 ≤ sector_count
          → sector_count ≤ 1025
          → region_fits start_lba sector_count ≡ true
          → size + 1 ≤ sector_count
          → Result (elim (scan_log read start_lba entry size) [
            | none ↦ none
            | some (total, previous) ↦ some (size, total, previous)
          ])
      found sector size e d large small fits within =
          elim (Option-cases (scan_log read start_lba entry size)) [
            | inl s ↦ rw s (λ h. absurd (none-ne-some (data_sectors, count, last) h))
            | inr ((total, previous), s) ↦ rw s (λ h.
                let p : (size, total, previous) ≡ (data_sectors, count, last) =
                  some-injective (size, total, previous) (data_sectors, count, last) h in
                let size_same : size ≡ data_sectors = ap (λ (t : ℕ × ℕ × ℕ). t.0) p in
                record {
                  large = large;
                  small = small;
                  fits = fits;
                  superblock = sector;
                  read_first = e;
                  decoded = d ∙ ap some size_same;
                  within = subst (λ n. n + 1 ≤ sector_count) size_same within;
                  scanned =
                      ap (λ n. scan_log read start_lba entry n) (sym size_same)
                      ∙ s
                      ∙ ap (λ (t : ℕ × ℕ × ℕ). some (t.1, t.2)) p;
                })
          ]

-- One sector behind the records has changed.
module _ (read after : ℕ → Option Sector) (start_lba sector_count : ℕ) (entry : JournalEntry)
    (data_sectors count last sequence : ℕ) (sector : Sector)
    (o : IsOpen read start_lba sector_count entry data_sectors count last)
    (room : count < data_sectors) (newer : sequence_is_newer sequence last ≡ true)
    (encoded : IsEncoded sector entry sequence)
    (elsewhere : (lba : ℕ) → lba ≢ lba_at read start_lba entry count → after lba ≡ read lba) where
  start_elsewhere : after start_lba ≡ read start_lba
  unfolding region_fits
  start_elsewhere = elsewhere start_lba (apart start_lba o.fits o.small o.within room)
    where
      apart :
          (s : ℕ)
          → region_fits s sector_count ≡ true
          → sector_count ≤ 1025
          → data_sectors + 1 ≤ sector_count
          → count < data_sectors
          → s ≢ add64 (add64 s 1) count
      apart s fits small within room e = absurd (ground arith)

  reopened :
      (total previous : ℕ)
      → scan_log after start_lba entry data_sectors ≡ some (total, previous)
      → open_log after start_lba sector_count entry ≡ some (data_sectors, total, previous)
  reopened total previous scanned =
      IsOpen-open_log after start_lba sector_count entry data_sectors total previous (record {
        large = o.large;
        small = o.small;
        fits = o.fits;
        superblock = o.superblock;
        read_first = start_elsewhere ∙ o.read_first;
        decoded = o.decoded;
        within = o.within;
        scanned = scanned;
      })

  pub open_log-prepared :
      after (lba_at read start_lba entry count) ≡ some sector
      → open_log after start_lba sector_count entry ≡ some (data_sectors, count, last)
  open_log-prepared here = reopened count last (
      scan_log-prepared start_lba entry read after sector_count data_sectors count last sector
        o.fits o.small o.within room o.scanned here elsewhere encoded.waiting encoded.occupied
        encoded.hidden encoded.is_prepared encoded.uncommitted
        (ap (λ s. sequence_is_newer s last) encoded.waiting_sequence ∙ newer))

  pub open_log-committed :
      after (lba_at read start_lba entry count) ≡ some (write_u32 sector 508 0xC0DE_17ED)
      → open_log after start_lba sector_count entry ≡ some (data_sectors, count + 1, sequence)
  open_log-committed here = reopened (count + 1) sequence (
      scan_log-committed start_lba entry read after sector_count data_sectors count last
        (write_u32 sector 508 0xC0DE_17ED) o.fits o.small o.within room o.scanned here elsewhere
        encoded.committed encoded.still_occupied encoded.is_record
        (ap (λ s. sequence_is_newer s last) encoded.committed_sequence ∙ newer)
      ∙ ap (λ s. some (count + 1, s)) encoded.committed_sequence)

-- Two disks that read alike everywhere.
pub open_log-alike :
    (read after : ℕ → Option Sector) (start_lba sector_count : ℕ) (entry : JournalEntry)
    → ((lba : ℕ) → after lba ≡ read lba)
    → open_log after start_lba sector_count entry ≡ open_log read start_lba sector_count entry
open_log-alike read after start_lba sector_count entry alike =
    ap (λ r. open_log r start_lba sector_count entry) (λ i lba. alike lba i)
