-- ===== src/Journal/Append/Publish.antt =====
-- The two writes of an append in fs/journal.c: what the log holds between them and after them.
use efes_os.Base.{
  ℕ, zero, suc, ◌+◌, ◌-◌, ◌≤◌, ◌<◌, ◌≡◌, ◌≢◌, refl, ◌∙◌, subst, true, false, not, Option, none,
  some, arith, if◌then◌else◌, Option-cases, inl, inr,
}
use efes_os.Journal.{Sector, sector_is_empty, sequence_is_newer, read_u32, region_fits}
use efes_os.Journal.Record.{JournalEntry, decode, decode_prepared}
use efes_os.Journal.Log.{lba_at, ended, torn, tail_is_empty, scan_from, scan_log}
use efes_os.Journal.Append.Shape.{
  Shape, scan_from-Shaped, Shape-tail, scan_from-Shape, tail_is_empty-cong,
}

-- The sectors of a region have different addresses.
lba_at-distinct :
    (read : ℕ → Option Sector) (start_lba : ℕ) (entry : JournalEntry) (sector_count j k : ℕ)
    → region_fits start_lba sector_count ≡ true
    → sector_count ≤ 1025
    → j + 1 < sector_count
    → k + 1 < sector_count
    → j ≢ k
    → lba_at read start_lba entry j ≢ lba_at read start_lba entry k
unfolding region_fits
lba_at-distinct read start_lba entry sector_count j k fits small hj hk ne e = ne (ground arith)

module _ (start_lba : ℕ) (entry : JournalEntry) (read after : ℕ → Option Sector)
    (sector_count data_sectors count last : ℕ) (found : Sector)
    (fits : region_fits start_lba sector_count ≡ true) (small : sector_count ≤ 1025)
    (within : data_sectors + 1 ≤ sector_count) (room : count < data_sectors)
    (scanned : scan_log read start_lba entry data_sectors ≡ some (count, last))
    (here : after (lba_at read start_lba entry count) ≡ some found)
    (elsewhere : (lba : ℕ) → lba ≢ lba_at read start_lba entry count → after lba ≡ read lba) where
  same :
      (j : ℕ)
      → j < data_sectors
      → j ≢ count
      → after (lba_at read start_lba entry j) ≡ read (lba_at read start_lba entry j)
  same j h ne = elsewhere (lba_at read start_lba entry j) (
      lba_at-distinct read start_lba entry sector_count j count fits small (omega arith)
        (omega arith) ne)

  shape : Shape start_lba entry read 0 0 data_sectors count last
  unfolding scan_log
  shape =
      let (more, sum, s) =
        scan_from-Shaped start_lba entry read 0 0 0 data_sectors count last scanned in
      let e : more ≡ count = omega (arith, sum) in
      subst (λ c. Shape start_lba entry read 0 0 data_sectors c last) e s

  -- The scan reaches the sector behind the records.
  scan_log-after :
      scan_log after start_lba entry data_sectors
      ≡ scan_from after start_lba entry count last count (suc (data_sectors - (count + 1)))
  unfolding scan_log
  scan_log-after =
      let left : data_sectors - count ≡ suc (data_sectors - (count + 1)) = omega arith in
      let a : 0 + count ≡ count = omega arith in
      let all =
        scan_from-Shape start_lba entry read after 0 0 data_sectors count last 0 shape
          (λ j p q. same j (omega arith) (λ e. absurd (omega arith))) in
      rw (a, left) at all

  tail_after : tail_is_empty after start_lba entry (count + 1) (data_sectors - (count + 1)) ≡ true
  tail_after =
      let a : 0 + count + 1 ≡ count + 1 = omega arith in
      tail_is_empty-cong start_lba entry read after (count + 1) (data_sectors - (count + 1))
        (λ j p q. same j (omega arith) (λ e. absurd (omega arith)))
      ∙ rw a at (Shape-tail start_lba entry read 0 0 data_sectors count last shape room)

  -- A prepared record behind the others is passed over.
  pub scan_log-prepared :
      (waiting : JournalEntry)
      → sector_is_empty found ≡ false
      → decode (some found) (some entry) ≡ none
      → decode_prepared (some found) (some entry) ≡ some waiting
      → read_u32 found 508 ≡ 0
      → sequence_is_newer waiting.sequence last ≡ true
      → scan_log after start_lba entry data_sectors ≡ some (count, last)
  unfolding scan_from torn ended
  scan_log-prepared waiting occupied hidden p unmarked newer =
      scan_log-after
      ∙ rw (scan_from, here, occupied, hidden, torn, p, unmarked, newer, tail_after) refl

  tail_head :
      (index n : ℕ)
      → tail_is_empty after start_lba entry index (suc n) ≡ true
      → (sector : Sector) × (after (lba_at after start_lba entry index) ≡ some sector)
        × (sector_is_empty sector ≡ true)
  unfolding tail_is_empty
  tail_head index n h = elim (Option-cases (after (lba_at after start_lba entry index))) [
    | inl e ↦ let gone : false ≡ true = rw (tail_is_empty, e) at h in absurd (ground arith)
    | inr (sector, e) ↦
        let both : (if not (sector_is_empty sector)
              then false
              else tail_is_empty after start_lba entry (index + 1) n)
            ≡ true =
          rw (tail_is_empty, e) at h in
        (sector, e, ground arith)
  ]

  tail_ended :
      (sequence n : ℕ)
      → tail_is_empty after start_lba entry (count + 1) n ≡ true
      → scan_from after start_lba entry (count + 1) sequence (count + 1) n
        ≡ some (count + 1, sequence)
  unfolding scan_from ended
  tail_ended sequence zero h = refl
  tail_ended sequence (suc n) h =
      let (sector, e, empty) = tail_head (count + 1) n h in rw (scan_from, e, empty, h) refl

  -- A committed record behind the others is one more record.
  pub scan_log-committed :
      (record_found : JournalEntry)
      → sector_is_empty found ≡ false
      → decode (some found) (some entry) ≡ some record_found
      → sequence_is_newer record_found.sequence last ≡ true
      → scan_log after start_lba entry data_sectors ≡ some (count + 1, record_found.sequence)
  unfolding scan_from
  scan_log-committed record_found occupied d newer =
      scan_log-after
      ∙ rw (scan_from, here, occupied, d, newer)
          (tail_ended record_found.sequence (data_sectors - (count + 1)) tail_after)
