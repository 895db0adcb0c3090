-- ===== src/Journal/Log/Records.antt =====
-- What a scan that succeeds has found.
use mathlib.Core.Option.{some-injective, none-ne-some}
use efes_os.Base.{
  ℕ, zero, suc, ◌+◌, ◌≤◌, ◌≡◌, ap, sym, ◌∙◌, subst, Bool, true, false, ◌&&◌, ◌==◌, Option, none,
  some, arith, if_each, Option-cases, inl, inr,
}
use efes_os.Journal.{Sector, sector_is_empty, sequence_is_newer, read_u32}
use efes_os.Journal.Record.{JournalEntry, decode, decode_prepared}
use efes_os.Journal.Log.{lba_at, ended, torn, scan_from, scan_log}

module _ (read : ℕ → Option Sector) (start_lba : ℕ) (entry : JournalEntry) where
  -- From `index` on stand `count` records with increasing sequence numbers, the last of them `last`.
  pub data Records : ℕ → ℕ → ℕ → ℕ → Type 0 where
    no_more : (index previous : ℕ) → Records index previous 0 previous
    one_more :
        (index previous count last : ℕ) (sector : Sector) (found : JournalEntry)
        → read (lba_at read start_lba entry index) ≡ some sector
        → decode (some sector) (some entry) ≡ some found
        → sequence_is_newer found.sequence previous ≡ true
        → Records (index + 1) found.sequence count last
        → Records index previous (suc count) last

  -- The result of a scan from `index` with `count` records before it.
  Found : ℕ → ℕ → ℕ → ℕ → Option (ℕ × ℕ) → Type 0
  Found index previous count n o =
      (total last : ℕ)
      → o ≡ some (total, last)
      → (more : ℕ) × (total ≡ count + more) × (more ≤ n) × Records index previous more last

  ended-Found :
      (index previous count n : ℕ) (b : Bool)
      → Found index previous count n (ended read start_lba entry b count previous)
  unfolding Found ended
  ended-Found index previous count n false total last e = absurd (none-ne-some (total, last) e)
  ended-Found index previous count n true total last e =
      let p : (count, previous) ≡ (total, last) =
        some-injective (count, previous) (total, last) e in
      (
        0,
        sym (ap (λ (q : ℕ × ℕ). q.0) p) ∙ omega arith,
        omega arith,
        subst (Records index previous 0) (ap (λ (q : ℕ × ℕ). q.1) p) (no_more index previous),
      )

  none-Found : (index previous count n : ℕ) → Found index previous count n none
  unfolding Found
  none-Found index previous count n total last e = absurd (none-ne-some (total, last) e)

  torn-Found :
      (index previous count n : ℕ) (sector : Sector) (b : Bool)
      → Found index previous count n (torn read start_lba entry sector b count previous)
  unfolding torn
  torn-Found index previous count n sector b =
      elim (Option-cases (decode_prepared (some sector) (some entry))) [
        | inl e ↦ rw (torn, e) (none-Found index previous count n)
        | inr (prepared, e) ↦
            rw (torn, e)
              (if_each (Found index previous count n)
                ((read_u32 sector 508 == 0) && sequence_is_newer prepared.sequence previous) _ none
                (λ last_record. ended-Found index previous count n b)
                (λ malformed. none-Found index previous count n))
      ]

  -- One more record before those that the rest of the scan has found.
  later-Found :
      (index previous count n : ℕ) (sector : Sector) (found : JournalEntry) (o : Option (ℕ × ℕ))
      → read (lba_at read start_lba entry index) ≡ some sector
      → decode (some sector) (some entry) ≡ some found
      → sequence_is_newer found.sequence previous ≡ true
      → Found (index + 1) found.sequence (count + 1) n o
      → Found index previous count (suc n) o
  unfolding Found
  later-Found index previous count n sector found o r d newer rest total last e =
      let (more, sum, bound, records) = rest total last e in
      (
        suc more,
        omega (arith, sum),
        omega (arith, bound),
        one_more index previous more last sector found r d newer records,
      )

  end-Found : (index previous count n : ℕ) → Found index previous count n (some (count, previous))
  unfolding ended
  end-Found index previous count n = ended-Found index previous count n true

  scan_from-Found :
      (index previous count n : ℕ)
      → Found index previous count n (scan_from read start_lba entry index previous count n)
  unfolding scan_from
  scan_from-Found index previous count zero = end-Found index previous count 0
  scan_from-Found index previous count (suc n) =
      elim (Option-cases (read (lba_at read start_lba entry index))) [
        | inl r ↦ rw (scan_from, r) (none-Found index previous count (suc n))
        | inr (sector, r) ↦
            rw (scan_from, r)
              (if_each (Found index previous count (suc n)) (sector_is_empty sector) _ _
                (λ empty. ended-Found index previous count (suc n) _)
                (λ occupied. elim (Option-cases (decode (some sector) (some entry))) [
                  | inl d ↦ rw d (torn-Found index previous count (suc n) sector _)
                  | inr (found, d) ↦ rw d (
                      if_each (Found index previous count (suc n))
                        (sequence_is_newer found.sequence previous) _ _
                        (λ newer.
                          later-Found index previous count n sector found _ r d newer
                            (scan_from-Found (index + 1) found.sequence (count + 1) n))
                        (λ older. torn-Found index previous count (suc n) sector _))
                ]))
      ]

  -- A scan that succeeds has found at most as many records as the log has sectors, one after the other
  -- from its first sector on, each committed and intact, with increasing sequence numbers up to the
  -- one it reports.
  pub scan_log-Records :
      (data_sectors total last : ℕ)
      → scan_log read start_lba entry data_sectors ≡ some (total, last)
      → (total ≤ data_sectors) × Records 0 0 total last
  unfolding scan_log Found
  scan_log-Records data_sectors total last e =
      let (more, sum, bound, records) = scan_from-Found 0 0 0 data_sectors total last e in
      let same : more ≡ total = omega (arith, sum) in
      (omega (arith, bound, same), subst (λ m. Records 0 0 m last) same records)
