-- ===== src/Journal/Append/Shape.antt =====
-- What a scan that succeeds says of the whole log, and what it says after a change at the log's end.
use mathlib.Core.Option.{some-injective, none-ne-some}
use efes_os.Base.{
  ℕ, zero, suc, ◌+◌, ◌-◌, ◌≤◌, ◌<◌, ◌≡◌, refl, ap, sym, ◌∙◌, subst, Bool, true, false, not, ◌&&◌,
  ◌==◌, Option, none, some, arith, if_each, if◌then◌else◌, Option-cases, inl, inr,
}
use efes_os.Journal.{Sector, sector_is_empty, sequence_is_newer, read_u32}
use efes_os.Journal.Record.{JournalEntry, decode, decode_prepared}
use efes_os.Journal.Log.{lba_at, ended, torn, tail_is_empty, scan_from}

module _ (start_lba : ℕ) (entry : JournalEntry) where
  -- From `index` on, in `n` sectors: `count` records, and behind them one sector that may hold
  -- anything, and empty sectors.
  pub data Shape (read : ℕ → Option Sector) : ℕ → ℕ → ℕ → ℕ → ℕ → Type 0 where
    full : (index previous : ℕ) → Shape read index previous 0 0 previous
    stop :
        (index previous n : ℕ)
        → tail_is_empty read start_lba entry (index + 1) n ≡ true
        → Shape read index previous (suc n) 0 previous
    one_more :
        (index previous n count last : ℕ) (sector : Sector) (found : JournalEntry)
        → read (lba_at read start_lba entry index) ≡ some sector
        → sector_is_empty sector ≡ false
        → decode (some sector) (some entry) ≡ some found
        → sequence_is_newer found.sequence previous ≡ true
        → Shape read (index + 1) found.sequence n count last
        → Shape read index previous (suc n) (suc count) last

  module _ (read : ℕ → Option Sector) where
    abbrev pub Shaped : ℕ → ℕ → ℕ → ℕ → Option (ℕ × ℕ) → Type 0
    Shaped index previous count n o =
        (total last : ℕ)
        → o ≡ some (total, last)
        → (more : ℕ) × (total ≡ count + more) × Shape read index previous n more last

    none-Shaped : (index previous count n : ℕ) → Shaped index previous count n none
    none-Shaped index previous count n total last e = absurd (none-ne-some (total, last) e)

    ended-Shaped :
        (index previous count n : ℕ) (b : Bool)
        → (b ≡ true → tail_is_empty read start_lba entry (index + 1) n ≡ true)
        → Shaped index previous count (suc n) (ended read start_lba entry b count previous)
    unfolding ended
    ended-Shaped index previous count n false h total last e = absurd (none-ne-some (total, last) e)
    ended-Shaped index previous count n true h total last e =
        let p : (count, previous) ≡ (total, last) =
          some-injective (count, previous) (total, last) e in
        (
          0,
          sym (ap (λ (q : ℕ × ℕ). q.0) p) ∙ omega arith,
          subst (Shape read index previous (suc n) 0) (ap (λ (q : ℕ × ℕ). q.1) p)
              (Shape.stop index previous n (h refl)),
        )

    torn-Shaped :
        (index previous count n : ℕ) (sector : Sector)
        → Shaped index previous count (suc n) (
            torn read start_lba entry sector
              (tail_is_empty read start_lba entry (index + 1) n)
              count
              previous)
    unfolding torn
    torn-Shaped index previous count n sector =
        elim (Option-cases (decode_prepared (some sector) (some entry))) [
          | inl e ↦ rw (torn, e) (none-Shaped index previous count (suc n))
          | inr (prepared, e) ↦
              rw (torn, e)
                (if_each (Shaped index previous count (suc n))
                  ((read_u32 sector 508 == 0) && sequence_is_newer prepared.sequence previous) _
                  none (λ last_record. ended-Shaped index previous count n _ (λ h. h))
                  (λ malformed. none-Shaped index previous count (suc n)))
        ]

    -- An empty tail has an empty tail.
    tail_is_empty-suc :
        (index n : ℕ)
        → tail_is_empty read start_lba entry index (suc n) ≡ true
        → tail_is_empty read start_lba entry (index + 1) n ≡ true
    unfolding tail_is_empty
    tail_is_empty-suc index n h = elim (Option-cases (read (lba_at read start_lba entry index))) [
      | inl e ↦ let gone : false ≡ true = rw (tail_is_empty, e) at h in absurd (ground arith)
      | inr (sector, e) ↦
          let both : (if not (sector_is_empty sector)
                then false
                else tail_is_empty read start_lba entry (index + 1) n)
              ≡ true =
            rw (tail_is_empty, e) at h in
          ground arith
    ]

    later-Shaped :
        (index previous count n : ℕ) (sector : Sector) (found : JournalEntry) (o : Option (ℕ × ℕ))
        → read (lba_at read start_lba entry index) ≡ some sector
        → sector_is_empty sector ≡ false
        → decode (some sector) (some entry) ≡ some found
        → sequence_is_newer found.sequence previous ≡ true
        → Shaped (index + 1) found.sequence (count + 1) n o
        → Shaped index previous count (suc n) o
    later-Shaped index previous count n sector found o r occupied d newer rest total last e =
        let (more, sum, shape) = rest total last e in
        (
          suc more,
          omega (arith, sum),
          Shape.one_more index previous n more last sector found r occupied d newer shape,
        )

    pub scan_from-Shaped :
        (index previous count n : ℕ)
        → Shaped index previous count n (scan_from read start_lba entry index previous count n)
    unfolding scan_from
    scan_from-Shaped index previous count zero = λ total last e.
        let p : (count, previous) ≡ (total, last) =
          some-injective (count, previous) (total, last) e in
        (
          0,
          sym (ap (λ (q : ℕ × ℕ). q.0) p) ∙ omega arith,
          subst (Shape read index previous 0 0) (ap (λ (q : ℕ × ℕ). q.1) p)
              (Shape.full index previous),
        )
    scan_from-Shaped index previous count (suc n) =
        elim (Option-cases (read (lba_at read start_lba entry index))) [
          | inl r ↦ rw (scan_from, r) (none-Shaped index previous count (suc n))
          | inr (sector, r) ↦
              rw (scan_from, r)
                (if_each (Shaped index previous count (suc n)) (sector_is_empty sector) _ _
                  (λ empty. ended-Shaped index previous count n _ (tail_is_empty-suc index n))
                  (λ occupied. elim (Option-cases (decode (some sector) (some entry))) [
                    | inl d ↦ rw d (torn-Shaped index previous count n sector)
                    | inr (found, d) ↦ rw d (
                        if_each (Shaped index previous count (suc n))
                          (sequence_is_newer found.sequence previous) _ _
                          (λ newer.
                            later-Shaped index previous count n sector found _ r occupied d newer
                              (scan_from-Shaped (index + 1) found.sequence (count + 1) n))
                          (λ older. torn-Shaped index previous count n sector))
                  ]))
        ]

    -- Behind the records and one more sector the log is empty.
    pub Shape-tail :
        (index previous n count last : ℕ)
        → Shape read index previous n count last
        → count < n
        → tail_is_empty read start_lba entry (index + count + 1) (n - (count + 1)) ≡ true
    Shape-tail index previous zero zero last (Shape.full i p) h = absurd (omega arith)
    Shape-tail index previous zero (suc count) last shape h = elim shape [ ]
    Shape-tail index previous (suc n) zero last (Shape.stop i p m tail) h =
        let at : index + 0 + 1 ≡ index + 1 = omega arith in
        let left : suc n - (0 + 1) ≡ n = omega arith in rw (at, left) tail
    Shape-tail index previous (suc n) (suc count) last
          (Shape.one_more i p m c l sector found r o d newer more) h =
        let at : index + suc count + 1 ≡ index + 1 + count + 1 = omega arith in
        let left : suc n - (suc count + 1) ≡ n - (count + 1) = omega arith in
        rw (at, left) (Shape-tail (index + 1) found.sequence n count last more (omega arith))

    module _ (other : ℕ → Option Sector) where
      scan_from-one :
          (index previous n before : ℕ) (sector : Sector) (found : JournalEntry)
          → other (lba_at read start_lba entry index) ≡ some sector
          → sector_is_empty sector ≡ false
          → decode (some sector) (some entry) ≡ some found
          → sequence_is_newer found.sequence previous ≡ true
          → scan_from other start_lba entry index previous before (suc n)
            ≡ scan_from other start_lba entry (index + 1) found.sequence (before + 1) n
      unfolding scan_from
      scan_from-one index previous n before sector found here o d newer =
          rw (scan_from, here, o, d, newer) refl

      -- The same records are scanned on a disk that has the same sectors there.
      pub scan_from-Shape :
          (index previous n count last before : ℕ)
          → Shape read index previous n count last
          → ((j : ℕ)
              → index ≤ j
              → j < index + count
              → other (lba_at read start_lba entry j) ≡ read (lba_at read start_lba entry j))
          → scan_from other start_lba entry index previous before n
            ≡ scan_from other start_lba entry (index + count) last (before + count) (n - count)
      scan_from-Shape index previous zero zero last before (Shape.full i p) same =
          let a : index + 0 ≡ index = omega arith in
          let b : before + 0 ≡ before = omega arith in
          let c : 0 - 0 ≡ 0 = omega arith in rw (a, b, c) refl
      scan_from-Shape index previous zero (suc count) last before shape same = elim shape [ ]
      scan_from-Shape index previous (suc n) zero last before (Shape.stop i p m tail) same =
          let a : index + 0 ≡ index = omega arith in
          let b : before + 0 ≡ before = omega arith in
          let c : suc n - 0 ≡ suc n = omega arith in rw (a, b, c) refl
      scan_from-Shape index previous (suc n) (suc count) last before
            (Shape.one_more i p m c l sector found r o d newer more) same =
          let a : index + suc count ≡ index + 1 + count = omega arith in
          let b : before + suc count ≡ before + 1 + count = omega arith in
          let e : suc n - suc count ≡ n - count = omega arith in
          let here : other (lba_at read start_lba entry index) ≡ some sector =
            same index (omega arith) (omega arith) ∙ r in
          rw (a, b, e, scan_from-one index previous n before sector found here o d newer)
            (scan_from-Shape (index + 1) found.sequence n count last (before + 1) more
              (λ j p q. same j (omega arith) (omega arith)))

      pub tail_is_empty-cong :
          (index n : ℕ)
          → ((j : ℕ)
              → index ≤ j
              → j < index + n
              → other (lba_at read start_lba entry j) ≡ read (lba_at read start_lba entry j))
          → tail_is_empty other start_lba entry index n ≡ tail_is_empty read start_lba entry index n
      unfolding tail_is_empty
      tail_is_empty-cong index zero same = refl
      tail_is_empty-cong index (suc n) same =
          rw (tail_is_empty, same index (omega arith) (omega arith))
            (elim (Option-cases (read (lba_at read start_lba entry index))) [
              | inl e ↦ rw (tail_is_empty, e) refl
              | inr (sector, e) ↦
                  rw (tail_is_empty, e)
                    (ap (λ (b : Bool). if not (sector_is_empty sector) then false else b)
                      (tail_is_empty-cong (index + 1) n
                        (λ j p q. same j (omega arith) (omega arith))))
            ])
