-- ===== src/Journal/Append/Atomic.antt =====
-- An append of fs/journal.c happens whole or not at all, also where a write fails or the machine stops
-- between its two writes.
use efes_os.Base.{
  ℕ, zero, suc, ◌⊎◌, ◌+◌, ◌≤◌, ◌<◌, ◌≡◌, ◌≢◌, refl, ap, sym, ◌∙◌, Bool, true, false, not, ◌||◌,
  ◌==◌, leb, Option, some, arith, if_each, Option-cases, Bool-cases, inl, inr,
}
use efes_os.Journal.{Sector, sequence_is_newer, write_u32}
use efes_os.Journal.Record.{JournalEntry, encode_internal, bytes_of}
use efes_os.Journal.Record.Encoded.{IsEncoded, encode_internal-IsEncoded}
use efes_os.Journal.Log.{lba_at}
use efes_os.Journal.Append.{open_log, commit, publish, journal_append}
use efes_os.Journal.Append.Open.{
  IsOpen, IsOpen-open_log, open_log-IsOpen, open_log-prepared, open_log-committed, open_log-alike,
}

-- The machine stops after `writes` more writes: none behind them reaches the disk.
pub stopping :
    {Disk : Type 0} → (ℕ → Sector → Disk → Bool × Disk) → ℕ → Sector → ℕ × Disk → Bool × (ℕ × Disk)
stopping write lba sector (zero, d) = (true, (zero, d))
stopping write lba sector (suc writes, d) =
    let (ok, after) = write lba sector d in (ok, (writes, after))

-- A disk that writes a sector whole or not at all: a write that succeeds is read back, one that fails
-- has left the sector as it was or has written it all the same, and neither touches another sector.
module _ {Disk : Type 0} (read : Disk → ℕ → Option Sector) (write : ℕ → Sector → Disk → Bool × Disk)
    (written : (lba : ℕ) (s : Sector) (d : Disk)
      → (write lba s d).0 ≡ true
      → read (write lba s d).1 lba ≡ some s)
    (others : (lba other : ℕ) (s : Sector) (d : Disk)
      → other ≢ lba
      → read (write lba s d).1 other ≡ read d other)
    (failed : (lba : ℕ) (s : Sector) (d : Disk)
      → (write lba s d).0 ≡ false
      → (read (write lba s d).1 lba ≡ read d lba) ⊎ (read (write lba s d).1 lba ≡ some s))
    (start_lba sector_count : ℕ) (entry : JournalEntry) where
  abbrev Opens : Disk → ℕ → ℕ → ℕ → Type 0
  Opens d data_sectors count last =
      open_log (read d) start_lba sector_count entry ≡ some (data_sectors, count, last)

  -- The log has one record more, or it is as before and the result is a failure.
  abbrev Atomic : ℕ → ℕ → ℕ → ℕ → Bool × Disk → Type 0
  Atomic data_sectors count last sequence o =
      Opens o.1 data_sectors (count + 1) sequence
      ⊎ ((o.0 ≡ false) × Opens o.1 data_sectors count last)

  -- A log with room, and a record for it.
  record IsReady (d : Disk) (data_sectors count last sequence : ℕ) (sector : Sector) : Type 0 where
    pub is_open : IsOpen (read d) start_lba sector_count entry data_sectors count last
    pub room : count < data_sectors
    pub newer : sequence_is_newer sequence last ≡ true
    pub encoded : IsEncoded sector entry sequence

  module _ (before : Disk) (data_sectors count last sequence : ℕ) (sector : Sector)
      (r : IsReady before data_sectors count last sequence sector) where
    abbrev target : ℕ
    target = lba_at (read before) start_lba entry count

    abbrev marked : Sector
    marked = write_u32 sector 508 0xC0DE_17ED

    abbrev Elsewhere : Disk → Type 0
    Elsewhere d = (lba : ℕ) → lba ≢ target → read d lba ≡ read before lba

    prepared-Opens :
        (d : Disk) → Elsewhere d → read d target ≡ some sector → Opens d data_sectors count last
    prepared-Opens d elsewhere here =
        open_log-prepared (read before) (read d) start_lba sector_count entry data_sectors count
          last sequence sector r.is_open r.room r.newer r.encoded elsewhere here

    committed-Opens :
        (d : Disk)
        → Elsewhere d
        → read d target ≡ some marked
        → Opens d data_sectors (count + 1) sequence
    committed-Opens d elsewhere here =
        open_log-committed (read before) (read d) start_lba sector_count entry data_sectors count
          last sequence sector r.is_open r.room r.newer r.encoded elsewhere here

    unchanged-Opens :
        (d : Disk)
        → Elsewhere d
        → read d target ≡ read before target
        → Opens d data_sectors count last
    unchanged-Opens d elsewhere here =
        open_log-alike (read before) (read d) start_lba sector_count entry alike
        ∙ IsOpen-open_log (read before) start_lba sector_count entry data_sectors count last
            r.is_open
      where
        alike : (lba : ℕ) → read d lba ≡ read before lba
        alike lba = elim (Bool-cases (lba == target)) [
          | inl e ↦
              let at : lba ≡ target = ground arith in
              ap (read d) at ∙ here ∙ sym (ap (read before) at)
          | inr e ↦ elsewhere lba (λ at. absurd (ground arith))
        ]

    -- The first write, whether it succeeds or fails, leaves the log as it is.
    first_write-Opens : Opens (write target sector before).1 data_sectors count last
    first_write-Opens = elim (Bool-cases (write target sector before).0) [
      | inl ok ↦ prepared-Opens _ elsewhere (written target sector before ok)
      | inr bad ↦ elim (failed target sector before bad) [
        | inl same ↦ unchanged-Opens _ elsewhere same
        | inr new ↦ prepared-Opens _ elsewhere new
      ]
    ]
      where
        elsewhere : Elsewhere (write target sector before).1
        elsewhere lba ne = others target lba sector before ne

    -- The second write, on a disk `d` that differs from `before` in the sector that is written.
    commit-Atomic :
        (d : Disk)
        → Elsewhere d
        → read d target ≡ some sector
        → Atomic data_sectors count last sequence (commit read write target sector entry d)
    unfolding commit
    commit-Atomic d elsewhere here = elim (Bool-cases (write target marked d).0) [
      | inl ok ↦
          rw (ok, written target marked d ok, r.encoded.is_record)
            (inl (committed-Opens _ after (written target marked d ok)))
      | inr bad ↦ elim (failed target marked d bad) [
        | inl same ↦ rw bad (inr (refl, prepared-Opens _ after (same ∙ here)))
        | inr new ↦ rw bad (inl (committed-Opens _ after new))
      ]
    ]
      where
        after : Elsewhere (write target marked d).1
        after lba ne = others target lba marked d ne ∙ elsewhere lba ne

    publish-Atomic :
        Atomic data_sectors count last sequence (publish read write target sector entry before)
    unfolding publish
    publish-Atomic = elim (Bool-cases (write target sector before).0) [
      | inl ok ↦ rw ok (
          commit-Atomic (write target sector before).1
            (λ lba ne. others target lba sector before ne) (written target sector before ok))
      | inr bad ↦ rw bad (inr (refl, first_write-Opens))
    ]

  ready :
      (operation sequence : ℕ) (name content : Option (ℕ → ℕ)) (content_length : ℕ)
      (before sector : Sector) (d : Disk) (data_sectors count last : ℕ)
      → sequence < 0x1_0000_0000
      → ((i : ℕ) → bytes_of name i < 0x100)
      → open_log (read d) start_lba sector_count entry ≡ some (data_sectors, count, last)
      → count < data_sectors
      → sequence_is_newer sequence last ≡ true
      → encode_internal (some before) operation sequence name content content_length false
        ≡ some sector
      → IsReady d data_sectors count last sequence sector
  ready operation sequence name content content_length before sector d data_sectors count last hs
        byte opened room newer e =
      record {
        is_open =
            open_log-IsOpen (read d) start_lba sector_count entry data_sectors count last opened;
        room = room;
        newer = newer;
        encoded =
            encode_internal-IsEncoded before sector entry operation sequence content_length name
              content hs byte e;
      }

  -- An append to a log that can be opened, of a name of bytes and a 32-bit sequence number, happens
  -- whole or not at all, on a disk that gives back what a successful write has stored, writes a sector
  -- whole or not at all where a write fails, and touches no other one: afterwards the log opens with one
  -- record more and that number as its last, or it opens as before and the append has reported failure.
  -- A failure can also stand beside the new record, where the second write has reached the disk and
  -- failed only then.
  pub journal_append-Atomic :
      (operation sequence : ℕ) (name content : Option (ℕ → ℕ)) (content_length : ℕ)
      (before : Sector) (d : Disk) (data_sectors count last : ℕ)
      → sequence < 0x1_0000_0000
      → ((i : ℕ) → bytes_of name i < 0x100)
      → open_log (read d) start_lba sector_count entry ≡ some (data_sectors, count, last)
      → Atomic data_sectors count last sequence (
          journal_append read write start_lba sector_count operation sequence name content
            content_length before entry d)
  unfolding journal_append
  journal_append-Atomic operation sequence name content content_length before d data_sectors count
        last hs byte opened =
      rw (journal_append, opened)
        (if_each Whole (leb data_sectors count || not (sequence_is_newer sequence last)) (false, d)
          _ (λ refused. inr (refl, opened))
          (λ allowed.
            elim (Option-cases (
              encode_internal (some before) operation sequence name content content_length false)) [
                | inl e ↦ rw e (inr (refl, opened))
                | inr (sector, e) ↦ rw e (
                    publish-Atomic d data_sectors count last sequence sector (
                      ready operation sequence name content content_length before sector d
                        data_sectors count last hs byte opened (ground arith) (ground arith) e))
              ]))
    where
      Whole : Bool × Disk → Type 0
      Whole = Atomic data_sectors count last sequence

  publish_stopped :
      (writes : ℕ) (d : Disk) (data_sectors count last sequence : ℕ) (sector : Sector)
      → writes ≤ 1
      → IsReady d data_sectors count last sequence sector
      → Opens
          (publish
            (λ m. read m.1)
            (stopping write)
            (lba_at (read d) start_lba entry count)
            sector
            entry
            (writes, d)).1.1
          data_sectors
          count
          last
  unfolding publish commit stopping
  publish_stopped zero d data_sectors count last sequence sector h r =
      IsOpen-open_log (read d) start_lba sector_count entry data_sectors count last r.is_open
  publish_stopped (suc zero) d data_sectors count last sequence sector h r =
      elim (Bool-cases (write (lba_at (read d) start_lba entry count) sector d).0) [
        | inl ok ↦ rw ok (first_write-Opens d data_sectors count last sequence sector r)
        | inr bad ↦ rw bad (first_write-Opens d data_sectors count last sequence sector r)
      ]
  publish_stopped (suc (suc writes)) d data_sectors count last sequence sector h r =
      absurd (omega arith)

  -- Where the machine stops before or between the two writes of such an append, so that at most one of
  -- them is carried out, the log opens as before, whether or not that write has reported a failure.
  pub open_log-interrupted :
      (writes operation sequence : ℕ) (name content : Option (ℕ → ℕ)) (content_length : ℕ)
      (before : Sector) (d : Disk) (data_sectors count last : ℕ)
      → writes ≤ 1
      → sequence < 0x1_0000_0000
      → ((i : ℕ) → bytes_of name i < 0x100)
      → open_log (read d) start_lba sector_count entry ≡ some (data_sectors, count, last)
      → open_log
          (read
            (journal_append
              (λ m. read m.1)
              (stopping write)
              start_lba
              sector_count
              operation
              sequence
              name
              content
              content_length
              before
              entry
              (writes, d)).1.1)
          start_lba
          sector_count
          entry
        ≡ some (data_sectors, count, last)
  unfolding journal_append
  open_log-interrupted writes operation sequence name content content_length before d data_sectors
        count last few hs byte opened =
      rw (journal_append, opened)
        (if_each Same (leb data_sectors count || not (sequence_is_newer sequence last))
          (false, (writes, d)) _ (λ refused. opened)
          (λ allowed.
            elim (Option-cases (
              encode_internal (some before) operation sequence name content content_length false)) [
                | inl e ↦ rw e opened
                | inr (sector, e) ↦ rw e (
                    publish_stopped writes d data_sectors count last sequence sector few (
                      ready operation sequence name content content_length before sector d
                        data_sectors count last hs byte opened (ground arith) (ground arith) e))
              ]))
    where
      Same : Bool × (ℕ × Disk) → Type 0
      Same o = Opens o.1.1 data_sectors count last
