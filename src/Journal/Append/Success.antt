-- ===== src/Journal/Append/Success.antt =====
-- An append of fs/journal.c under the next sequence number succeeds.
use efes_os.Base.{
  ℕ, ◌+◌, ◌<◌, ◌≡◌, refl, Bool, true, false, not, ◌||◌, ◌==◌, leb, Option, none, some, arith,
  if◌then◌else◌,
}
use efes_os.Base.Words.{add32, add64}
use efes_os.Journal.{Sector, sequence_is_newer, write_u32}
use efes_os.Journal.Record.{JournalEntry, encode_internal, bytes_of}
use efes_os.Journal.Record.Encoded.{IsEncoded, encode_internal-IsEncoded}
use efes_os.Journal.Append.{open_log, commit, publish, journal_append, journal_next_sequence}

module _ {Disk : Type 0} (read : Disk → ℕ → Option Sector) (write : ℕ → Sector → Disk → Bool × Disk)
    (written : (lba : ℕ) (s : Sector) (d : Disk)
      → (write lba s d).0 ≡ true
      → read (write lba s d).1 lba ≡ some s)
    (start_lba sector_count : ℕ) (entry : JournalEntry) where
  -- With room in the log, a record that can be encoded, and writes that succeed and are read back, an
  -- append of a name of bytes under the number that `journal_next_sequence` gives reports success.
  pub journal_append-next_sequence :
      (operation sequence : ℕ) (name content : Option (ℕ → ℕ)) (content_length : ℕ)
      (before sector : Sector) (d : Disk) (data_sectors count last : ℕ)
      → last < 0x1_0000_0000
      → ((i : ℕ) → bytes_of name i < 0x100)
      → open_log (read d) start_lba sector_count entry ≡ some (data_sectors, count, last)
      → count < data_sectors
      → journal_next_sequence (read d) start_lba sector_count entry ≡ some sequence
      → encode_internal (some before) operation sequence name content content_length false
        ≡ some sector
      → ((lba : ℕ) (s : Sector) (e : Disk) → (write lba s e).0 ≡ true)
      → (journal_append read write start_lba sector_count operation sequence name content
          content_length before entry d).0
        ≡ true
  unfolding journal_append journal_next_sequence publish commit sequence_is_newer
  journal_append-next_sequence operation sequence name content content_length before sector d
        data_sectors count last small byte opened room next e ok =
      let known : (if last == 0xFFFF_FFFF then none else some (add32 last 1)) ≡ some sequence =
        rw (journal_next_sequence, opened) at next in
      let below : last < 0xFFFF_FFFF = ground arith in
      let number : sequence ≡ last + 1 = ground arith in
      let allowed : (leb data_sectors count || not (sequence_is_newer sequence last)) ≡ false =
        ground arith in
      let encoded : IsEncoded sector entry sequence =
        encode_internal-IsEncoded before sector entry operation sequence content_length name content
          (omega arith) byte e in
      rw
        (
          journal_append,
          opened,
          allowed,
          e,
          publish,
          ok target sector d,
          commit,
          ok target (write_u32 sector 508 0xC0DE_17ED) (write target sector d).1,
          written target (write_u32 sector 508 0xC0DE_17ED) (write target sector d).1
              (ok target (write_u32 sector 508 0xC0DE_17ED) (write target sector d).1),
          encoded.is_record,
        )
        refl
    where
      target : ℕ
      target = add64 (add64 start_lba 1) count
