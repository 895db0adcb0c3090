-- ===== src/Ramfs/Replay.antt =====
-- A journal's replay over the files of fs/ramfs.c: each committed entry once or more often.
use efes_os.Base.{
  ℕ, zero, suc, ◌+◌, ◌≡◌, refl, sym, ap, subst, ◌∙◌, Bool, true, false, not, ◌||◌, List, [], ◌∷◌,
  ◌++◌, Option, some, is_some, Option-cases, Bool-cases, inl, inr, if_both, ◌==◌, if◌then◌else◌,
  arith,
}
use efes_os.Journal.Record.{JournalEntry, operation_write, decode}
use efes_os.Journal.Log.{apply_from, replay_log, replay, lba_at, scan_log}
use efes_os.Journal.{Sector, superblock_decode}
use efes_os.Ramfs.{Text, Ramfs, name_max, ramfs_apply_journal_entry}
use efes_os.Ramfs.Texts.{text, bytes_equal_self}
use efes_os.Ramfs.Directory.{
  Directory, WellFormed, Distinct, lookup, put, assign, can_write, write_file, remove_file,
  lookup-put, lookup-delete, lookup-assign, lookup-append_one,
}
use efes_os.Ramfs.Invariant.{write_file-WellFormed, remove_file-WellFormed}
use efes_os.Ramfs.Table.{directory, outcome}
use efes_os.Ramfs.Apply.{apply_entry, bytes_of, no_zero, apply_journal_entry_refines}

assign-assign : (k v : List ℕ) (d : Directory) → assign k v (assign k v d) ≡ assign k v d
unfolding assign
assign-assign k v [] = refl
assign-assign k v ((j, w) ∷ d) = ground (arith, assign-assign k v d)

assign-append_one :
    (k v : List ℕ) (d : Directory)
    → is_some (lookup k d) ≡ false
    → assign k v (d ++ (k, v) ∷ []) ≡ d ++ (k, v) ∷ []
unfolding assign lookup
assign-append_one k v [] e = ground (arith, bytes_equal_self k)
assign-append_one k v ((j, w) ∷ d) e = ground (arith, assign-append_one k v d)

put_twice_lem : (k v : List ℕ) (d : Directory) → put k v (put k v d) ≡ put k v d
unfolding put
put_twice_lem k v d = elim (Bool-cases (is_some (lookup k d))) [
  | inl e ↦ ground (arith, bytes_equal_self k, lookup-assign k k v d, assign-assign k v d)
  | inr e ↦ ground (arith, bytes_equal_self k, lookup-append_one k k v d, assign-append_one k v d)
]

write_file_twice :
    (k v : List ℕ) (d : Directory)
    → (write_file k v d).0 ≡ true
    → write_file k v (write_file k v d).1 ≡ (true, (write_file k v d).1)
unfolding write_file can_write
write_file_twice k v d h =
    ground (arith, lookup-put k k v d, bytes_equal_self k, put_twice_lem k v d)

remove_file_twice :
    (k : List ℕ) (d : Directory)
    → Distinct d
    → (remove_file k (remove_file k d).1).1 ≡ (remove_file k d).1
unfolding remove_file
remove_file_twice k d h = ground (arith, lookup-delete k k d h, bytes_equal_self k)

apply_entry-WellFormed :
    (entry : JournalEntry) (d : Directory) → WellFormed d → WellFormed (apply_entry entry d).1
unfolding apply_entry
apply_entry-WellFormed entry d w =
    if_both Keeps _ (false, d) _ w
      (if_both Keeps _
        (if not (entry.content_length == 0) then (false, d) else (true, (remove_file name d).1))
        (if not (entry.operation == operation_write) || not (no_zero content)
          then (false, d)
          else write_file name content d)
        (if_both Keeps _ (false, d) _ w (remove_file-WellFormed name d w))
        (if_both Keeps _ (false, d) _ w (write_file-WellFormed name content d w)))
  where
    Keeps : Bool × Directory → Type 0
    Keeps o = WellFormed o.1

    name : List ℕ
    name = text name_max entry.name

    content : List ℕ
    content = bytes_of entry.content 0 entry.content_length

-- An entry that was accepted is accepted again, and changes nothing the second time.
apply_entry_twice :
    (entry : JournalEntry) (d : Directory)
    → WellFormed d
    → (apply_entry entry d).0 ≡ true
    → apply_entry entry (apply_entry entry d).1 ≡ (true, (apply_entry entry d).1)
unfolding apply_entry
apply_entry_twice entry d w accepted = ground (
  arith,
  write_file_twice (text name_max entry.name) (bytes_of entry.content 0 entry.content_length) d,
  remove_file_twice (text name_max entry.name) d w.distinct,
)

-- An entry that the files have accepted is accepted again, and changes nothing the second time.
pub apply_journal_entry_twice :
    (entry : JournalEntry) (scratch later : Text) (s : Ramfs)
    → WellFormed (directory s)
    → (ramfs_apply_journal_entry (some entry) scratch s).0 ≡ true
    → outcome (
        ramfs_apply_journal_entry
          (some entry)
          later
          (ramfs_apply_journal_entry (some entry) scratch s).1)
      ≡ (true, directory (ramfs_apply_journal_entry (some entry) scratch s).1)
apply_journal_entry_twice entry scratch later s w accepted =
    let once = apply_journal_entry_refines entry scratch s w in
    let answer : (apply_entry entry (directory s)).0 ≡ true =
      sym (ap (λ (o : Bool × Directory). o.0) once) ∙ accepted in
    let after : directory (ramfs_apply_journal_entry (some entry) scratch s).1
        ≡ (apply_entry entry (directory s)).1 =
      ap (λ (o : Bool × Directory). o.1) once in
    apply_journal_entry_refines entry later (ramfs_apply_journal_entry (some entry) scratch s).1
      (subst WellFormed (sym after) (apply_entry-WellFormed entry (directory s) w))
    ∙ rw after (apply_entry_twice entry (directory s) w answer)

-- A round of the replay: the rest of the log is applied only after an entry that was accepted.
go_on :
    (first rest : Bool × Ramfs) (meant all : Bool × Directory)
    → outcome first ≡ meant
    → outcome rest ≡ all
    → outcome (if not first.0 then (false, first.1) else rest)
      ≡ (if not meant.0 then (false, meant.1) else all)
go_on (ok, s) (more, t) meant all e f = ground arith

-- The callback that a replay is given.
abbrev pub callback : Text → JournalEntry → Ramfs → Bool × Ramfs
callback scratch found s = ramfs_apply_journal_entry (some found) scratch s

abbrev pub seen : Bool × ℕ × Ramfs → Bool × ℕ × Directory
seen (ok, count, s) = (ok, count, directory s)

module _ (read again : ℕ → Option Sector) (start_lba : ℕ) (entry : JournalEntry)
    (scratch : Text) where
  apply_from_refines :
      (index n : ℕ) (s : Ramfs)
      → WellFormed (directory s)
      → outcome (apply_from read again start_lba entry (callback scratch) index n s)
        ≡ apply_from read again start_lba entry apply_entry index n (directory s)
  unfolding apply_from
  apply_from_refines index zero s w = refl
  apply_from_refines index (suc n) s w =
      elim (Option-cases (again (lba_at read start_lba entry index))) [
        | inl e ↦ rw (apply_from, e) refl
        | inr (sector, e) ↦ elim (Option-cases (decode (some sector) (some entry))) [
          | inl f ↦ rw (apply_from, e, f) refl
          | inr (found, f) ↦
              rw (apply_from, e, f)
                (let one = apply_journal_entry_refines found scratch s w in
                  let after : directory (callback scratch found s).1
                      ≡ (apply_entry found (directory s)).1 =
                    ap (λ (o : Bool × Directory). o.1) one in
                  go_on (callback scratch found s) _ (apply_entry found (directory s)) _ one (
                    apply_from_refines (index + 1) n (callback scratch found s).1
                      (subst WellFormed (sym after) (apply_entry-WellFormed found (directory s) w))
                    ∙ ap (apply_from read again start_lba entry apply_entry (index + 1) n) after))
        ]
      ]

  replay_log_refines :
      (data_sectors : ℕ) (s : Ramfs)
      → WellFormed (directory s)
      → seen (replay_log read again start_lba entry (callback scratch) data_sectors s)
        ≡ replay_log read again start_lba entry apply_entry data_sectors (directory s)
  unfolding replay_log
  replay_log_refines data_sectors s w =
      elim (Option-cases (scan_log read start_lba entry data_sectors)) [
        | inl e ↦ rw (replay_log, e) refl
        | inr ((total, last), e) ↦
            rw (replay_log, e) (ground (arith, apply_from_refines 0 total s w))
      ]

  -- A replay of a journal over a well-formed table succeeds or fails, counts and leaves files as the
  -- replay of the entries' meanings over the directory does, whatever the second pass reads.
  pub replay_refines :
      (sector_count : ℕ) (s : Ramfs)
      → WellFormed (directory s)
      → seen (replay read again start_lba entry (callback scratch) sector_count s)
        ≡ replay read again start_lba entry apply_entry sector_count (directory s)
  unfolding replay
  replay_refines sector_count s w = elim (Option-cases (read start_lba)) [
    | inl e ↦ rw (replay, e) (ground arith)
    | inr (sector, e) ↦ elim (Option-cases (superblock_decode (some sector))) [
      | inl d ↦ rw (replay, e, d) (ground arith)
      | inr (data_sectors, d) ↦
          rw (replay, e, d) (ground (arith, replay_log_refines data_sectors s w))
    ]
  ]
