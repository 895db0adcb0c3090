-- ===== src/Ramfs/Tests.antt =====
-- Tests of the files in memory, and the theorems at concrete inputs.
use efes_os.Base.{none, ℕ, ◌≡◌, refl, true, List, [], ◌∷◌, Option, some, ◌==◌, if◌then◌else◌, arith}
use efes_os.Base.Strings.{codes}
use efes_os.Journal.Record.{JournalEntry, encode}
use efes_os.Journal.{Sector, superblock_encode}
use efes_os.Journal.Log.{replay}
use efes_os.Ramfs.{
  Text, Ramfs, literal, ramfs_init, ramfs_is_pristine, ramfs_write_file, ramfs_can_write_file,
  ramfs_apply_journal_entry, add_file, store, copy_string, copy_bytes, find_from, string_equals,
  equals_from, valid_name, string_length, length_from, name_bytes_are_valid, is_refused,
  write_found, write_entry, content_text,
}
use efes_os.Ramfs.Texts.{text_from, name_is_valid, bytes_equal}
use efes_os.Ramfs.Directory.{WellFormed, lookup}
use efes_os.Ramfs.Table.{directory, outcome}
use efes_os.Ramfs.Run.{Call, run, all_meant, run_refines}
use efes_os.Ramfs.Apply.{apply_entry}
use efes_os.Ramfs.Replay.{apply_journal_entry_twice, replay_refines, callback, seen}

abbrev cold : Ramfs
cold = record { files = λ i. record { name = λ j. 255; contents = λ j. 255 }; file_count = 7 }

abbrev booted : Ramfs
booted = ramfs_init cold

ramfs_init-is_pristine : ramfs_is_pristine booted ≡ true
unfolding ramfs_init add_file store copy_string copy_bytes ramfs_is_pristine string_equals
    equals_from
ramfs_init-is_pristine = refl

ramfs_init_directory :
    directory booted
    ≡ (codes "README", codes "EfesOS RAM filesystem\n")
      ∷ (codes "MOTD", codes "Build, learn, and drink responsibly.\n")
      ∷ (codes "EFES", codes "EfesOS RAM filesystem entry.\n")
      ∷ []
unfolding ramfs_init add_file store copy_string copy_bytes text_from
ramfs_init_directory = refl

booted-WellFormed : WellFormed (directory booted)
unfolding ramfs_init add_file store copy_string copy_bytes text_from name_is_valid is_refused lookup
    bytes_equal
booted-WellFormed = record {
  small = omega arith;
  entries = (refl, omega arith, (refl, omega arith, (refl, omega arith, tt)));
  distinct = (refl, (refl, (refl, tt)));
}

abbrev calls : List Call
calls =
    Call.write (some (literal "NOTE")) (some (literal "first"))
    ∷ Call.remove (some (literal "MOTD"))
    ∷ Call.write (some (literal "a/b")) (some (literal "refused"))
    ∷ Call.write (some (literal "NOTE")) (some (literal "second"))
    ∷ []

run_refines_example :
    (directory (run calls booted) ≡ all_meant calls (directory booted))
    × WellFormed (directory (run calls booted))
run_refines_example = run_refines calls booted booted-WellFormed

-- The entry of a committed write of "hi" to "NOTE".
abbrev note : JournalEntry
note = record {
  operation = 1;
  sequence = 4;
  name_length = 4;
  content_length = 2;
  name = literal "NOTE";
  content = literal "hi";
}

abbrev scratch : Text
scratch = λ i. 99

note_accepted : (ramfs_apply_journal_entry (some note) scratch booted).0 ≡ true
unfolding ramfs_init add_file store copy_string copy_bytes ramfs_apply_journal_entry valid_name
    string_length length_from name_bytes_are_valid is_refused write_entry content_text
    ramfs_write_file ramfs_can_write_file find_from string_equals equals_from write_found
note_accepted = refl

apply_journal_entry_twice_example :
    outcome (
      ramfs_apply_journal_entry
        (some note)
        (λ i. 7)
        (ramfs_apply_journal_entry (some note) scratch booted).1)
    ≡ (true, directory (ramfs_apply_journal_entry (some note) scratch booted).1)
apply_journal_entry_twice_example =
    apply_journal_entry_twice note scratch (λ i. 7) booted booted-WellFormed note_accepted

-- A disk with a journal of one record.
abbrev journal_disk : ℕ → Option Sector
journal_disk lba =
    if lba == 100
    then superblock_encode (some (λ i. 0)) 63
    else if lba == 101
    then encode (some (λ i. 0)) 1 4 (some (literal "NOTE")) (some (literal "hi")) 2
    else some (λ i. 0)

-- The second pass does not find the record again.
abbrev lost : ℕ → Option Sector
lost lba = none

replay_refines_example :
    seen (replay journal_disk lost 100 note (callback scratch) 64 booted)
    ≡ replay journal_disk lost 100 note apply_entry 64 (directory booted)
replay_refines_example =
    replay_refines journal_disk lost 100 note scratch 64 booted booted-WellFormed
