-- ===== src/Ramfs/Apply.antt =====
-- Journal entries applied to the files of fs/ramfs.c.
use mathlib.Core.Option
use efes_os.Base.{
  ℕ, zero, suc, ◌+◌, ◌≤◌, ◌<◌, ◌≡◌, refl, sym, ap, ◌∙◌, Bool, true, false, not, ◌&&◌, ◌||◌, List,
  [], ◌∷◌, Option, none, some, is_some, Option-cases, Bool-cases, inl, inr, ◌==◌, leb,
  if◌then◌else◌, arith,
}
use efes_os.Base.Arrays.{update}
use efes_os.Journal.Record.{JournalEntry, operation_write, operation_remove}
use efes_os.Ramfs.{
  Text, Ramfs, name_max, content_max, max_files, content_text, write_entry, remove_entry,
  ramfs_apply_journal_entry, ramfs_file_contents,
}
use efes_os.Ramfs.Texts.{text, text_from, valid_name-text, name_is_valid}
use efes_os.Ramfs.Directory.{Directory, WellFormed, lookup, read_file, write_file, remove_file}
use efes_os.Ramfs.Table.{directory, outcome}
use efes_os.Ramfs.Refine.{write_file_refines, file_contents_refines}
use efes_os.Ramfs.Run.{small_count}
use efes_os.Ramfs.Remove.{remove_file_refines}

-- The first `n` bytes.
unfoldable pub bytes_of : (ℕ → ℕ) → ℕ → ℕ → List ℕ
bytes_of content index zero = []
bytes_of content index (suc n) = content index ∷ bytes_of content (index + 1) n

unfoldable pub no_zero : List ℕ → Bool
no_zero [] = true
no_zero (b ∷ bytes) = not (b == 0) && no_zero bytes

-- What a journal entry means for a directory.
unfoldable pub apply_entry : JournalEntry → Directory → Bool × Directory
apply_entry entry d =
    let name = text name_max entry.name in
    let content = bytes_of entry.content 0 entry.content_length in
    if (entry.name_length == 0)
      || leb name_max entry.name_length
      || leb content_max entry.content_length
      || not (entry.name entry.name_length == 0)
      || not (name_is_valid name)
    then (false, d)
    else if entry.operation == operation_remove
    then if not (entry.content_length == 0) then (false, d) else (true, (remove_file name d).1)
    else if not (entry.operation == operation_write) || not (no_zero content)
    then (false, d)
    else write_file name content d

content_text-below :
    (entry : JournalEntry) (i n : ℕ) (content filled : Text) (j : ℕ)
    → content_text entry i n content ≡ some filled
    → i + n ≡ entry.content_length
    → j < i
    → filled j ≡ content j
unfolding content_text
content_text-below entry i zero content filled j h e p = ground arith
content_text-below entry i (suc n) content filled j h e p =
    ground (arith, content_text-below entry (i + 1) n (update content i (entry.content i)) filled j)

-- A content with a zero byte is refused, and any other is copied.
is_some-content_text :
    (entry : JournalEntry) (i n : ℕ) (content : Text)
    → is_some (content_text entry i n content) ≡ no_zero (bytes_of entry.content i n)
unfolding content_text no_zero bytes_of
is_some-content_text entry i zero content = refl
is_some-content_text entry i (suc n) content =
    ground (arith, is_some-content_text entry (i + 1) n (update content i (entry.content i)))

text_from-content_text :
    (entry : JournalEntry) (i n more : ℕ) (content filled : Text)
    → content_text entry i n content ≡ some filled
    → i + n ≡ entry.content_length
    → n < more
    → text_from filled i more ≡ bytes_of entry.content i n
unfolding content_text bytes_of text_from
text_from-content_text entry i n zero content filled h e p = absurd (omega arith)
text_from-content_text entry i zero (suc more) content filled h e p = ground arith
text_from-content_text entry i (suc n) (suc more) content filled h e p = ground (
  arith,
  text_from-content_text entry (i + 1) n more (update content i (entry.content i)) filled,
  content_text-below entry (i + 1) n (update content i (entry.content i)) filled i,
)

write_entry_refines :
    (entry : JournalEntry) (scratch : Text) (s : Ramfs)
    → s.file_count ≤ max_files
    → entry.content_length < content_max
    → outcome (write_entry entry scratch s) ≡ (
        if no_zero (bytes_of entry.content 0 entry.content_length)
        then write_file
            (text name_max entry.name)
            (bytes_of entry.content 0 entry.content_length)
            (directory s)
        else (false, directory s))
unfolding write_entry
write_entry_refines entry scratch s small fits =
    elim (Option-cases (content_text entry 0 entry.content_length scratch)) [
      | inl e ↦
          let zero_byte : no_zero (bytes_of entry.content 0 entry.content_length) ≡ false =
            sym (is_some-content_text entry 0 entry.content_length scratch) ∙ ap is_some e in
          rw (write_entry, e, zero_byte) refl
      | inr (filled, e) ↦
          let no_zero_byte : no_zero (bytes_of entry.content 0 entry.content_length) ≡ true =
            sym (is_some-content_text entry 0 entry.content_length scratch) ∙ ap is_some e in
          rw
            (
              write_entry,
              e,
              no_zero_byte,
              ← text_from-content_text entry 0 entry.content_length content_max scratch filled e
                  (omega arith) fits,
            )
            (write_file_refines entry.name filled s small)
    ]

is_some-file_contents :
    (name : Text) (s : Ramfs)
    → is_some (ramfs_file_contents (some name) s)
      ≡ is_some (read_file (text name_max name) (directory s))
is_some-file_contents name s =
    is_some-map (ramfs_file_contents (some name) s) ∙ ap is_some (file_contents_refines name s)
  where
    is_some-map : (o : Option Text) → is_some o ≡ is_some (Option.map (text content_max) o)
    is_some-map none = refl
    is_some-map (some value) = refl

remove_entry_refines :
    (entry : JournalEntry) (s : Ramfs)
    → WellFormed (directory s)
    → name_is_valid (text name_max entry.name) ≡ true
    → outcome (remove_entry entry s) ≡ (
        if not (entry.content_length == 0)
        then (false, directory s)
        else (true, (remove_file (text name_max entry.name) (directory s)).1))
unfolding remove_entry read_file remove_file
remove_entry_refines entry s w valid =
    elim (Bool-cases (is_some (lookup (text name_max entry.name) (directory s)))) [
      | inl f ↦
          let present : is_some (ramfs_file_contents (some entry.name) s) ≡ true =
            is_some-file_contents entry.name s ∙ ground arith in
          rw (remove_entry, present) (ground (arith, remove_file_refines entry.name s))
      | inr f ↦
          let absent : is_some (ramfs_file_contents (some entry.name) s) ≡ false =
            is_some-file_contents entry.name s ∙ ground arith in
          rw (remove_entry, absent) (ground arith)
    ]

-- Applying a journal entry: the same answer as its meaning, and the directory afterwards.
pub apply_journal_entry_refines :
    (entry : JournalEntry) (scratch : Text) (s : Ramfs)
    → WellFormed (directory s)
    → outcome (ramfs_apply_journal_entry (some entry) scratch s) ≡ apply_entry entry (directory s)
unfolding ramfs_apply_journal_entry apply_entry
apply_journal_entry_refines entry scratch s w = ground (
  arith,
  valid_name-text entry.name,
  remove_entry_refines entry s w,
  write_entry_refines entry scratch s (small_count s w),
)
