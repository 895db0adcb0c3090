-- ===== src/Ramfs.antt =====
-- fs/ramfs.c and fs/ramfs.h: files in memory. A text in memory is a function from the index to the
-- byte there, and it ends at its first zero byte. A pointer that may be null is an `Option`.
pub mod Texts
pub mod Directory
pub mod Invariant
pub mod Table
pub mod Refine
pub mod Remove
pub mod Run
pub mod Apply
pub mod Replay
mod Tests
use efes_os.Base.{
  ℕ, zero, suc, ◌+◌, ◌-◌, Bool, true, false, not, ◌&&◌, ◌||◌, Option, none, some, is_some, ◌==◌,
  ltb, leb, get_or, if◌then◌else◌,
}
use efes_os.Base.Words.{add32, sub32}
use efes_os.Base.Arrays.{update}
use efes_os.Base.Strings.{String, codes}
use efes_os.Journal.Record.{JournalEntry, operation_write, operation_remove}

-- RAMFS_NAME_MAX, RAMFS_CONTENT_MAX and RAMFS_MAX_FILES
abbrev pub name_max : ℕ
name_max = 32

abbrev pub content_max : ℕ
content_max = 256

abbrev pub max_files : ℕ
max_files = 16

abbrev pub Text : Type 0
Text = ℕ → ℕ

pub record RamfsFile : Type 0 where
  pub name : Text
  pub contents : Text

pub record Ramfs : Type 0 where
  pub files : ℕ → RamfsFile
  pub file_count : ℕ

-- The comparison from `index` on, in `n` rounds at most. Of two texts that are equal in the first `n`
-- bytes and do not end there nothing more is read; `name_max` rounds reach the end of a file's name.
unfoldable pub equals_from : Text → Text → ℕ → ℕ → Bool
equals_from left right index zero = true
equals_from left right index (suc n) =
    let rest = equals_from left right (index + 1) n in
    if not (left index == 0) && not (right index == 0)
    then if not (left index == right index) then false else rest
    else left index == right index

unfoldable pub string_equals : Text → Text → Bool
string_equals left right = equals_from left right 0 name_max

-- The `n` rounds of the search for the end that are left at `length`.
unfoldable pub length_from : Text → ℕ → ℕ → ℕ
length_from value length zero = length
length_from value length (suc n) =
    let rest = length_from value (length + 1) n in if not (value length == 0) then rest else length

unfoldable pub string_length : Option Text → ℕ → ℕ
string_length none limit = limit
string_length (some value) limit = length_from value 0 limit

-- A character that no name has: a blank or a control character, '/' and '\'.
unfoldable pub is_refused : ℕ → Bool
is_refused character = ltb character 33 || (character == 47) || (character == 92)

unfoldable pub name_bytes_are_valid : Text → ℕ → ℕ → Bool
name_bytes_are_valid name index zero = true
name_bytes_are_valid name index (suc n) =
    let rest = name_bytes_are_valid name (index + 1) n in
    if is_refused (name index) then false else rest

unfoldable pub valid_name : Option Text → Bool
valid_name none = false
valid_name (some name) =
    let length = string_length (some name) name_max in
    if (length == 0) || leb name_max length then false else name_bytes_are_valid name 0 length

-- The `n` rounds of the copy that are left at `index`, and the zero byte behind them.
unfoldable pub copy_bytes : Text → ℕ → ℕ → Text → Text
copy_bytes source index zero destination = update destination index 0
copy_bytes source index (suc n) destination =
    let rest = copy_bytes source (index + 1) n (update destination index (source index)) in
    if not (source index == 0) then rest else update destination index 0

unfoldable pub copy_string : Text → Text → ℕ → Text
copy_string destination source capacity = copy_bytes source 0 (capacity - 1) destination

unfoldable pub store : Text → Text → RamfsFile → RamfsFile
store name contents file = record {
  name = copy_string file.name name name_max;
  contents = copy_string file.contents contents content_max;
}

unfoldable pub add_file : Text → Text → Ramfs → Ramfs
add_file name contents s = if s.file_count == max_files then s else record {
  files = update s.files s.file_count (store name contents (s.files s.file_count));
  file_count = add32 s.file_count 1;
}

-- The first of the `n` files from `index` on that has the name.
unfoldable pub find_from : Text → (ℕ → RamfsFile) → ℕ → ℕ → Option ℕ
find_from name files index zero = none
find_from name files index (suc n) =
    let rest = find_from name files (index + 1) n in
    if string_equals name (files index).name then some index else rest

-- A text literal, as a constant array.
abbrev pub literal : String → Text
literal s i = get_or (codes s) i 0

-- "README", "MOTD" and "EFES"
unfoldable pub ramfs_init : Ramfs → Ramfs
ramfs_init s = add_file (literal "EFES") (literal "EfesOS RAM filesystem entry.\n") (
    add_file (literal "MOTD") (literal "Build, learn, and drink responsibly.\n") (
      add_file (literal "README") (literal "EfesOS RAM filesystem\n")
        (record s { file_count = 0 })))

unfoldable pub ramfs_is_pristine : Ramfs → Bool
ramfs_is_pristine s =
    (s.file_count == 3)
    && string_equals (s.files 0).name (literal "README")
    && string_equals (s.files 1).name (literal "MOTD")
    && string_equals (s.files 2).name (literal "EFES")

unfoldable pub ramfs_file_count : Ramfs → ℕ
ramfs_file_count s = s.file_count

-- The empty text where the index is out of range.
unfoldable pub ramfs_file_name : ℕ → Ramfs → Text
ramfs_file_name index s = if leb s.file_count index then (λ i. 0) else (s.files index).name

unfoldable pub ramfs_file_contents : Option Text → Ramfs → Option Text
ramfs_file_contents none s = none
ramfs_file_contents (some name) s =
    if not (valid_name (some name)) then none else elim (find_from name s.files 0 s.file_count) [
      | none ↦ none
      | some index ↦ some (s.files index).contents
    ]

-- The length of the contents, where they can be written.
unfoldable pub ramfs_can_write_file : Option Text → Option Text → Ramfs → Option ℕ
ramfs_can_write_file none contents s = none
ramfs_can_write_file (some name) none s = none
ramfs_can_write_file (some name) (some contents) s =
    let length = string_length (some contents) content_max in
    if not (valid_name (some name))
    then none
    else if leb content_max length
    then none
    else if is_some (find_from name s.files 0 s.file_count) || not (s.file_count == max_files)
    then some length
    else none

unfoldable pub replace_contents : Text → ℕ → Ramfs → Ramfs
replace_contents contents index s = record s {
  files = update s.files index (record {
    name = (s.files index).name;
    contents = copy_string (s.files index).contents contents content_max;
  });
}

unfoldable pub write_found : Text → Text → Option ℕ → Ramfs → Ramfs
write_found name contents none s = add_file name contents s
write_found name contents (some index) s = replace_contents contents index s

unfoldable pub ramfs_write_file : Option Text → Option Text → Ramfs → Bool × Ramfs
ramfs_write_file none contents s = (false, s)
ramfs_write_file (some name) none s = (false, s)
ramfs_write_file (some name) (some contents) s =
    if not (is_some (ramfs_can_write_file (some name) (some contents) s))
    then (false, s)
    else (true, write_found name contents (find_from name s.files 0 s.file_count) s)

-- The `n` files behind `index` move down by one.
unfoldable pub move_down : ℕ → ℕ → (ℕ → RamfsFile) → ℕ → RamfsFile
move_down index zero files = files
move_down index (suc n) files =
    move_down (index + 1) n (
      update files index
        (store (files (index + 1)).name (files (index + 1)).contents (files index)))

unfoldable pub remove_at : ℕ → Ramfs → Ramfs
remove_at index s = record {
  files = move_down index (s.file_count - (index + 1)) s.files;
  file_count = sub32 s.file_count 1;
}

unfoldable pub ramfs_remove_file : Option Text → Ramfs → Bool × Ramfs
ramfs_remove_file none s = (false, s)
ramfs_remove_file (some name) s =
    if not (valid_name (some name))
    then (false, s)
    else elim (find_from name s.files 0 s.file_count) [
      | none ↦ (false, s)
      | some index ↦ (true, remove_at index s)
    ]

-- The bytes of an entry's content as a text, where none of them is zero.
unfoldable pub content_text : JournalEntry → ℕ → ℕ → Text → Option Text
content_text entry index zero content = some (update content entry.content_length 0)
content_text entry index (suc n) content =
    let rest = content_text entry (index + 1) n (update content index (entry.content index)) in
    if entry.content index == 0 then none else rest

-- Where the content is a text it is written. The array on the stack begins as `scratch`.
unfoldable pub write_entry : JournalEntry → Text → Ramfs → Bool × Ramfs
write_entry entry scratch s = elim (content_text entry 0 entry.content_length scratch) [
  | none ↦ (false, s)
  | some content ↦ ramfs_write_file (some entry.name) (some content) s
]

unfoldable pub remove_entry : JournalEntry → Ramfs → Bool × Ramfs
remove_entry entry s =
    if not (entry.content_length == 0)
    then (false, s)
    else if not (is_some (ramfs_file_contents (some entry.name) s))
    then (true, s)
    else ramfs_remove_file (some entry.name) s

unfoldable pub ramfs_apply_journal_entry : Option JournalEntry → Text → Ramfs → Bool × Ramfs
ramfs_apply_journal_entry none scratch s = (false, s)
ramfs_apply_journal_entry (some entry) scratch s =
    if (entry.name_length == 0)
      || leb name_max entry.name_length
      || leb content_max entry.content_length
      || not (entry.name entry.name_length == 0)
      || not (valid_name (some entry.name))
    then (false, s)
    else if entry.operation == operation_remove
    then remove_entry entry s
    else if not (entry.operation == operation_write)
    then (false, s)
    else write_entry entry scratch s
