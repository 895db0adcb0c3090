-- ===== src/Ramfs/Refine.antt =====
-- The table of fs/ramfs.c refines its directory: each call does to the table what the directory says.
use mathlib.Core.Option
use efes_os.Base.{
  ℕ, ◌≤◌, ◌≡◌, refl, sym, ap, ◌∙◌, true, false, List, Option, none, some, is_some, Bool-cases, inl,
  inr, arith,
}
use efes_os.Ramfs.{
  Text, Ramfs, RamfsFile, name_max, content_max, max_files, find_from, copy_string,
  replace_contents, write_found, ramfs_file_contents, ramfs_can_write_file, ramfs_write_file,
}
use efes_os.Ramfs.Texts.{text, string_length-text, valid_name-text, copy_string-fits, name_is_valid}
use efes_os.Ramfs.Table.{
  directory, outcome, length-entries_from, find_from-lookup, is_some-find_from, add_file-directory,
  replace-entries,
}
use efes_os.Ramfs.Directory.{Directory, lookup, put, can_write, read_file, write_file}

-- Reading a file is the lookup of its name.
pub file_contents_refines :
    (name : Text) (s : Ramfs)
    → Option.map (text content_max) (ramfs_file_contents (some name) s)
      ≡ read_file (text name_max name) (directory s)
unfolding ramfs_file_contents read_file
file_contents_refines name s =
    ground (arith, valid_name-text name, find_from-lookup name s.files 0 s.file_count)

can_write_file_refines :
    (name contents : Text) (s : Ramfs)
    → is_some (ramfs_can_write_file (some name) (some contents) s)
      ≡ can_write (text name_max name) (text content_max contents) (directory s)
unfolding ramfs_can_write_file can_write
can_write_file_refines name contents s = ground (
  arith,
  valid_name-text name,
  string_length-text contents content_max,
  is_some-find_from name s.files 0 s.file_count,
  length-entries_from s.files 0 s.file_count,
)

replaced : Text → RamfsFile → RamfsFile
replaced contents file = record {
  name = file.name;
  contents = copy_string file.contents contents content_max;
}

write_found-directory :
    (name contents : Text) (s : Ramfs) (found : Option ℕ)
    → find_from name s.files 0 s.file_count ≡ found
    → can_write (text name_max name) (text content_max contents) (directory s) ≡ true
    → s.file_count ≤ max_files
    → directory (write_found name contents found s)
      ≡ put (text name_max name) (text content_max contents) (directory s)
unfolding write_found replace_contents put can_write name_is_valid replaced
write_found-directory name contents s none e h small =
    let absent : is_some (lookup (text name_max name) (directory s)) ≡ false =
      sym (is_some-find_from name s.files 0 s.file_count) ∙ ap is_some e in
    rw absent (
      add_file-directory name contents s (ground arith) (ground arith)
        (ground (arith, length-entries_from s.files 0 s.file_count)))
write_found-directory name contents s (some j) e h small =
    let present : is_some (lookup (text name_max name) (directory s)) ≡ true =
      sym (is_some-find_from name s.files 0 s.file_count) ∙ ap is_some e in
    rw present (
      replace-entries name s.files (replaced contents (s.files j)) (text content_max contents) 0
        s.file_count j e
        (ap (λ (v : List ℕ). (text name_max (s.files j).name, v))
          (copy_string-fits (s.files j).contents contents 255 (ground arith))))

-- Writing a file: the same answer, and the directory afterwards.
pub write_file_refines :
    (name contents : Text) (s : Ramfs)
    → s.file_count ≤ max_files
    → outcome (ramfs_write_file (some name) (some contents) s)
      ≡ write_file (text name_max name) (text content_max contents) (directory s)
unfolding ramfs_write_file write_file
write_file_refines name contents s small =
    elim (Bool-cases (is_some (ramfs_can_write_file (some name) (some contents) s))) [
      | inl e ↦
          let can : can_write (text name_max name) (text content_max contents) (directory s)
              ≡ true =
            sym (can_write_file_refines name contents s) ∙ e in
          rw (e, write_file, can)
            (ap (λ (d : Directory). (true, d))
              (write_found-directory name contents s (find_from name s.files 0 s.file_count) refl
                can small))
      | inr e ↦
          let can : can_write (text name_max name) (text content_max contents) (directory s)
              ≡ false =
            sym (can_write_file_refines name contents s) ∙ e in
          rw (e, write_file, can)
    ]
