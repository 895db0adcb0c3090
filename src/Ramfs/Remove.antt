-- ===== src/Ramfs/Remove.antt =====
-- The removal of a file in fs/ramfs.c, where the later files move down.
use efes_os.Base.{
  ℕ, zero, suc, ◌+◌, ◌-◌, ◌≤◌, ◌<◌, ◌≡◌, refl, sym, subst, ap, ap₂, ◌∙◌, true, false, ◌∷◌, length,
  some, is_some, Option-cases, Bool-cases, inl, inr, ◌==◌, arith,
}
use efes_os.Base.Arrays.{update}
use efes_os.Base.Words.{sub32}
use efes_os.Ramfs.{
  Text, Ramfs, RamfsFile, name_max, content_max, max_files, find_from, string_equals, store,
  move_down, remove_at, ramfs_remove_file,
}
use efes_os.Ramfs.Texts.{text, string_equals-text, valid_name-text, name_is_valid}
use efes_os.Ramfs.Table.{
  entry_of, entries_from, directory, outcome, length-entries_from, find_from-bounds,
  is_some-find_from, entries_from-cong, entry_of-store,
}
use efes_os.Ramfs.Directory.{Entries, WellFormed, lookup, delete, remove_file}

-- A file whose texts end within their arrays.
abbrev Fits : RamfsFile → Type 0
Fits file =
    (length (text name_max file.name) < name_max)
    × (length (text content_max file.contents) < content_max)

Entries-Fits :
    (files : ℕ → RamfsFile) (i n j : ℕ)
    → Entries (entries_from files i n)
    → i ≤ j
    → j < i + n
    → Fits (files j)
unfolding name_is_valid
Entries-Fits files i zero j h p q = absurd (omega arith)
Entries-Fits files i (suc n) j (k, v, h) p q = elim (Bool-cases (j == i)) [
  | inl e ↦ let at : j ≡ i = ground arith in rw at (ground arith, v)
  | inr e ↦ Entries-Fits files (i + 1) n j h (ground arith) (ground arith)
]

move_down-below :
    (i n : ℕ) (files : ℕ → RamfsFile) (j : ℕ) → j < i → move_down i n files j ≡ files j
unfolding move_down
move_down-below i zero files j h = refl
move_down-below i (suc n) files j h = move_down-below (i + 1) n _ j (omega arith) ∙ ground arith

move_down-entries :
    (i n : ℕ) (files : ℕ → RamfsFile)
    → ((j : ℕ) → i < j → j < i + 1 + n → Fits (files j))
    → entries_from (move_down i n files) i n ≡ entries_from files (i + 1) n
unfolding move_down
move_down-entries i zero files h = refl
move_down-entries i (suc n) files h =
    ap₂ ◌∷◌
      (ap entry_of (move_down-below (i + 1) n moved i (omega arith))
        ∙ ap entry_of here
        ∙ entry_of-store (files (i + 1)).name (files (i + 1)).contents (files i)
            (h (i + 1) (omega arith) (omega arith)).0 (h (i + 1) (omega arith) (omega arith)).1)
      (move_down-entries (i + 1) n moved
          (λ j p q. subst Fits (sym (there j (omega arith))) (h j (omega arith) (omega arith)))
        ∙ entries_from-cong moved files (i + 1 + 1) n
            (λ j p q. ap entry_of (there j (omega arith))))
  where
    moved : ℕ → RamfsFile
    moved = update files i (store (files (i + 1)).name (files (i + 1)).contents (files i))

    here : moved i ≡ store (files (i + 1)).name (files (i + 1)).contents (files i)
    here = ground arith

    there : (j : ℕ) → i < j → moved j ≡ files j
    there j p = ground arith

delete-entries_from :
    (name : Text) (files : ℕ → RamfsFile) (i n j : ℕ)
    → Entries (entries_from files i n)
    → find_from name files i n ≡ some j
    → entries_from (move_down j (i + n - (j + 1)) files) i (n - 1)
      ≡ delete (text name_max name) (entries_from files i n)
unfolding find_from delete
delete-entries_from name files i zero j h e = absurd (ground arith)
delete-entries_from name files i (suc zero) j h e =
    elim (Bool-cases (string_equals name (files i).name)) [
      | inl same ↦ rw (← string_equals-text name (files i).name, same) refl
      | inr other ↦ absurd (ground arith)
    ]
delete-entries_from name files i (suc (suc n)) j (valid, fits, h) e =
    let fewer : suc (suc n) - 1 ≡ suc n = omega arith in
    elim (Bool-cases (string_equals name (files i).name)) [
      | inl same ↦
          let at : j ≡ i = ground arith in
          let left : i + suc (suc n) - (i + 1) ≡ suc n = omega arith in
          rw (← string_equals-text name (files i).name, same, at, left, fewer)
            (move_down-entries i (suc n) files
              (λ k p q. Entries-Fits files (i + 1) (suc n) k h (omega arith) (omega arith)))
      | inr other ↦
          let rest : find_from name files (i + 1) (suc n) ≡ some j = ground arith in
          let after : i < j = omega (arith, find_from-bounds name files (i + 1) (suc n) j rest) in
          let left : i + suc (suc n) - (j + 1) ≡ i + 1 + suc n - (j + 1) = omega arith in
          rw (← string_equals-text name (files i).name, other, left, fewer)
            (ap₂ ◌∷◌ (ap entry_of (move_down-below j (i + 1 + suc n - (j + 1)) files i after)) (
              let one : suc n - 1 ≡ n = omega arith in
              rw one at (delete-entries_from name files (i + 1) (suc n) j h rest)))
    ]

remove_at-directory :
    (name : Text) (s : Ramfs) (j : ℕ)
    → WellFormed (directory s)
    → find_from name s.files 0 s.file_count ≡ some j
    → j < s.file_count
    → s.file_count ≤ max_files
    → directory (remove_at j s) ≡ delete (text name_max name) (directory s)
unfolding remove_at
remove_at-directory name s j w e p q =
    let fewer : sub32 s.file_count 1 ≡ s.file_count - 1 = omega arith in
    let span : s.file_count - (j + 1) ≡ 0 + s.file_count - (j + 1) = omega arith in
    rw (fewer, span) (delete-entries_from name s.files 0 s.file_count j w.entries e)

-- Removing a file: the same answer, and the directory afterwards.
pub remove_file_refines :
    (name : Text) (s : Ramfs)
    → WellFormed (directory s)
    → outcome (ramfs_remove_file (some name) s) ≡ remove_file (text name_max name) (directory s)
unfolding ramfs_remove_file remove_file
remove_file_refines name s w = elim (Option-cases (find_from name s.files 0 s.file_count)) [
  | inl e ↦
      let absent : is_some (lookup (text name_max name) (directory s)) ≡ false =
        sym (is_some-find_from name s.files 0 s.file_count) ∙ ap is_some e in
      rw (e, absent) (ground arith)
  | inr (j, e) ↦
      let present : is_some (lookup (text name_max name) (directory s)) ≡ true =
        sym (is_some-find_from name s.files 0 s.file_count) ∙ ap is_some e in
      let bounds : j < 0 + s.file_count = (find_from-bounds name s.files 0 s.file_count j e).1 in
      let gone : directory (remove_at j s) ≡ delete (text name_max name) (directory s) =
        remove_at-directory name s j w e (omega arith)
          (omega (arith, w.small, length-entries_from s.files 0 s.file_count)) in
      rw (e, present) (ground (arith, valid_name-text name, gone))
]
