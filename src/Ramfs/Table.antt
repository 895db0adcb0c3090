-- ===== src/Ramfs/Table.antt =====
-- The directory that the table of fs/ramfs.c stands for, and what the helpers of its calls do to it.
use efes_os.Base.{
  ℕ, zero, suc, ◌+◌, ◌≤◌, ◌<◌, ◌≡◌, refl, ap, ap₂, ◌∙◌, Bool, false, List, [], ◌∷◌, ◌++◌, map,
  length, Option, none, some, is_some, Bool-cases, inl, inr, ◌==◌, arith,
}
use efes_os.Base.Arrays.{update, slice}
use efes_os.Base.Words.{add32}
use efes_os.Ramfs.{
  Text, Ramfs, RamfsFile, name_max, content_max, max_files, find_from, string_equals, store,
  add_file,
}
use efes_os.Ramfs.Texts.{text, string_equals-text, copy_string-fits}
use efes_os.Ramfs.Directory.{Directory, lookup, assign}

abbrev pub entry_of : RamfsFile → List ℕ × List ℕ
entry_of file = (text name_max file.name, text content_max file.contents)

abbrev pub entries_from : (ℕ → RamfsFile) → ℕ → ℕ → Directory
entries_from files index n = map entry_of (slice files index n)

-- The directory that a table stands for.
abbrev pub directory : Ramfs → Directory
directory s = entries_from s.files 0 s.file_count

-- A call's answer with the directory afterwards.
abbrev pub outcome : Bool × Ramfs → Bool × Directory
outcome (ok, s) = (ok, directory s)

pub length-entries_from : (files : ℕ → RamfsFile) (i n : ℕ) → length (entries_from files i n) ≡ n
length-entries_from files i zero = refl
length-entries_from files i (suc n) = ap suc (length-entries_from files (i + 1) n)

-- The files at other indices do not change.
pub entries_from-cong :
    (files other : ℕ → RamfsFile) (i n : ℕ)
    → ((j : ℕ) → i ≤ j → j < i + n → entry_of (files j) ≡ entry_of (other j))
    → entries_from files i n ≡ entries_from other i n
entries_from-cong files other i zero h = refl
entries_from-cong files other i (suc n) h =
    ap₂ ◌∷◌ (h i (omega arith) (omega arith))
      (entries_from-cong files other (i + 1) n (λ j p q. h j (omega arith) (omega arith)))

abbrev contents_at : (ℕ → RamfsFile) → Option ℕ → Option (List ℕ)
contents_at files none = none
contents_at files (some j) = some (text content_max (files j).contents)

pub find_from-lookup :
    (name : Text) (files : ℕ → RamfsFile) (i n : ℕ)
    → contents_at files (find_from name files i n)
      ≡ lookup (text name_max name) (entries_from files i n)
unfolding find_from lookup
find_from-lookup name files i zero = refl
find_from-lookup name files i (suc n) =
    ground (arith, string_equals-text name (files i).name, find_from-lookup name files (i + 1) n)

pub find_from-bounds :
    (name : Text) (files : ℕ → RamfsFile) (i n j : ℕ)
    → find_from name files i n ≡ some j
    → (i ≤ j) × (j < i + n)
unfolding find_from
find_from-bounds name files i zero j h = absurd (ground arith)
find_from-bounds name files i (suc n) j h = elim (Bool-cases (string_equals name (files i).name)) [
  | inl e ↦ (ground arith, ground arith)
  | inr e ↦
      let b : (i + 1 ≤ j) × (j < i + 1 + n) =
        find_from-bounds name files (i + 1) n j (ground arith) in
      (omega arith, omega arith)
]

-- A test for a file in the table is the lookup's.
pub is_some-find_from :
    (name : Text) (files : ℕ → RamfsFile) (i n : ℕ)
    → is_some (find_from name files i n)
      ≡ is_some (lookup (text name_max name) (entries_from files i n))
is_some-find_from name files i n = ground (arith, find_from-lookup name files i n)

entries_from-snoc :
    (files : ℕ → RamfsFile) (i n : ℕ)
    → entries_from files i (suc n) ≡ entries_from files i n ++ entry_of (files (i + n)) ∷ []
entries_from-snoc files i zero = let e : i + 0 ≡ i = omega arith in rw e
entries_from-snoc files i (suc n) =
    let e : i + suc n ≡ i + 1 + n = omega arith in
    rw e (ap (◌∷◌ (entry_of (files i))) (entries_from-snoc files (i + 1) n))

pub entry_of-store :
    (name contents : Text) (file : RamfsFile)
    → length (text name_max name) < name_max
    → length (text content_max contents) < content_max
    → entry_of (store name contents file) ≡ (text name_max name, text content_max contents)
unfolding store
entry_of-store name contents file h k =
    ap₂ (λ (a b : List ℕ). (a, b)) (copy_string-fits file.name name 31 h)
      (copy_string-fits file.contents contents 255 k)

pub add_file-directory :
    (name contents : Text) (s : Ramfs)
    → length (text name_max name) < name_max
    → length (text content_max contents) < content_max
    → s.file_count < max_files
    → directory (add_file name contents s)
      ≡ directory s ++ (text name_max name, text content_max contents) ∷ []
unfolding add_file
add_file-directory name contents s h k small =
    let full : (s.file_count == max_files) ≡ false = ground arith in
    let more : add32 s.file_count 1 ≡ suc s.file_count = omega arith in
    rw (full, more)
      (entries_from-snoc (update s.files s.file_count added) 0 s.file_count
        ∙ ap₂ ◌++◌
            (entries_from-cong (update s.files s.file_count added) s.files 0 s.file_count
              (λ j p q. ground arith))
            (ap (λ e. e ∷ []) (same ∙ entry_of-store name contents (s.files s.file_count) h k)))
  where
    added : RamfsFile
    added = store name contents (s.files s.file_count)

    same : entry_of (update s.files s.file_count added (0 + s.file_count)) ≡ entry_of added
    same = ground arith

pub replace-entries :
    (name : Text) (files : ℕ → RamfsFile) (new : RamfsFile) (v : List ℕ) (i n j : ℕ)
    → find_from name files i n ≡ some j
    → entry_of new ≡ (text name_max (files j).name, v)
    → entries_from (update files j new) i n ≡ assign (text name_max name) v (entries_from files i n)
unfolding find_from assign
replace-entries name files new v i zero j h e = absurd (ground arith)
replace-entries name files new v i (suc n) j h e =
    elim (Bool-cases (string_equals name (files i).name)) [
      | inl same ↦
          let at : j ≡ i = ground arith in
          rw (← string_equals-text name (files i).name, same)
            (ap₂ ◌∷◌ (ground (arith, e))
              (entries_from-cong (update files j new) files (i + 1) n (λ k p q. ground arith)))
      | inr other ↦
          let rest : find_from name files (i + 1) n ≡ some j = ground arith in
          rw (← string_equals-text name (files i).name, other)
            (ap₂ ◌∷◌ (ground (arith, find_from-bounds name files (i + 1) n j rest))
              (replace-entries name files new v (i + 1) n j rest e))
    ]
