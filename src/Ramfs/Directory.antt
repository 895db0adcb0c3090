-- ===== src/Ramfs/Directory.antt =====
-- What fs/ramfs.c stands for: a directory as a list of names with contents, in the order of the table,
-- and what each call means on it.
use efes_os.Base.{
  ℕ, ◌≤◌, ◌<◌, ◌≡◌, refl, Bool, true, false, not, ◌&&◌, ◌||◌, List, [], ◌∷◌, ◌++◌, length, Option,
  none, some, is_some, ◌==◌, ltb, if◌then◌else◌, arith,
}
use efes_os.Ramfs.{content_max, max_files}
use efes_os.Ramfs.Texts.{bytes_equal, bytes_equal_iff, name_is_valid}

abbrev pub Directory : Type 0
Directory = List (List ℕ × List ℕ)

unfoldable pub lookup : List ℕ → Directory → Option (List ℕ)
lookup k [] = none
lookup k ((j, v) ∷ d) = if bytes_equal k j then some v else lookup k d

unfoldable pub assign : List ℕ → List ℕ → Directory → Directory
assign k v [] = []
assign k v ((j, w) ∷ d) = if bytes_equal k j then (j, v) ∷ d else (j, w) ∷ assign k v d

unfoldable pub delete : List ℕ → Directory → Directory
delete k [] = []
delete k ((j, w) ∷ d) = if bytes_equal k j then d else (j, w) ∷ delete k d

-- Reading, writing and removing a file.
unfoldable pub read_file : List ℕ → Directory → Option (List ℕ)
read_file k d = if name_is_valid k then lookup k d else none

unfoldable pub can_write : List ℕ → List ℕ → Directory → Bool
can_write k v d =
    name_is_valid k
    && ltb (length v) content_max
    && (is_some (lookup k d) || not (length d == max_files))

unfoldable pub put : List ℕ → List ℕ → Directory → Directory
put k v d = if is_some (lookup k d) then assign k v d else d ++ (k, v) ∷ []

unfoldable pub write_file : List ℕ → List ℕ → Directory → Bool × Directory
unfolding can_write put
write_file k v d = if can_write k v d then (true, put k v d) else (false, d)

unfoldable pub remove_file : List ℕ → Directory → Bool × Directory
remove_file k d = if name_is_valid k && is_some (lookup k d) then (true, delete k d) else (false, d)

pub lookup-assign :
    (k j v : List ℕ) (d : Directory)
    → lookup j (assign k v d)
      ≡ (if bytes_equal k j && is_some (lookup k d) then some v else lookup j d)
unfolding lookup assign
lookup-assign k j v [] = ground arith
lookup-assign k j v ((i, w) ∷ d) =
    ground
      (arith, bytes_equal_iff k j, bytes_equal_iff k i, bytes_equal_iff j i, lookup-assign k j v d)

pub lookup-append_one :
    (k j v : List ℕ) (d : Directory)
    → lookup j (d ++ (k, v) ∷ [])
      ≡ (if is_some (lookup j d) then lookup j d else if bytes_equal j k then some v else none)
unfolding lookup
lookup-append_one k j v [] = ground arith
lookup-append_one k j v ((i, w) ∷ d) = ground (arith, lookup-append_one k j v d)

-- After a write the name has the new contents, and every other name the contents it had.
pub lookup-put :
    (k j v : List ℕ) (d : Directory)
    → lookup j (put k v d) ≡ (if bytes_equal k j then some v else lookup j d)
unfolding put
lookup-put k j v d = ground (
  arith,
  bytes_equal_iff k j,
  bytes_equal_iff j k,
  lookup-assign k j v d,
  lookup-append_one k j v d,
)

-- No name stands twice.
abbrev pub Distinct : Directory → Type 0
Distinct [] = Unit
Distinct ((k, v) ∷ d) = (lookup k d ≡ none) × Distinct d

abbrev pub Entries : Directory → Type 0
Entries [] = Unit
Entries ((k, v) ∷ d) = (name_is_valid k ≡ true) × (length v < content_max) × Entries d

pub record WellFormed (d : Directory) : Type 0 where
  pub small : length d ≤ max_files
  pub entries : Entries d
  pub distinct : Distinct d

pub lookup-delete_other :
    (k j : List ℕ) (d : Directory) → bytes_equal k j ≡ false → lookup j (delete k d) ≡ lookup j d
unfolding lookup delete
lookup-delete_other k j [] h = refl
lookup-delete_other k j ((i, w) ∷ d) h = ground (
  arith,
  bytes_equal_iff k j,
  bytes_equal_iff k i,
  bytes_equal_iff j i,
  lookup-delete_other k j d h,
)

lookup-delete_self : (k : List ℕ) (d : Directory) → Distinct d → lookup k (delete k d) ≡ none
unfolding lookup delete
lookup-delete_self k [] h = refl
lookup-delete_self k ((i, w) ∷ d) (h, r) =
    ground (arith, bytes_equal_iff k i, lookup-delete_self k d r)

-- After a removal the name has no contents, and every other name the contents it had.
pub lookup-delete :
    (k j : List ℕ) (d : Directory)
    → Distinct d
    → lookup j (delete k d) ≡ (if bytes_equal k j then none else lookup j d)
lookup-delete k j d h =
    ground (arith, bytes_equal_iff k j, lookup-delete_other k j d, lookup-delete_self k d h)
