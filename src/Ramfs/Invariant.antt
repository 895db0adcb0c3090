-- ===== src/Ramfs/Invariant.antt =====
-- A directory of fs/ramfs.c stays well formed.
use efes_os.Base.{
  ℕ, ◌<◌, ◌≡◌, refl, Bool, true, false, List, [], ◌∷◌, ◌++◌, length, length-append, none, is_some,
  if◌then◌else◌, arith, ◌-◌, Bool-cases, Option-cases, inl, inr, if_both,
}
use efes_os.Ramfs.{content_max}
use efes_os.Ramfs.Texts.{bytes_equal, bytes_equal_iff, name_is_valid}
use efes_os.Ramfs.Directory.{
  Directory, Distinct, Entries, WellFormed, lookup, assign, delete, put, can_write, write_file,
  remove_file, lookup-append_one, lookup-assign,
}

length-assign : (k v : List ℕ) (d : Directory) → length (assign k v d) ≡ length d
unfolding assign
length-assign k v [] = refl
length-assign k v ((j, w) ∷ d) = ground (arith, length-assign k v d)

length-delete :
    (k : List ℕ) (d : Directory)
    → length (delete k d) ≡ (if is_some (lookup k d) then length d - 1 else length d)
unfolding delete lookup
length-delete k [] = refl
length-delete k ((j, w) ∷ d) = ground (arith, length-delete k d, nonempty k d)
  where
    nonempty : (k : List ℕ) (d : Directory) → is_some (lookup k d) ≡ true → 0 < length d
    nonempty k [] h = absurd (ground arith)
    nonempty k (e ∷ d) h = omega arith

Entries-assign :
    (k v : List ℕ) (d : Directory) → length v < content_max → Entries d → Entries (assign k v d)
unfolding assign
Entries-assign k v [] h e = tt
Entries-assign k v ((j, w) ∷ d) h (a, b, e) = elim (Bool-cases (bytes_equal k j)) [
  | inl same ↦ rw same (a, h, e)
  | inr other ↦ rw other (a, b, Entries-assign k v d h e)
]

Entries-append_one :
    (k v : List ℕ) (d : Directory)
    → name_is_valid k ≡ true
    → length v < content_max
    → Entries d
    → Entries (d ++ (k, v) ∷ [])
Entries-append_one k v [] n h e = (n, h, tt)
Entries-append_one k v ((j, w) ∷ d) n h (a, b, e) = (a, b, Entries-append_one k v d n h e)

Entries-delete : (k : List ℕ) (d : Directory) → Entries d → Entries (delete k d)
unfolding delete
Entries-delete k [] e = tt
Entries-delete k ((j, w) ∷ d) (a, b, e) = elim (Bool-cases (bytes_equal k j)) [
  | inl same ↦ rw same e
  | inr other ↦ rw other (a, b, Entries-delete k d e)
]

Distinct-assign : (k v : List ℕ) (d : Directory) → Distinct d → Distinct (assign k v d)
unfolding assign
Distinct-assign k v [] h = tt
Distinct-assign k v ((j, w) ∷ d) (fresh, r) = elim (Bool-cases (bytes_equal k j)) [
  | inl same ↦ rw same (fresh, r)
  | inr other ↦ rw other (ground (arith, lookup-assign k j v d), Distinct-assign k v d r)
]

Distinct-append_one :
    (k v : List ℕ) (d : Directory) → lookup k d ≡ none → Distinct d → Distinct (d ++ (k, v) ∷ [])
unfolding lookup
Distinct-append_one k v [] n h = (refl, tt)
Distinct-append_one k v ((j, w) ∷ d) n (fresh, r) = (
  ground (arith, lookup-append_one k j v d, bytes_equal_iff j k, bytes_equal_iff k j),
  Distinct-append_one k v d (ground arith) r,
)

lookup-delete-none :
    (k j : List ℕ) (d : Directory) → lookup j d ≡ none → lookup j (delete k d) ≡ none
unfolding lookup delete
lookup-delete-none k j [] h = refl
lookup-delete-none k j ((i, w) ∷ d) h = ground (arith, lookup-delete-none k j d)

Distinct-delete : (k : List ℕ) (d : Directory) → Distinct d → Distinct (delete k d)
unfolding delete
Distinct-delete k [] h = tt
Distinct-delete k ((j, w) ∷ d) (fresh, r) = elim (Bool-cases (bytes_equal k j)) [
  | inl same ↦ rw same r
  | inr other ↦ rw other (lookup-delete-none k j d fresh, Distinct-delete k d r)
]

put-WellFormed :
    (k v : List ℕ) (d : Directory) → can_write k v d ≡ true → WellFormed d → WellFormed (put k v d)
unfolding put can_write
put-WellFormed k v d h w = elim (Option-cases (lookup k d)) [
  | inl e ↦ rw e (record {
    small = rw (length-append d ((k, v) ∷ [])) (ground arith);
    entries = Entries-append_one k v d (ground arith) (ground arith) w.entries;
    distinct = Distinct-append_one k v d e w.distinct;
  })
  | inr (old, e) ↦ rw e (record {
    small = rw (length-assign k v d) w.small;
    entries = Entries-assign k v d (ground arith) w.entries;
    distinct = Distinct-assign k v d w.distinct;
  })
]

pub write_file-WellFormed :
    (k v : List ℕ) (d : Directory) → WellFormed d → WellFormed (write_file k v d).1
unfolding write_file
write_file-WellFormed k v d w = elim (Bool-cases (can_write k v d)) [
  | inl e ↦ rw e (put-WellFormed k v d e w)
  | inr e ↦ rw e w
]

pub remove_file-WellFormed :
    (k : List ℕ) (d : Directory) → WellFormed d → WellFormed (remove_file k d).1
unfolding remove_file
remove_file-WellFormed k d w =
    if_both (λ (o : Bool × Directory). WellFormed o.1) _ (true, delete k d) (false, d)
      (record {
        small = ground (arith, length-delete k d, w.small);
        entries = Entries-delete k d w.entries;
        distinct = Distinct-delete k d w.distinct;
      })
      w
