-- ===== src/Fat/Reading.antt =====
-- The bytes that fat_read_file of fs/fat.c writes, and its guard against chains with a cycle.
use efes_os.Base.{
  ℕ, zero, suc, ◌+◌, ◌≤◌, ◌<◌, ◌≡◌, refl, ◌∙◌, Bool, true, false, not, Option, none, some, List,
  inl, inr, ◌==◌, if◌then◌else◌, if_each, Bool-cases, Option-cases, bit_and, arith,
}
use efes_os.Base.Words.{add32}
use efes_os.Base.Arrays.{update}
use efes_os.Fat.{FatVolume, Sector, read_sector, read_u16, read_u32}
use efes_os.Fat.Chain.{is_cluster, read_fat_entry, data_lba, find_path}
use efes_os.Fat.Files.{
  Progress, copy_sector, amount_of, take_sector, read_cluster, read_chain, is_too_large, read_entry,
  refused_attributes, fat_read_file,
}

-- What is written and what is still to come make up the file, and nothing behind it is written.
module _ (total : ℕ) (narrow : total < 0x1_0000_0000) (buffer : ℕ → ℕ) (j : ℕ)
    (behind : total ≤ j) where
  abbrev Kept : Progress → Type 0
  Kept p = (p.output + p.remaining ≡ total) × (p.buffer j ≡ buffer j)

  copy_sector-behind :
      (n k output : ℕ) (sector : Sector) (b : ℕ → ℕ)
      → output + k + n ≤ total
      → copy_sector b output sector k n j ≡ b j
  unfolding copy_sector
  copy_sector-behind zero k output sector b h = refl
  copy_sector-behind (suc n) k output sector b h =
      copy_sector-behind n (k + 1) output sector (update b (add32 output k) (sector k))
        (omega arith)
      ∙ ground arith

  take_sector-Kept : (p : Progress) (sector : Sector) → Kept p → Kept (take_sector p sector)
  unfolding take_sector amount_of
  take_sector-Kept p sector (sum, same) = (
    ground arith,
    copy_sector-behind (amount_of p.remaining) 0 p.output sector p.buffer (ground arith) ∙ same,
  )

  read_cluster-Kept :
      (v : FatVolume) (cluster i n : ℕ) (p : Progress)
      → Kept p
      → Kept (read_cluster v cluster i n p).1
  unfolding read_cluster
  read_cluster-Kept v c i zero p h = h
  read_cluster-Kept v c i (suc n) p h = elim (Bool-cases (p.remaining == 0)) [
    | inl e ↦ rw (read_cluster, e) h
    | inr e ↦ elim (Option-cases (read_sector v (data_lba v c i))) [
      | inl e' ↦ rw (read_cluster, e, e') h
      | inr (sector, e') ↦
          rw (read_cluster, e, e')
            (read_cluster-Kept v c (i + 1) n (take_sector p sector) (take_sector-Kept p sector h))
    ]
  ]

  -- How the loop over the clusters ends.
  abbrev Reads : Bool × Progress → Type 0
  Reads r = Kept r.1 × (r.0 ≡ true → r.1.remaining ≡ 0)

  stopped : (p : Progress) → Kept p → Reads (false, p)
  stopped p k = (k, λ e. ground arith)

  complete : (p : Progress) → Kept p → (p.remaining == 0) ≡ true → Reads (true, p)
  complete p k e = (k, λ t. ground arith)

  read_chain-Reads :
      (v : FatVolume) (cluster n : ℕ) (p : Progress) → Kept p → Reads (read_chain v cluster n p)
  unfolding read_chain
  read_chain-Reads v c zero p h = (h, λ e. ground arith)
  read_chain-Reads v c (suc n) p h = elim (Bool-cases (p.remaining == 0)) [
    | inl e ↦ rw (read_chain, e) (complete p h e)
    | inr e ↦ elim (Bool-cases (is_cluster v c)) [
      | inr e1 ↦ rw (read_chain, e, e1) (stopped p h)
      | inl e1 ↦ elim (Bool-cases (read_cluster v c 0 v.sectors_per_cluster p).0) [
        | inr e2 ↦ rw (read_chain, e, e1, e2) (stopped p' kept)
        | inl e2 ↦ elim (Bool-cases (p'.remaining == 0)) [
          | inl e3 ↦ rw (read_chain, e, e1, e2, e3) (complete p' kept e3)
          | inr e3 ↦ elim (Option-cases (read_fat_entry v c)) [
            | inl e4 ↦ rw (read_chain, e, e1, e2, e3, e4) (stopped p' kept)
            | inr (next, e4) ↦
                rw (read_chain, e, e1, e2, e3, e4) (read_chain-Reads v next n p' kept)
          ]
        ]
      ]
    ]
  ]
    where
      p' : Progress
      p' = (read_cluster v c 0 v.sectors_per_cluster p).1

      kept : Kept p'
      kept = read_cluster-Kept v c 0 v.sectors_per_cluster p h

-- The size is at most the capacity, and nothing is written from there on.
abbrev Contained : (ℕ → ℕ) → ℕ → ℕ → Bool × (ℕ × (ℕ → ℕ)) → Type 0
Contained buffer capacity j r = (r.1.0 ≤ capacity) × (r.1.1 j ≡ buffer j)

pub is_too_large-fits :
    (v : FatVolume) (size capacity : ℕ) → is_too_large v size capacity ≡ false → size ≤ capacity
unfolding is_too_large
is_too_large-fits v size capacity e = ground arith

read_entry-Contained :
    (v : FatVolume) (entry buffer : ℕ → ℕ) (capacity j : ℕ)
    → capacity < 0x1_0000_0000
    → capacity ≤ j
    → Contained buffer capacity j (read_entry v entry buffer capacity)
unfolding read_entry
read_entry-Contained v entry buffer capacity j narrow behind =
    elim (Bool-cases (is_too_large v size capacity)) [
      | inl e ↦ rw (read_entry, e) (omega arith, refl)
      | inr e ↦ elim (Bool-cases (size == 0)) [
        | inl e1 ↦ rw (read_entry, e, e1) (omega arith, refl)
        | inr e1 ↦ elim (Bool-cases (read_chain v cluster v.cluster_count start).0) [
          | inr e2 ↦
              rw (read_entry, e, e1, e2)
                (omega arith, (reads (is_too_large-fits v size capacity e)).0.1)
          | inl e2 ↦
              let ((sum, same), done) = reads (is_too_large-fits v size capacity e) in
              rw (read_entry, e, e1, e2)
                (omega (arith, sum, done e2, is_too_large-fits v size capacity e), same)
        ]
      ]
    ]
  where
    size : ℕ
    size = read_u32 entry 28

    cluster : ℕ
    cluster = read_u16 entry 26

    start : Progress
    start = record { buffer = buffer; output = 0; remaining = size }

    reads :
        (h : size ≤ capacity)
        → Reads size
            (omega arith)
            buffer
            j
            (omega arith)
            (read_chain v cluster v.cluster_count start)
    reads h =
        read_chain-Reads size (omega arith) buffer j (omega arith) v cluster v.cluster_count start
          (omega arith, refl)

-- With a 32-bit capacity, fat_read_file writes nothing from the capacity on, whether it succeeds or not,
-- and the size that it reports is at most the capacity.
pub fat_read_file-within :
    (v : FatVolume) (name : List ℕ) (buffer : ℕ → ℕ) (capacity j : ℕ)
    → capacity < 0x1_0000_0000
    → capacity ≤ j
    → ((fat_read_file v name buffer capacity).1.0 ≤ capacity)
      × ((fat_read_file v name buffer capacity).1.1 j ≡ buffer j)
unfolding fat_read_file
fat_read_file-within v name buffer capacity j narrow behind =
    if_each (Contained buffer capacity j) (not v.mounted) (false, (0, buffer))
      (of_path (find_path v name)) (λ e. nothing) (λ e. path-Contained (find_path v name))
  where
    nothing : Contained buffer capacity j (false, (0, buffer))
    nothing = (omega arith, refl)

    of_entry : (ℕ → ℕ) → Bool × (ℕ × (ℕ → ℕ))
    of_entry entry =
        if not (bit_and (entry 11) refused_attributes == 0)
        then (false, (0, buffer))
        else read_entry v entry buffer capacity

    of_path : Option (ℕ → ℕ) → Bool × (ℕ × (ℕ → ℕ))
    of_path o = elim o [ none ↦ (false, (0, buffer)) | some entry ↦ of_entry entry ]

    entry-Contained : (entry : ℕ → ℕ) → Contained buffer capacity j (of_entry entry)
    entry-Contained entry =
        if_each (Contained buffer capacity j) (not (bit_and (entry 11) refused_attributes == 0))
          (false, (0, buffer)) (read_entry v entry buffer capacity) (λ e. nothing)
          (λ e. read_entry-Contained v entry buffer capacity j narrow behind)

    path-Contained : (o : Option (ℕ → ℕ)) → Contained buffer capacity j (of_path o)
    path-Contained none = nothing
    path-Contained (some entry) = entry-Contained entry
