-- ===== src/Fat/Contents.antt =====
-- The bytes of a file on a volume of fs/fat.c, along the chain of its clusters, and what fat_read_file
-- copies of them.
use native.Mathlib.Nat.{
  mul-add-mod_self_left, mod-eq_of_lt, mul-add-div_right, div-eq_of_lt, mul_comm,
}
use efes_os.Base.{
  ℕ, zero, suc, ◌+◌, ◌-◌, ◌*◌, ◌/◌, ◌%◌, ◌≤◌, ◌<◌, ◌≡◌, ◌≢◌, refl, sym, ap, ◌∙◌, Bool, true, false,
  ◌&&◌, Option, none, some, inl, inr, ◌==◌, ltb, leb, if◌then◌else◌, Bool-cases, Option-cases,
  arith,
}
use efes_os.Base.Words.{add32}
use efes_os.Base.Arrays.{update}
use efes_os.Fat.{FatVolume, Sector, sector_size, read_sector}
use efes_os.Fat.Chain.{is_cluster, read_fat_entry, data_lba}
use efes_os.Fat.Files.{Progress, copy_sector, amount_of, take_sector, read_cluster, read_chain}

-- The cluster `k` links behind the first one.
pub nth_cluster : FatVolume → ℕ → ℕ → Option ℕ
nth_cluster v cluster zero = some cluster
nth_cluster v cluster (suc k) = elim (nth_cluster v cluster k) [
  | none ↦ none
  | some last ↦ read_fat_entry v last
]

pub nth_cluster-zero : (v : FatVolume) (cluster : ℕ) → nth_cluster v cluster 0 ≡ some cluster
unfolding nth_cluster
nth_cluster-zero v cluster = refl

-- The sector `k` of a file whose first cluster is `cluster`.
pub file_sector : FatVolume → ℕ → ℕ → Option Sector
file_sector v cluster k = elim (nth_cluster v cluster (k / v.sectors_per_cluster)) [
  | none ↦ none
  | some at ↦ read_sector v (data_lba v at (k % v.sectors_per_cluster))
]

pub file_byte : FatVolume → ℕ → ℕ → Option ℕ
file_byte v cluster j = elim (file_sector v cluster (j / sector_size)) [
  | none ↦ none
  | some sector ↦ some (sector (j % sector_size))
]

copy_sector_lem :
    (n k output : ℕ) (sector : Sector) (b : ℕ → ℕ) (j : ℕ)
    → output + k + n < 0x1_0000_0000
    → copy_sector b output sector k n j
      ≡ (if leb (output + k) j && ltb j (output + k + n) then sector (j - output) else b j)
unfolding copy_sector
copy_sector_lem zero k output sector b j h = ground arith
copy_sector_lem (suc n) k output sector b j h = ground (
  arith,
  copy_sector_lem n (k + 1) output sector (update b (add32 output k) (sector k)) j (omega arith),
)

div-row : (row width i : ℕ) → i < width → (row * width + i) / width ≡ row
div-row row width i h =
    mul-add-div_right {m = width} (omega arith) row i ∙ omega (arith, div-eq_of_lt h)

mod-row : (row width i : ℕ) → i < width → (row * width + i) % width ≡ i
mod-row row width i h =
    ap (λ n. (n + i) % width) (mul_comm row width)
    ∙ mul-add-mod_self_left width row i
    ∙ mod-eq_of_lt h

file_sector_lem :
    (v : FatVolume) (first k cluster i : ℕ) (sector : Sector)
    → nth_cluster v first k ≡ some cluster
    → i < v.sectors_per_cluster
    → read_sector v (data_lba v cluster i) ≡ some sector
    → file_sector v first (k * v.sectors_per_cluster + i) ≡ some sector
unfolding file_sector
file_sector_lem v first k cluster i sector at h e =
    rw (file_sector, div-row k v.sectors_per_cluster i h, at, mod-row k v.sectors_per_cluster i h) e

-- What is copied is the start of the file.
abbrev pub Holds : FatVolume → ℕ → Progress → Type 0
Holds v first p = (j : ℕ) → j < p.output → file_byte v first j ≡ some (p.buffer j)

take_sector-Holds :
    (v : FatVolume) (first k : ℕ) (p : Progress) (sector : Sector)
    → Holds v first p
    → p.output + p.remaining < 0x1_0000_0000
    → p.output ≡ k * sector_size
    → file_sector v first k ≡ some sector
    → Holds v first (take_sector p sector)
unfolding take_sector amount_of file_byte
take_sector-Holds v first k p sector h narrow aligned e j lt = elim (Bool-cases (ltb j p.output)) [
  | inl t ↦ h j (ground arith) ∙ ap some (sym (copied ∙ ground arith))
  | inr t ↦
      let at : j / sector_size ≡ k = ground arith in
      let off : j % sector_size ≡ j - p.output = ground arith in
      rw (file_byte, at, e, off) (ap some (sym (copied ∙ ground (arith, amount))))
]
  where
    amount : (take_sector p sector).output ≡ p.output + amount_of p.remaining
    amount = ground arith

    copied : copy_sector p.buffer p.output sector 0 (amount_of p.remaining) j ≡ (
        if leb (p.output + 0) j && ltb j (p.output + 0 + amount_of p.remaining)
        then sector (j - p.output)
        else p.buffer j)
    copied = copy_sector_lem (amount_of p.remaining) 0 p.output sector p.buffer j (ground arith)

module _ (v : FatVolume) (first total : ℕ) (narrow : total < 0x1_0000_0000) where
  -- The first `m` sectors of the file are copied, or all of it.
  abbrev Reached : ℕ → Progress → Type 0
  Reached m p =
      Holds v first p
      × (p.output + p.remaining ≡ total)
      × (p.remaining ≢ 0 → p.output ≡ m * sector_size)

  take_sector-Reached :
      (m : ℕ) (p : Progress) (sector : Sector)
      → Reached m p
      → p.remaining ≢ 0
      → file_sector v first m ≡ some sector
      → Reached (m + 1) (take_sector p sector)
  unfolding take_sector amount_of
  take_sector-Reached m p sector (h, sum, aligned) more e =
      let start : p.output ≡ m * sector_size = aligned more in
      (
        take_sector-Holds v first m p sector h (omega (arith, sum)) start e,
        ground (arith, start),
        λ r. ground (arith, start),
      )

  -- What a loop reaches, where it goes well.
  abbrev Ends : ℕ → Bool × Progress → Type 0
  Ends m r = r.0 ≡ true → Reached m r.1

  read_cluster-Ends :
      (k cluster i n : ℕ) (p : Progress)
      → nth_cluster v first k ≡ some cluster
      → i + n ≤ v.sectors_per_cluster
      → Reached (k * v.sectors_per_cluster + i) p
      → Ends (k * v.sectors_per_cluster + (i + n)) (read_cluster v cluster i n p)
  unfolding read_cluster
  read_cluster-Ends k c i zero p at h r = let e : i + 0 ≡ i = omega arith in rw e (λ t. r)
  read_cluster-Ends k c i (suc n) p at h r = elim (Bool-cases (p.remaining == 0)) [
    | inl e ↦ rw (read_cluster, e) (λ t. (r.0, r.1, λ more. absurd (more (ground arith))))
    | inr e ↦ elim (Option-cases (read_sector v (data_lba v c i))) [
      | inl e' ↦ rw (read_cluster, e, e') (λ t. ground arith)
      | inr (sector, e') ↦
          rw (read_cluster, e, e')
            (let step : i + suc n ≡ i + 1 + n = omega arith in
              rw step (
                read_cluster-Ends k c (i + 1) n (take_sector p sector) at (omega arith)
                  (next_sector sector e e')))
    ]
  ]
    where
      next_sector :
          (sector : Sector)
          → (p.remaining == 0) ≡ false
          → read_sector v (data_lba v c i) ≡ some sector
          → Reached (k * v.sectors_per_cluster + (i + 1)) (take_sector p sector)
      next_sector sector e e' =
          let row : k * v.sectors_per_cluster + (i + 1) ≡ k * v.sectors_per_cluster + i + 1 =
            omega arith in
          rw row (
            take_sector-Reached (k * v.sectors_per_cluster + i) p sector r (λ z. ground arith)
              (file_sector_lem v first k c i sector at (omega arith) e'))

  -- How the loop over the clusters ends, where it goes well: with all of the file.
  abbrev Whole : Bool × Progress → Type 0
  Whole r = r.0 ≡ true → Holds v first r.1 × (r.1.output ≡ total)

  whole : (m : ℕ) (p : Progress) → Reached m p → (p.remaining == 0) ≡ true → Whole (true, p)
  whole m p (h, sum, aligned) e t = (h, ground (arith, sum))

  linked :
      (k cluster next : ℕ)
      → nth_cluster v first k ≡ some cluster
      → read_fat_entry v cluster ≡ some next
      → nth_cluster v first (suc k) ≡ some next
  unfolding nth_cluster
  linked k cluster next at e = rw (nth_cluster, at) e

  pub read_chain-Whole :
      (k cluster n : ℕ) (p : Progress)
      → nth_cluster v first k ≡ some cluster
      → Reached (k * v.sectors_per_cluster) p
      → Whole (read_chain v cluster n p)
  unfolding read_chain
  read_chain-Whole k c zero p at r = λ t. whole (k * v.sectors_per_cluster) p r t refl
  read_chain-Whole k c (suc n) p at r = elim (Bool-cases (p.remaining == 0)) [
    | inl e ↦ rw (read_chain, e) (whole (k * v.sectors_per_cluster) p r e)
    | inr e ↦ elim (Bool-cases (is_cluster v c)) [
      | inr e1 ↦ rw (read_chain, e, e1) (λ t. ground arith)
      | inl e1 ↦ elim (Bool-cases (read_cluster v c 0 v.sectors_per_cluster p).0) [
        | inr e2 ↦ rw (read_chain, e, e1, e2) (λ t. ground arith)
        | inl e2 ↦ elim (Bool-cases (p'.remaining == 0)) [
          | inl e3 ↦
              rw (read_chain, e, e1, e2, e3)
                (whole (suc k * v.sectors_per_cluster) p' (reached e2) e3)
          | inr e3 ↦ elim (Option-cases (read_fat_entry v c)) [
            | inl e4 ↦ rw (read_chain, e, e1, e2, e3, e4) (λ t. ground arith)
            | inr (next, e4) ↦
                rw (read_chain, e, e1, e2, e3, e4)
                  (read_chain-Whole (suc k) next n p' (linked k c next at e4) (reached e2))
          ]
        ]
      ]
    ]
  ]
    where
      p' : Progress
      p' = (read_cluster v c 0 v.sectors_per_cluster p).1

      reached :
          (read_cluster v c 0 v.sectors_per_cluster p).0 ≡ true
          → Reached (suc k * v.sectors_per_cluster) p'
      reached e =
          let row : suc k * v.sectors_per_cluster
              ≡ k * v.sectors_per_cluster + (0 + v.sectors_per_cluster) =
            grind arith in
          let start : k * v.sectors_per_cluster + 0 ≡ k * v.sectors_per_cluster = omega arith in
          rw row (read_cluster-Ends k c 0 v.sectors_per_cluster p at (omega arith) (rw start r) e)
