-- ===== src/Fat/Guard.antt =====
-- The guard on the clusters that fat_read_file of fs/fat.c follows.
use native.Mathlib.Nat.{mul-le-mul}
use efes_os.Base.{
  ℕ, zero, suc, ◌+◌, ◌-◌, ◌*◌, ◌≤◌, ◌≡◌, refl, Bool, true, false, inl, inr, ◌==◌, Bool-cases,
  Option-cases, arith,
}
use efes_os.Base.Words.{mul32}
use efes_os.Fat.{FatVolume, sector_size, read_sector}
use efes_os.Fat.Chain.{is_cluster, read_fat_entry, data_lba}
use efes_os.Fat.Files.{Progress, amount_of, take_sector, read_cluster, read_chain, is_too_large}
use efes_os.Fat.Layout.{Sound}

-- `rounds` rounds that all go well leave what they have no room for.
abbrev Leaves : ℕ → ℕ → Bool × Progress → Type 0
Leaves rounds remaining r = r.0 ≡ true → r.1.remaining ≡ remaining - rounds * sector_size

amount_of-sub : (r n x : ℕ) → x ≡ r - amount_of r - n * sector_size → x ≡ r - suc n * sector_size
unfolding amount_of
amount_of-sub r n x e = ground arith

read_cluster-Leaves :
    (v : FatVolume) (cluster i n : ℕ) (p : Progress)
    → Leaves n p.remaining (read_cluster v cluster i n p)
unfolding read_cluster take_sector
read_cluster-Leaves v c i zero p = λ h. omega arith
read_cluster-Leaves v c i (suc n) p = elim (Bool-cases (p.remaining == 0)) [
  | inl e ↦ rw (read_cluster, e) (λ h. ground arith)
  | inr e ↦ elim (Option-cases (read_sector v (data_lba v c i))) [
    | inl e' ↦ rw (read_cluster, e, e') (λ h. ground arith)
    | inr (sector, e') ↦
        rw (read_cluster, e, e')
          (λ h.
            amount_of-sub p.remaining n _
              (read_cluster-Leaves v c (i + 1) n (take_sector p sector) h))
  ]
]

-- A guard of `n` clusters that hold what is to come is enough: a larger one changes nothing.
read_chain-enough :
    (v : FatVolume) (cluster n m : ℕ) (p : Progress)
    → p.remaining ≤ n * (v.sectors_per_cluster * sector_size)
    → n ≤ m
    → read_chain v cluster m p ≡ read_chain v cluster n p
unfolding read_chain
read_chain-enough v c zero zero p h le = refl
read_chain-enough v c zero (suc m) p h le =
    let e : (p.remaining == 0) ≡ true = ground arith in rw (read_chain, e) refl
read_chain-enough v c (suc n) zero p h le = absurd (omega arith)
read_chain-enough v c (suc n) (suc m) p h le = elim (Bool-cases (p.remaining == 0)) [
  | inl e ↦ rw (read_chain, e) refl
  | inr e ↦ elim (Bool-cases (is_cluster v c)) [
    | inr e1 ↦ rw (read_chain, e, e1) refl
    | inl e1 ↦ elim (Bool-cases (read_cluster v c 0 v.sectors_per_cluster p).0) [
      | inr e2 ↦ rw (read_chain, e, e1, e2) refl
      | inl e2 ↦ elim (Bool-cases (p'.remaining == 0)) [
        | inl e3 ↦ rw (read_chain, e, e1, e2, e3) refl
        | inr e3 ↦ elim (Option-cases (read_fat_entry v c)) [
          | inl e4 ↦ rw (read_chain, e, e1, e2, e3, e4) refl
          | inr (next, e4) ↦
              rw (read_chain, e, e1, e2, e3, e4)
                (read_chain-enough v next n m p' (fits e2) (omega arith))
        ]
      ]
    ]
  ]
]
  where
    p' : Progress
    p' = (read_cluster v c 0 v.sectors_per_cluster p).1

    fits :
        (read_cluster v c 0 v.sectors_per_cluster p).0 ≡ true
        → p'.remaining ≤ n * (v.sectors_per_cluster * sector_size)
    fits e =
        let split : suc n * (v.sectors_per_cluster * sector_size)
            ≡ n * (v.sectors_per_cluster * sector_size) + v.sectors_per_cluster * sector_size =
          grind arith in
        omega (arith, split, read_cluster-Leaves v c 0 v.sectors_per_cluster p e)

size-fits :
    (v : FatVolume) (size capacity : ℕ)
    → Sound v
    → is_too_large v size capacity ≡ false
    → size ≤ v.cluster_count * (v.sectors_per_cluster * sector_size)
unfolding is_too_large
size-fits v size capacity s e =
    let (m, o, r, d, a, l, f, p, cc, spc, fats, spf) = s in
    let whole : v.cluster_count * v.sectors_per_cluster ≤ 65525 * 128 =
      mul-le-mul {n₂ = 65525} {m₂ = 128} (omega arith) (omega arith) in
    let area : mul32 v.cluster_count v.sectors_per_cluster
        ≡ v.cluster_count * v.sectors_per_cluster =
      omega (arith, whole) in
    let times : v.cluster_count * (v.sectors_per_cluster * sector_size)
        ≡ v.cluster_count * v.sectors_per_cluster * sector_size =
      grind arith in
    ground (arith, area, times)

-- On a sound volume the guard of fat_read_file, as many clusters as there are, never ends the loop for a
-- size that the function does not refuse: with any larger guard it does the same.
pub read_chain-guard :
    (v : FatVolume) (cluster size capacity guard : ℕ) (buffer : ℕ → ℕ)
    → Sound v
    → is_too_large v size capacity ≡ false
    → v.cluster_count ≤ guard
    → read_chain v cluster guard (record { buffer = buffer; output = 0; remaining = size })
      ≡ read_chain v cluster v.cluster_count
          (record { buffer = buffer; output = 0; remaining = size })
read_chain-guard v c size capacity guard buffer s e le =
    read_chain-enough v c v.cluster_count guard
      (record { buffer = buffer; output = 0; remaining = size }) (size-fits v size capacity s e) le
