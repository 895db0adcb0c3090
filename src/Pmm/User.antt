-- ===== src/Pmm/User.antt =====
-- Frames of user processes: `pmm_claim_user_block`, `pmm_release_user_block` and what they protect.
use efes_os.Base.{
  ℕ, ◌/◌, ◌%◌, ◌≡◌, ◌≢◌, ap, ◌∙◌, Bool, true, false, not, ◌&&◌, arith, List, [], ◌∷◌, ◌==◌, ltb,
  if◌then◌else◌, if_both, Bool-cases, inl, inr,
}
use efes_os.Base.Bitmap.{has_bit, raise_bit, lower_bit, has_bit-raise_bit, has_bit-lower_bit}
use efes_os.Pmm.{
  Pmm, user_max_blocks, alloc_block_below, alloc_user_block, free_block, block_is_used, user_mapped,
  claim_user_block, release_user_block, block_is_user_owned,
}
use efes_os.Pmm.Inv.{IsValid, is_lent}
use efes_os.Pmm.Alloc.{
  Lends, Returns, alloc_block_below_lem, alloc_user_block_lem, free_block_lem, is_freeable,
}

-- A frame that a page table maps for a user is lent to the user.
abbrev pub MappedIsOwned : Pmm → Type 0
MappedIsOwned s = (b : ℕ) → user_mapped s b ≡ true → (is_lent s b && has_bit s.user_bitmap b) ≡ true

Lends-MappedIsOwned :
    (by_user : Bool) (s : Pmm) (address : ℕ) (s' : Pmm)
    → Lends by_user s address s'
    → MappedIsOwned s
    → MappedIsOwned s'
Lends-MappedIsOwned by_user s address s' l m b h =
    let before : user_mapped s b ≡ true =
      ground (arith, ap (λ (t : ℕ → ℕ). has_bit t b) l.mapped) in
    ground
      (arith, m b before, l.lent b, l.owner b, l.free, ap (block_is_used s) {x = l.block} {y = b})

Returns-MappedIsOwned :
    (s : Pmm) (block : ℕ) (s' : Pmm)
    → Returns s block s'
    → user_mapped s block ≡ false
    → MappedIsOwned s
    → MappedIsOwned s'
Returns-MappedIsOwned s block s' r unmapped m b h =
    let before : user_mapped s b ≡ true =
      ground (arith, ap (λ (t : ℕ → ℕ). has_bit t b) r.mapped) in
    ground
      (arith, m b before, r.lent b, r.owner b, unmapped, ap (user_mapped s) {x = block} {y = b})

-- What the kernel asks of the allocator after `pmm_init`.
pub data Request : Type 0 where
  alloc_below : ℕ → Request
  alloc_user : Request
  claim : ℕ → Request
  release : ℕ → Request
  free : ℕ → Request

unfoldable pub step : Request → Pmm → Pmm
step (alloc_below limit) s = (alloc_block_below limit s).1
step alloc_user s = (alloc_user_block s).1
step (claim address) s = (claim_user_block address s).1
step (release address) s = release_user_block address s
step (free address) s = free_block address s

unfoldable pub run : List Request → Pmm → Pmm
run [] s = s
run (r ∷ rs) s = run rs (step r s)

pub record IsSafe (s : Pmm) : Type 0 where
  pub valid : IsValid s
  pub mapped : MappedIsOwned s

alloc_below-IsSafe : (limit : ℕ) (s : Pmm) → IsSafe s → IsSafe (alloc_block_below limit s).1
alloc_below-IsSafe limit s h = elim (alloc_block_below_lem limit s h.valid) [
  | inl e ↦ rw (e.1) h
  | inr l ↦ record { valid = l.0.valid; mapped = Lends-MappedIsOwned false s _ _ l.0 h.mapped }
]

alloc_user-IsSafe : (s : Pmm) → IsSafe s → IsSafe (alloc_user_block s).1
alloc_user-IsSafe s h = elim (alloc_user_block_lem s h.valid) [
  | inl e ↦ rw (e.1) h
  | inr l ↦ record { valid = l.0.valid; mapped = Lends-MappedIsOwned true s _ _ l.0 h.mapped }
]

free-IsSafe : (address : ℕ) (s : Pmm) → IsSafe s → IsSafe (free_block address s)
free-IsSafe address s h = elim (free_block_lem address s h.valid) [
  | inl (y, r) ↦ record {
    valid = r.valid;
    mapped = Returns-MappedIsOwned s _ _ r (ground (arith, y)) h.mapped;
  }
  | inr (n, e) ↦ rw e h
]

unfoldable pub remap : (ℕ → ℕ) → Pmm → Pmm
remap bits s = record s { user_mapped_bitmap = bits }

remap-IsValid : (bits : ℕ → ℕ) {s : Pmm} → IsValid s → IsValid (remap bits s)
unfolding remap
remap-IsValid bits v = record {
  managed = v.managed;
  used = v.used;
  held = v.held;
  detected = v.detected;
  inside = v.inside;
}

-- The addresses whose claim succeeds.
abbrev pub is_claimable : Pmm → ℕ → Bool
is_claimable s address = block_is_user_owned address s && not (user_mapped s (address / 4096))

pub claim-eq :
    (address : ℕ) (s : Pmm)
    → claim_user_block address s ≡ (
        if is_claimable s address
        then (true, remap (raise_bit s.user_mapped_bitmap (address / 4096)) s)
        else (false, s))
unfolding claim_user_block remap block_is_user_owned
claim-eq address s = ground arith

mapped_claim :
    (address : ℕ) (s : Pmm)
    → is_claimable s address ≡ true
    → MappedIsOwned s
    → MappedIsOwned (remap (raise_bit s.user_mapped_bitmap (address / 4096)) s)
unfolding remap block_is_user_owned
mapped_claim address s y m b h = ground (
  arith,
  has_bit-raise_bit s.user_mapped_bitmap (address / 4096) b,
  m b,
  y,
  ap (λ k. is_lent s k && has_bit s.user_bitmap k) {x = address / 4096} {y = b},
)

claim-IsSafe : (address : ℕ) (s : Pmm) → IsSafe s → IsSafe (claim_user_block address s).1
claim-IsSafe address s h = elim (Bool-cases (is_claimable s address)) [
  | inl y ↦
      rw (claim-eq address s, y)
        (record { valid = remap-IsValid _ h.valid; mapped = mapped_claim address s y h.mapped })
  | inr n ↦ rw (claim-eq address s, n) h
]

pub release-eq :
    (address : ℕ) (s : Pmm)
    → release_user_block address s ≡ (
        if address % 4096 == 0 && ltb (address / 4096) user_max_blocks
        then remap (lower_bit s.user_mapped_bitmap (address / 4096)) s
        else s)
unfolding release_user_block remap
release-eq address s = ground arith

release-IsSafe : (address : ℕ) (s : Pmm) → IsSafe s → IsSafe (release_user_block address s)
unfolding remap
release-IsSafe address s h = rw (release-eq address s) (
    if_both IsSafe (address % 4096 == 0 && ltb (address / 4096) user_max_blocks) _ _
      (record {
        valid = remap-IsValid _ h.valid;
        mapped = λ b m.
            ground
              (arith, has_bit-lower_bit s.user_mapped_bitmap (address / 4096) b, h.mapped b, m);
      })
      h)

-- In every history of requests the counters stay right, and a frame that is mapped for a user is
-- lent, marked as the user's, and so neither lent again nor freed.
pub run-IsSafe : (rs : List Request) (s : Pmm) → IsSafe s → IsSafe (run rs s)
unfolding run step
run-IsSafe [] s h = h
run-IsSafe (alloc_below limit ∷ rs) s h = run-IsSafe rs _ (alloc_below-IsSafe limit s h)
run-IsSafe (alloc_user ∷ rs) s h = run-IsSafe rs _ (alloc_user-IsSafe s h)
run-IsSafe (claim address ∷ rs) s h = run-IsSafe rs _ (claim-IsSafe address s h)
run-IsSafe (release address ∷ rs) s h = run-IsSafe rs _ (release-IsSafe address s h)
run-IsSafe (free address ∷ rs) s h = run-IsSafe rs _ (free-IsSafe address s h)

unmapped-Lends :
    (s : Pmm) (address : ℕ) (s' : Pmm)
    → MappedIsOwned s
    → (l : Lends false s address s') → user_mapped s' l.block ≡ false
unmapped-Lends s address s' m l =
    ground (arith, ap (λ (t : ℕ → ℕ). has_bit t l.block) l.mapped, m l.block, l.free)

free-Lends :
    (s : Pmm) (address : ℕ) (s' : Pmm)
    → MappedIsOwned s
    → (l : Lends false s address s') → is_freeable s' address ≡ true
free-Lends s address s' m l =
    let at : address / 4096 ≡ l.block = omega (arith, l.at) in
    rw at (
      ground
        (arith, l.at, l.low, l.below, l.detected, l.lent l.block, unmapped-Lends s address s' m l))

restored :
    (s : Pmm) (address : ℕ) (s' s'' : Pmm)
    → (l : Lends false s address s') → Returns s' (address / 4096) s''
    → (s''.used_managed_blocks ≡ s.used_managed_blocks) × ((b : ℕ) → is_lent s'' b ≡ is_lent s b)
restored s address s' s'' l r =
    let at : address / 4096 ≡ l.block = omega (arith, l.at) in
    (
      omega (arith, r.counted, l.counted),
      λ b.
          r.lent b
          ∙ ground (arith, l.lent b, at, l.free, ap (is_lent s) {x = l.block} {y = b}, l.managed),
    )

-- In a safe state, freeing the block that `pmm_alloc_block_below` has just lent restores the counter
-- and the set of blocks that are lent.
pub free-alloc :
    (limit : ℕ) (s : Pmm)
    → IsSafe s
    → (alloc_block_below limit s).0 ≢ 0
    → let (address, s') = alloc_block_below limit s in
      let s'' = free_block address s' in
      (s''.used_managed_blocks ≡ s.used_managed_blocks) × ((b : ℕ) → is_lent s'' b ≡ is_lent s b)
free-alloc limit s h some_block = elim (alloc_block_below_lem limit s h.valid) [
  | inl e ↦ absurd (some_block (e.0))
  | inr (l, _, _, _) ↦ elim (free_block_lem (alloc_block_below limit s).0 _ l.valid) [
    | inl (y, r) ↦ restored s _ _ _ l r
    | inr (n, e) ↦ absurd (ground (arith, n, free-Lends s _ _ h.mapped l))
  ]
]
