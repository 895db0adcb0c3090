-- ===== src/Pmm/Protect.antt =====
-- What a claim of a frame protects until its release.
use efes_os.Base.{
  ℕ, ◌/◌, ◌%◌, ◌<◌, ◌≡◌, ◌≢◌, ◌⊎◌, ap, ◌∙◌, Bool, true, false, ◌&&◌, arith, List, [], ◌∷◌, ◌==◌,
  ltb, if◌then◌else◌, if_both, if_each, Bool-cases, inl, inr,
}
use efes_os.Base.Bitmap.{has_bit, raise_bit, lower_bit, has_bit-raise_bit, has_bit-lower_bit}
use efes_os.Pmm.{
  Pmm, max_blocks, user_max_blocks, alloc_block_below, alloc_user_block, free_block, block_is_used,
  user_mapped, claim_user_block, user_block_is_mapped, block_is_user_owned,
}
use efes_os.Pmm.Alloc.{LendsFirst, alloc_block_below_lem, alloc_user_block_lem, free_block_lem}
use efes_os.Pmm.User.{
  IsSafe, Request, step, run, run-IsSafe, remap, is_claimable, claim-eq, release-eq,
}
use efes_os.Pmm.User.Request.{alloc_below, alloc_user, claim, release, free}

claim_user_block-mapped :
    (address : ℕ) (s : Pmm)
    → user_mapped s (address / 4096) ≡ true
    → claim_user_block address s ≡ (false, s)
unfolding claim_user_block
claim_user_block-mapped address s m = ground (arith, m)

free_block-mapped :
    (address : ℕ) (s : Pmm) → user_mapped s (address / 4096) ≡ true → free_block address s ≡ s
unfolding free_block
free_block-mapped address s m = rw m (ground arith)

mapped-remap :
    (address : ℕ) (s : Pmm)
    → is_claimable s address ≡ true
    → let s' = remap (raise_bit s.user_mapped_bitmap (address / 4096)) s in
      (user_mapped s' (address / 4096) ≡ true) × (user_block_is_mapped address s' ≡ true)
unfolding remap block_is_user_owned user_block_is_mapped
mapped-remap address s y =
    let fact = has_bit-raise_bit s.user_mapped_bitmap (address / 4096) (address / 4096) in
    (ground (arith, fact, y), ground (arith, fact, y))

aligned : (address : ℕ) (s : Pmm) → is_claimable s address ≡ true → address % 4096 ≡ 0
unfolding block_is_user_owned
aligned address s y = ground arith

-- The request releases the frame of `address`.
unfoldable pub releases : ℕ → Request → Bool
releases address (release other) = (other % 4096 == 0) && (other / 4096 == address / 4096)
releases address (alloc_below limit) = false
releases address alloc_user = false
releases address (claim other) = false
releases address (free other) = false

-- Some request of the history does.
unfoldable pub any_releases : ℕ → List Request → Bool
any_releases address [] = false
any_releases address (r ∷ rs) = if releases address r then true else any_releases address rs

same_mapped :
    (s s' : Pmm) (b : ℕ)
    → s'.user_mapped_bitmap ≡ s.user_mapped_bitmap
    → user_mapped s' b ≡ user_mapped s b
same_mapped s s' b e = ap (λ (t : ℕ → ℕ). ltb b user_max_blocks && has_bit t b) e

-- Every other request leaves the frame mapped.
step-mapped :
    (address : ℕ) (r : Request) (s : Pmm)
    → IsSafe s
    → releases address r ≡ false
    → user_mapped s (address / 4096) ≡ true
    → user_mapped (step r s) (address / 4096) ≡ true
unfolding step releases remap
step-mapped address (alloc_below limit) s h e m = elim (alloc_block_below_lem limit s h.valid) [
  | inl x ↦ rw (x.1) m
  | inr l ↦ same_mapped s (alloc_block_below limit s).1 (address / 4096) l.0.mapped ∙ m
]
step-mapped address alloc_user s h e m = elim (alloc_user_block_lem s h.valid) [
  | inl x ↦ rw (x.1) m
  | inr l ↦ same_mapped s (alloc_user_block s).1 (address / 4096) l.0.mapped ∙ m
]
step-mapped address (claim other) s h e m =
    rw (step, claim-eq other s)
      (if_both Mapped (is_claimable s other)
        (true, remap (raise_bit s.user_mapped_bitmap (other / 4096)) s) (false, s)
        (ground (arith, m, has_bit-raise_bit s.user_mapped_bitmap (other / 4096) (address / 4096)))
        m)
  where
    Mapped : Bool × Pmm → Type 0
    Mapped o = user_mapped o.1 (address / 4096) ≡ true
step-mapped address (release other) s h e m =
    rw (step, release-eq other s)
      (if_each Mapped (other % 4096 == 0 && ltb (other / 4096) user_max_blocks)
        (remap (lower_bit s.user_mapped_bitmap (other / 4096)) s) s
        (λ lowered. ground (
          arith,
          m,
          e,
          lowered,
          has_bit-lower_bit s.user_mapped_bitmap (other / 4096) (address / 4096),
        ))
        (λ kept. m))
  where
    Mapped : Pmm → Type 0
    Mapped o = user_mapped o (address / 4096) ≡ true
step-mapped address (free other) s h e m = elim (free_block_lem other s h.valid) [
  | inl (y, r) ↦ same_mapped s (free_block other s) (address / 4096) r.mapped ∙ m
  | inr (n, x) ↦ rw x m
]

run-mapped :
    (address : ℕ) (rs : List Request) (s : Pmm)
    → IsSafe s
    → any_releases address rs ≡ false
    → user_mapped s (address / 4096) ≡ true
    → user_mapped (run rs s) (address / 4096) ≡ true
unfolding run any_releases
run-mapped address [] s h e m = m
run-mapped address (r ∷ rs) s h e m =
    run-mapped address rs (step r s) (run-IsSafe (r ∷ []) s h) (ground arith)
      (step-mapped address r s h (ground arith) m)

-- A frame that an allocation lends was not lent before.
LendsFirst-other :
    (test : ℕ → Bool) (by_user : Bool) (first limit address : ℕ) (s : Pmm) (r : ℕ × Pmm)
    → IsSafe s
    → user_mapped s (address / 4096) ≡ true
    → LendsFirst test by_user first limit s r
    → r.0 / 4096 ≢ address / 4096
LendsFirst-other test by_user first limit address s r h m (l, _, _, _) e =
    let at : l.block ≡ address / 4096 = omega (arith, l.at, e) in
    absurd (ground (arith, h.mapped (address / 4096) m, l.free, ap (block_is_used s) at))

-- The frame of `address` is mapped in `s`, and neither claimed again, freed nor lent.
pub record Protected (address : ℕ) (s : Pmm) : Type 0 where
  pub mapped : user_block_is_mapped address s ≡ true
  pub claimed : claim_user_block address s ≡ (false, s)
  pub freed : free_block address s ≡ s
  pub lent_below :
      (limit : ℕ)
      → ((alloc_block_below limit s).0 ≡ 0)
        ⊎ ((alloc_block_below limit s).0 / 4096 ≢ address / 4096)
  pub lent_user : ((alloc_user_block s).0 ≡ 0) ⊎ ((alloc_user_block s).0 / 4096 ≢ address / 4096)

mapped-Protected :
    (address : ℕ) (s : Pmm)
    → IsSafe s
    → address % 4096 ≡ 0
    → user_mapped s (address / 4096) ≡ true
    → Protected address s
unfolding user_block_is_mapped block_is_user_owned
mapped-Protected address s h at m =
    let owned = h.mapped (address / 4096) m in
    let small : address / 4096 < max_blocks = ground (arith, m) in
    let inside : address / 4096 < s.detected_blocks =
      h.valid.inside (address / 4096) small (ground (arith, owned)) in
    record {
      mapped = ground (arith, m, at, owned, inside);
      claimed = claim_user_block-mapped address s m;
      freed = free_block-mapped address s m;
      lent_below = λ limit. elim (alloc_block_below_lem limit s h.valid) [
        | inl x ↦ inl (x.0)
        | inr l ↦ inr (LendsFirst-other _ false 256 limit address s _ h m l)
      ];
      lent_user = elim (alloc_user_block_lem s h.valid) [
        | inl x ↦ inl (x.0)
        | inr l ↦ inr (LendsFirst-other _ true 1024 0x10000000 address s _ h m l)
      ];
    }

-- A claim that succeeds in a safe state protects its frame until the release: after any further
-- requests of which none releases it, it is still mapped, a claim or a free of it changes nothing, and
-- no allocation lends it.
pub claim_protects :
    (address : ℕ) (rs : List Request) (s : Pmm)
    → IsSafe s
    → (claim_user_block address s).0 ≡ true
    → any_releases address rs ≡ false
    → Protected address (run rs (claim_user_block address s).1)
unfolding run step
claim_protects address rs s h done kept = elim (Bool-cases (is_claimable s address)) [
  | inl y ↦
      let m = mapped-remap address s y in
      let safe : IsSafe (claim_user_block address s).1 = run-IsSafe (claim address ∷ []) s h in
      mapped-Protected address (run rs (claim_user_block address s).1) (run-IsSafe rs _ safe)
        (aligned address s y) (run-mapped address rs _ safe kept (rw (claim-eq address s, y) (m.0)))
  | inr n ↦ absurd (ground (arith, rw (claim-eq address s, n) at done))
]
