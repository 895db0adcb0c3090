-- ===== src/Pmm/Inv.antt =====
-- The invariant of memory/pmm.c: the counters count what the bitmaps hold, so that no counter wraps;
-- a block that is not managed is marked used; and managed blocks lie below `detected_blocks`.
use native.Mathlib.Decide.{dec_lt}
use efes_os.Base.{
  ℕ, zero, suc, ◌+◌, ◌≤◌, ◌<◌, ◌≡◌, ◌≢◌, refl, ap, ◌∙◌, Bool, true, false, not, ◌&&◌, ◌||◌, arith,
  ◌==◌, leb, if◌then◌else◌, if_each, Bool-cases, inl, inr,
}
use efes_os.Base.Bitmap.{has_bit, raise_bit, lower_bit, has_bit-raise_bit, has_bit-lower_bit}
use efes_os.Base.Words.{add32, sub32}
use efes_os.Pmm.{
  Pmm, max_blocks, mark_block_available, mark_block_reserved, for_blocks, block_is_used,
  block_is_usable,
}
use efes_os.Pmm.Count.{
  one_if, count_below, count_below-le, count_below-change, count_below_mono, count_below-ext,
}

-- Handed out: managed and in use.
abbrev pub is_lent : Pmm → ℕ → Bool
is_lent s block = block_is_usable s block && block_is_used s block

pub record IsValid (s : Pmm) : Type 0 where
  pub managed : s.managed_blocks ≡ count_below max_blocks (block_is_usable s)
  pub used : s.used_managed_blocks ≡ count_below max_blocks (is_lent s)
  pub held : (b : ℕ) → b < max_blocks → block_is_usable s b ≡ false → block_is_used s b ≡ true
  pub detected : s.detected_blocks ≤ max_blocks
  pub inside : (b : ℕ) → b < max_blocks → block_is_usable s b ≡ true → b < s.detected_blocks

pub count-step :
    (a : ℕ) (p q : ℕ → Bool) (x y : Bool)
    → a < max_blocks
    → ((i : ℕ) → i ≢ a → p i ≡ q i)
    → p a ≡ x
    → q a ≡ y
    → count_below max_blocks q + one_if x ≡ count_below max_blocks p + one_if y
count-step a p q x y lt same px qy = rw (← px, ← qy) (count_below-change max_blocks a p q lt same)

pub lent-le-managed :
    (s : Pmm) → count_below max_blocks (is_lent s) ≤ count_below max_blocks (block_is_usable s)
lent-le-managed s =
    count_below_mono max_blocks (is_lent s) (block_is_usable s) (λ i lt h. ground arith)

manage : ℕ → Pmm → Pmm
manage a s = record s {
  bitmap = lower_bit s.bitmap a;
  usable_bitmap = raise_bit s.usable_bitmap a;
  managed_blocks = add32 s.managed_blocks 1;
}

manage-IsValid :
    {s : Pmm} (a : ℕ)
    → a < s.detected_blocks
    → block_is_usable s a ≡ false
    → IsValid s
    → IsValid (manage a s)
unfolding manage
manage-IsValid {s} a lt fresh v = record {
  managed = omega (
    arith,
    v.managed,
    v.detected,
    count_below-le max_blocks (block_is_usable s),
    count-step a (block_is_usable s) (has_bit (raise_bit s.usable_bitmap a)) false true
        (omega (arith, v.detected)) (λ i ne. ground (arith, has_bit-raise_bit s.usable_bitmap a i))
        fresh (ground (arith, has_bit-raise_bit s.usable_bitmap a a)),
    below,
  );
  used = omega (
    arith,
    v.used,
    count-step a (is_lent s)
        (λ b. has_bit (raise_bit s.usable_bitmap a) b && has_bit (lower_bit s.bitmap a) b) false
        false (omega (arith, v.detected))
        (λ i ne.
          ground (arith, has_bit-raise_bit s.usable_bitmap a i, has_bit-lower_bit s.bitmap a i))
        (ground (arith, fresh))
        (ground (
          arith,
          has_bit-lower_bit s.bitmap a a,
          Bool-cases (has_bit (raise_bit s.usable_bitmap a) a),
        )),
  );
  held = λ b inside none_there. ground (
    arith,
    has_bit-raise_bit s.usable_bitmap a b,
    has_bit-lower_bit s.bitmap a b,
    v.held b inside,
  );
  detected = v.detected;
  inside =
      λ b inside there. ground (arith, has_bit-raise_bit s.usable_bitmap a b, v.inside b inside);
}
  where
    below : s.managed_blocks < 0x1_0000_0000
    below = omega (arith, v.managed, count_below-le max_blocks (block_is_usable s))

pub mark_block_available-IsValid :
    {s : Pmm} (a : ℕ) → a < s.detected_blocks → IsValid s → IsValid (mark_block_available a s)
unfolding mark_block_available manage
mark_block_available-IsValid {s} a lt v =
    if_each IsValid (leb max_blocks a || block_is_usable s a) _ _ (λ skip. v)
      λ fresh. manage-IsValid a lt (ground (arith, fresh)) v

withdraw : ℕ → Pmm → Pmm
withdraw a s = record s {
  bitmap = raise_bit s.bitmap a;
  usable_bitmap = lower_bit s.usable_bitmap a;
  managed_blocks = sub32 s.managed_blocks 1;
  used_managed_blocks =
      if block_is_used s a then sub32 s.used_managed_blocks 1 else s.used_managed_blocks;
}

withdraw-IsValid :
    {s : Pmm} (a : ℕ)
    → a < max_blocks
    → block_is_usable s a ≡ true
    → IsValid s
    → IsValid (withdraw a s)
unfolding withdraw
withdraw-IsValid {s} a lt known v = record {
  managed = omega (arith, v.managed, count-managed, count_below-le max_blocks (block_is_usable s));
  used = ground (arith, v.used, count-used, count_below-le max_blocks (is_lent s));
  held = λ b inside none_there. ground (
    arith,
    has_bit-lower_bit s.usable_bitmap a b,
    has_bit-raise_bit s.bitmap a b,
    v.held b inside,
  );
  detected = v.detected;
  inside =
      λ b inside there. ground (arith, has_bit-lower_bit s.usable_bitmap a b, v.inside b inside);
}
  where
    count-managed :
        count_below max_blocks (has_bit (lower_bit s.usable_bitmap a)) + 1
        ≡ count_below max_blocks (block_is_usable s) + 0
    count-managed =
        count-step a (block_is_usable s) (has_bit (lower_bit s.usable_bitmap a)) true false lt
          (λ i ne. ground (arith, has_bit-lower_bit s.usable_bitmap a i)) known
          (ground (arith, has_bit-lower_bit s.usable_bitmap a a))

    count-used :
        count_below max_blocks
            (λ b. has_bit (lower_bit s.usable_bitmap a) b && has_bit (raise_bit s.bitmap a) b)
          + one_if (block_is_used s a)
        ≡ count_below max_blocks (is_lent s) + 0
    count-used =
        count-step a (is_lent s) _ (block_is_used s a) false lt
          (λ i ne.
            ground (arith, has_bit-lower_bit s.usable_bitmap a i, has_bit-raise_bit s.bitmap a i))
          (rw known refl) (ground (arith, has_bit-lower_bit s.usable_bitmap a a))

retire : ℕ → Pmm → Pmm
retire a s = record s { bitmap = raise_bit s.bitmap a }

retire-IsValid : {s : Pmm} (a : ℕ) → block_is_usable s a ≡ false → IsValid s → IsValid (retire a s)
unfolding retire
retire-IsValid {s} a none_there v = record {
  managed = v.managed;
  used =
      v.used
      ∙ count_below-ext max_blocks _ _ (λ i lt. ground (arith, has_bit-raise_bit s.bitmap a i));
  held = λ b inside free. ground (arith, has_bit-raise_bit s.bitmap a b, v.held b inside);
  detected = v.detected;
  inside = v.inside;
}

mark_block_reserved-eq :
    (a : ℕ) (s : Pmm)
    → a < max_blocks
    → mark_block_reserved a s ≡ (if block_is_usable s a then withdraw a s else retire a s)
unfolding mark_block_reserved withdraw retire
mark_block_reserved-eq a s lt = elim (Bool-cases (block_is_usable s a)) [
  | inl y ↦ rw y (ground arith)
  | inr n ↦ rw n (ground arith)
]

pub mark_block_reserved-IsValid : {s : Pmm} (a : ℕ) → IsValid s → IsValid (mark_block_reserved a s)
unfolding mark_block_reserved
mark_block_reserved-IsValid {s} a v = elim (dec_lt a max_blocks) [
  | yes lt ↦ rw (mark_block_reserved-eq a s lt) (
      if_each IsValid (block_is_usable s a) _ _ (λ y. withdraw-IsValid a lt y v)
        (λ n. retire-IsValid a n v))
  | no ge ↦ let skip : leb max_blocks a ≡ true = ground arith in rw skip v
]

-- The loops keep the invariant where their body does.
pub for_blocks_inv {ℓ} :
    (P : Pmm → Type ℓ) (mark : ℕ → Pmm → Pmm) (end : ℕ)
    → ((a : ℕ) (s : Pmm) → a < end → P s → P (mark a s))
    → (n first : ℕ) (s : Pmm) → first + n ≤ end
    → P s
    → P (for_blocks mark n first s)
unfolding for_blocks
for_blocks_inv P mark end keep zero first s h p = p
for_blocks_inv P mark end keep (suc n) first s h p =
    for_blocks_inv P mark end keep n (first + 1) (mark first s) (omega arith)
      (keep first s (omega arith) p)

pub detected-mark_block_available :
    (a : ℕ) (s : Pmm) → (mark_block_available a s).detected_blocks ≡ s.detected_blocks
unfolding mark_block_available
detected-mark_block_available a s = ground arith

pub usable-mark_block_available :
    (a b : ℕ) (s : Pmm)
    → b < max_blocks
    → block_is_usable (mark_block_available a s) b ≡ block_is_usable s b || (a == b)
unfolding mark_block_available
usable-mark_block_available a b s lt =
    ground (arith, has_bit-raise_bit s.usable_bitmap a b, ap (block_is_usable s) {x = a} {y = b})

pub usable-mark_block_reserved :
    (a b : ℕ) (s : Pmm)
    → b < max_blocks
    → block_is_usable (mark_block_reserved a s) b ≡ block_is_usable s b && not (a == b)
unfolding mark_block_reserved
usable-mark_block_reserved a b s lt =
    ground (arith, has_bit-lower_bit s.usable_bitmap a b, ap (block_is_usable s) {x = a} {y = b})
