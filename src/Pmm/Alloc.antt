-- ===== src/Pmm/Alloc.antt =====
-- `pmm_alloc_block_below`, `pmm_alloc_user_block` and `pmm_free_block`: what each leaves in the tables.
use efes_os.Base.{
  ℕ, zero, suc, ◌+◌, ◌-◌, ◌*◌, ◌/◌, ◌%◌, ◌≤◌, ◌<◌, ◌≡◌, refl, ap, min, Bool, true, false, not, ◌&&◌,
  ◌||◌, none, some, arith, ◌==◌, leb, ltb, if◌then◌else◌, Bool-cases, Option-cases, inl, inr, ◌⊎◌,
}
use efes_os.Base.Bitmap.{has_bit, raise_bit, lower_bit, has_bit-raise_bit, has_bit-lower_bit}
use efes_os.Base.Words.{add32, sub32}
use efes_os.Pmm.{
  Pmm, max_blocks, user_max_blocks, find_block, grant, alloc_block_below, alloc_user_block,
  free_block, block_is_used, block_is_usable, mark_block_kernel_owned, mark_block_user_owned,
  user_mapped,
}
use efes_os.Pmm.Count.{count_below, count_below-le}
use efes_os.Pmm.Inv.{IsValid, is_lent, count-step}

-- Where the search of an allocation stops.
find_block-first :
    (test : ℕ → Bool) (n first b : ℕ)
    → find_block test n first ≡ some b
    → (first ≤ b)
      × (b < first + n)
      × (test b ≡ true)
      × ((c : ℕ) → first ≤ c → c < b → test c ≡ false)
unfolding find_block
find_block-first test zero first b e = absurd (ground (arith, e))
find_block-first test (suc n) first b e = elim (Bool-cases (test first)) [
  | inl hit ↦
      let here : first ≡ b = ground (arith, rw hit at e) in
      (omega arith, omega arith, rw (← here) hit, λ c p q. absurd (omega arith))
  | inr miss ↦
      let r = find_block-first test n (first + 1) b (rw miss at e) in
      (
        omega (arith, r.0),
        omega (arith, r.1),
        r.2,
        λ c p q. ground (arith, miss, r.3 c, ap test {x = c} {y = first}),
      )
]

find_block-none :
    (test : ℕ → Bool) (n first c : ℕ)
    → find_block test n first ≡ none
    → first ≤ c
    → c < first + n
    → test c ≡ false
unfolding find_block
find_block-none test zero first c e p q = absurd (omega arith)
find_block-none test (suc n) first c e p q = elim (Bool-cases (test first)) [
  | inl hit ↦ absurd (ground (arith, rw hit at e))
  | inr miss ↦ ground (
    arith,
    find_block-none test n (first + 1) c (rw miss at e),
    miss,
    ap test {x = c} {y = first},
  )
]

-- The tables after one block is lent.
lend : ℕ → (ℕ → ℕ) → Pmm → Pmm
lend b user_bitmap s = record s {
  bitmap = raise_bit s.bitmap b;
  user_bitmap = user_bitmap;
  used_managed_blocks = add32 s.used_managed_blocks 1;
}

pub is_lent-raise_bit :
    (b c : ℕ) (s : Pmm)
    → block_is_usable s b ≡ true
    → block_is_usable s c && has_bit (raise_bit s.bitmap b) c ≡ is_lent s c || (b == c)
is_lent-raise_bit b c s known =
    ground (arith, has_bit-raise_bit s.bitmap b c, ap (block_is_usable s) {x = b} {y = c})

lend-IsValid :
    {s : Pmm} (b : ℕ) (user_bitmap : ℕ → ℕ)
    → b < max_blocks
    → block_is_usable s b ≡ true
    → block_is_used s b ≡ false
    → IsValid s
    → IsValid (lend b user_bitmap s)
      × ((lend b user_bitmap s).used_managed_blocks ≡ s.used_managed_blocks + 1)
unfolding lend
lend-IsValid {s} b user_bitmap lt known free v = (
  record {
    managed = v.managed;
    used = omega (arith, counted, v.used, count_below-le max_blocks (is_lent s));
    held = λ c below none_there. ground (arith, has_bit-raise_bit s.bitmap b c, v.held c below);
    detected = v.detected;
    inside = v.inside;
  },
  omega (arith, v.used, count_below-le max_blocks (is_lent s)),
)
  where
    counted :
        count_below max_blocks (λ c. block_is_usable s c && has_bit (raise_bit s.bitmap b) c) + 0
        ≡ count_below max_blocks (is_lent s) + 1
    counted =
        count-step b (is_lent s) _ false true lt
          (λ i ne. ground (arith, has_bit-raise_bit s.bitmap b i)) (rw (known, free) refl)
          (ground (arith, has_bit-raise_bit s.bitmap b b))

-- A call that lends a block: which one, and all that changes.
pub record Lends (by_user : Bool) (s : Pmm) (address : ℕ) (s' : Pmm) : Type 0 where
  pub block : ℕ
  pub at : address ≡ block * 4096
  pub low : 256 ≤ block
  pub below : block < s.detected_blocks
  pub managed : block_is_usable s block ≡ true
  pub free : block_is_used s block ≡ false
  pub valid : IsValid s'
  pub counted : s'.used_managed_blocks ≡ s.used_managed_blocks + 1
  pub lent : (c : ℕ) → is_lent s' c ≡ is_lent s c || (block == c)
  pub usable : s'.usable_bitmap ≡ s.usable_bitmap
  pub mapped : s'.user_mapped_bitmap ≡ s.user_mapped_bitmap
  pub detected : s'.detected_blocks ≡ s.detected_blocks
  pub owner :
      (c : ℕ)
      → c < user_max_blocks
      → has_bit s'.user_bitmap c ≡ (if block == c then by_user else has_bit s.user_bitmap c)

lend-Lends :
    (by_user : Bool) (b : ℕ) (user_bitmap : ℕ → ℕ) (s : Pmm)
    → 256 ≤ b
    → b < s.detected_blocks
    → block_is_used s b ≡ false
    → IsValid s
    → ((c : ℕ)
        → c < user_max_blocks
        → has_bit user_bitmap c ≡ (if b == c then by_user else has_bit s.user_bitmap c))
    → Lends by_user s (b * 4096) (lend b user_bitmap s)
unfolding lend
lend-Lends by_user b user_bitmap s low lt free v owner =
    let lt' : b < max_blocks = omega (arith, v.detected) in
    let known : block_is_usable s b ≡ true = ground (arith, v.held b lt') in
    let after = lend-IsValid b user_bitmap lt' known free v in
    record {
      block = b;
      at = refl;
      low = low;
      below = lt;
      managed = known;
      free = free;
      valid = after.0;
      counted = after.1;
      lent = λ c. is_lent-raise_bit b c s known;
      usable = refl;
      mapped = refl;
      detected = refl;
      owner = owner;
    }

kernel_bits : ℕ → Pmm → ℕ → ℕ
kernel_bits b s = if leb user_max_blocks b then s.user_bitmap else lower_bit s.user_bitmap b

user_bits : ℕ → Pmm → ℕ → ℕ
user_bits b s = if leb user_max_blocks b then s.user_bitmap else raise_bit s.user_bitmap b

has_bit-kernel_bits :
    (b c : ℕ) (s : Pmm)
    → c < user_max_blocks
    → has_bit (kernel_bits b s) c ≡ (if b == c then false else has_bit s.user_bitmap c)
unfolding kernel_bits
has_bit-kernel_bits b c s lt = ground (arith, has_bit-lower_bit s.user_bitmap b c)

has_bit-user_bits :
    (b c : ℕ) (s : Pmm)
    → c < user_max_blocks
    → has_bit (user_bits b s) c ≡ (if b == c then true else has_bit s.user_bitmap c)
unfolding user_bits
has_bit-user_bits b c s lt = ground (arith, has_bit-raise_bit s.user_bitmap b c)

grant-none : (mark : ℕ → Pmm → Pmm) (s : Pmm) → grant mark none s ≡ (0, s)
unfolding grant
grant-none mark s = refl

grant_kernel-eq :
    (b : ℕ) (s : Pmm)
    → grant mark_block_kernel_owned (some b) s ≡ (b * 4096, lend b (kernel_bits b s) s)
unfolding grant lend kernel_bits
grant_kernel-eq b s = elim (Bool-cases (leb user_max_blocks b)) [
  | inl y ↦ rw y refl
  | inr n ↦ rw n refl
]

grant_user-eq :
    (b : ℕ) (s : Pmm)
    → grant mark_block_user_owned (some b) s ≡ (b * 4096, lend b (user_bits b s) s)
unfolding grant lend user_bits
grant_user-eq b s = elim (Bool-cases (leb user_max_blocks b)) [
  | inl y ↦ rw y refl
  | inr n ↦ rw n refl
]

-- What the two allocation loops look for.
abbrev pub kernel_free : Pmm → ℕ → Bool
kernel_free s b = not (block_is_used s b)

abbrev pub user_free : Pmm → ℕ → Bool
user_free s b = not (block_is_used s b) && block_is_usable s b

-- An allocation with no block left says 0 and changes nothing.
abbrev pub Exhausted : (ℕ → Bool) → ℕ → ℕ → Pmm → ℕ × Pmm → Type 0
Exhausted test first limit s r =
    (r.0 ≡ 0)
    × (r.1 ≡ s)
    × ((c : ℕ) → first ≤ c → c < s.detected_blocks → c * 4096 + 4096 ≤ limit → test c ≡ false)

-- An allocation lends the first block that passes the test.
abbrev pub LendsFirst : (ℕ → Bool) → Bool → ℕ → ℕ → Pmm → ℕ × Pmm → Type 0
LendsFirst test by_user first limit s r =
    Lends by_user s r.0 r.1
    × (first * 4096 ≤ r.0)
    × (r.0 + 4096 ≤ limit)
    × ((c : ℕ) → first ≤ c → c * 4096 < r.0 → test c ≡ false)

-- `pmm_alloc_block_below` under the invariant: if all blocks below the limit and above low memory are
-- in use it returns 0 and changes nothing; else it lends the kernel the lowest free one, which is
-- managed and above low memory, and nothing else changes hands.
pub alloc_block_below_lem :
    (limit : ℕ) (s : Pmm)
    → IsValid s
    → Exhausted (kernel_free s) 256 limit s (alloc_block_below limit s)
      ⊎ LendsFirst (kernel_free s) false 256 limit s (alloc_block_below limit s)
unfolding alloc_block_below
alloc_block_below_lem limit s v =
    elim (Option-cases
      (find_block (kernel_free s) (min (limit / 4096) s.detected_blocks - 256) 256)) [
        | inl e ↦
            rw (e, grant-none)
              (inl
                (refl, refl, λ c p q r. find_block-none (kernel_free s) _ 256 c e p (omega arith)))
        | inr (b, e) ↦
            let f = find_block-first (kernel_free s) _ 256 b e in
            rw (e, grant_kernel-eq b s)
              (inr (
                lend-Lends false b (kernel_bits b s) s f.0 (omega (arith, f.1, f.0))
                    (ground (arith, f.2)) v (λ c lt. has_bit-kernel_bits b c s lt),
                omega (arith, f.0),
                omega (arith, f.1, f.0),
                λ c p q. f.3 c p (omega arith),
              ))
      ]

-- `pmm_alloc_user_block` under the invariant: as the kernel's allocation, in the window from 4 MiB to
-- 256 MiB, and the block it lends is marked as the user's.
pub alloc_user_block_lem :
    (s : Pmm)
    → IsValid s
    → Exhausted (user_free s) 1024 0x10000000 s (alloc_user_block s)
      ⊎ LendsFirst (user_free s) true 1024 0x10000000 s (alloc_user_block s)
unfolding alloc_user_block
alloc_user_block_lem s v =
    elim (Option-cases
      (find_block (user_free s) (min s.detected_blocks user_max_blocks - 1024) 1024)) [
        | inl e ↦
            rw (e, grant-none)
              (inl
                (refl, refl, λ c p q r. find_block-none (user_free s) _ 1024 c e p (omega arith)))
        | inr (b, e) ↦
            let f = find_block-first (user_free s) _ 1024 b e in
            rw (e, grant_user-eq b s)
              (inr (
                lend-Lends true b (user_bits b s) s (omega (arith, f.0)) (omega (arith, f.1, f.0))
                    (ground (arith, f.2)) v (λ c lt. has_bit-user_bits b c s lt),
                omega (arith, f.0),
                omega (arith, f.1, f.0),
                λ c p q. f.3 c p (omega arith),
              ))
      ]

take_back : ℕ → Pmm → Pmm
take_back b s = record s {
  bitmap = lower_bit s.bitmap b;
  user_bitmap = kernel_bits b s;
  used_managed_blocks = sub32 s.used_managed_blocks 1;
}

is_lent-lower_bit :
    (b c : ℕ) (s : Pmm)
    → block_is_usable s c && has_bit (lower_bit s.bitmap b) c ≡ is_lent s c && not (b == c)
is_lent-lower_bit b c s = ground (arith, has_bit-lower_bit s.bitmap b c)

-- A block comes back: it alone changes hands, and it is the kernel's again.
pub record Returns (s : Pmm) (block : ℕ) (s' : Pmm) : Type 0 where
  pub valid : IsValid s'
  pub counted : s'.used_managed_blocks + 1 ≡ s.used_managed_blocks
  pub lent : (c : ℕ) → is_lent s' c ≡ is_lent s c && not (block == c)
  pub usable : s'.usable_bitmap ≡ s.usable_bitmap
  pub mapped : s'.user_mapped_bitmap ≡ s.user_mapped_bitmap
  pub detected : s'.detected_blocks ≡ s.detected_blocks
  pub owner :
      (c : ℕ)
      → c < user_max_blocks
      → has_bit s'.user_bitmap c ≡ (if block == c then false else has_bit s.user_bitmap c)

take_back-Returns :
    (b : ℕ) (s : Pmm)
    → b < max_blocks
    → is_lent s b ≡ true
    → IsValid s
    → Returns s b (take_back b s)
unfolding take_back
take_back-Returns b s lt known v = record {
  valid = record {
    managed = v.managed;
    used = omega (arith, counted, v.used, count_below-le max_blocks (is_lent s));
    held = λ c below none_there. ground (
      arith,
      has_bit-lower_bit s.bitmap b c,
      v.held c below,
      known,
      ap (block_is_usable s) {x = b} {y = c},
    );
    detected = v.detected;
    inside = v.inside;
  };
  counted = omega (arith, counted, v.used, count_below-le max_blocks (is_lent s));
  lent = λ c. is_lent-lower_bit b c s;
  usable = refl;
  mapped = refl;
  detected = refl;
  owner = λ c below. has_bit-kernel_bits b c s below;
}
  where
    counted :
        count_below max_blocks (λ c. block_is_usable s c && has_bit (lower_bit s.bitmap b) c) + 1
        ≡ count_below max_blocks (is_lent s) + 0
    counted =
        count-step b (is_lent s) _ true false lt
          (λ i ne. ground (arith, has_bit-lower_bit s.bitmap b i)) known
          (ground (arith, has_bit-lower_bit s.bitmap b b))

-- The blocks that a free accepts.
abbrev pub is_freeable : Pmm → ℕ → Bool
is_freeable s address =
    address % 4096 == 0
    && leb 256 (address / 4096)
    && ltb (address / 4096) s.detected_blocks
    && is_lent s (address / 4096)
    && not (user_mapped s (address / 4096))

free_block-eq :
    (address : ℕ) (s : Pmm)
    → free_block address s ≡ (if is_freeable s address then take_back (address / 4096) s else s)
unfolding free_block take_back kernel_bits
free_block-eq address s = ground arith

-- `pmm_free_block` under the invariant takes back exactly a lent, page-aligned block above low memory
-- that no user mapping holds; on every other address it changes nothing.
pub free_block_lem :
    (address : ℕ) (s : Pmm)
    → IsValid s
    → ((is_freeable s address ≡ true) × Returns s (address / 4096) (free_block address s))
      ⊎ ((is_freeable s address ≡ false) × (free_block address s ≡ s))
free_block_lem address s v = elim (Bool-cases (is_freeable s address)) [
  | inl y ↦ inl (
    y,
    rw (free_block-eq address s, y)
        (take_back-Returns (address / 4096) s (ground (arith, v.detected)) (ground arith) v),
  )
  | inr n ↦ inr (n, rw (free_block-eq address s, n) refl)
]
