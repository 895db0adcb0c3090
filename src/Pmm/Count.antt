-- ===== src/Pmm/Count.antt =====
-- Counting the blocks that pass a test.
use native.Mathlib.Decide.{ℕ_discrete}
use efes_os.Base.{ℕ, zero, suc, ◌+◌, ◌≤◌, ◌<◌, ◌≡◌, ◌≢◌, refl, Bool, true, false, arith}

abbrev pub one_if : Bool → ℕ
one_if true = 1
one_if false = 0

pub count_below : ℕ → (ℕ → Bool) → ℕ
count_below zero p = 0
count_below (suc n) p = one_if (p n) + count_below n p

pub count_below-le : (n : ℕ) (p : ℕ → Bool) → count_below n p ≤ n
unfolding count_below
count_below-le zero p = omega arith
count_below-le (suc n) p = ground (arith, count_below-le n p)

pub count_below_mono :
    (n : ℕ) (p q : ℕ → Bool)
    → ((i : ℕ) → i < n → p i ≡ true → q i ≡ true)
    → count_below n p ≤ count_below n q
unfolding count_below
count_below_mono zero p q h = omega arith
count_below_mono (suc n) p q h =
    ground (arith, h n, count_below_mono n p q (λ i lt. h i (omega arith)))

pub count_below-ext :
    (n : ℕ) (p q : ℕ → Bool) → ((i : ℕ) → i < n → p i ≡ q i) → count_below n p ≡ count_below n q
unfolding count_below
count_below-ext zero p q h = refl
count_below-ext (suc n) p q h =
    rw (h n (omega arith), count_below-ext n p q (λ i lt. h i (omega arith)))

-- A change at one block changes the count by that block.
pub count_below-change :
    (n a : ℕ) (p q : ℕ → Bool)
    → a < n
    → ((i : ℕ) → i ≢ a → p i ≡ q i)
    → count_below n q + one_if (p a) ≡ count_below n p + one_if (q a)
unfolding count_below
count_below-change zero a p q lt h = absurd (omega arith)
count_below-change (suc n) a p q lt h = elim (ℕ_discrete n a) [
  | yes e ↦ rw e (omega (arith, count_below-ext a p q (λ i below. h i (omega arith))))
  | no ne ↦ rw (h n ne) (omega (arith, count_below-change n a p q (omega arith) h))
]

pub count_below-none :
    (n : ℕ) (p : ℕ → Bool) → ((i : ℕ) → i < n → p i ≡ false) → count_below n p ≡ 0
unfolding count_below
count_below-none zero p h = refl
count_below-none (suc n) p h =
    rw (h n (omega arith), count_below-none n p (λ i lt. h i (omega arith))) refl

pub count_below-pos : (n : ℕ) (p : ℕ → Bool) (i : ℕ) → i < n → p i ≡ true → 0 < count_below n p
unfolding count_below
count_below-pos zero p i lt h = absurd (omega arith)
count_below-pos (suc n) p i lt h = elim (ℕ_discrete n i) [
  | yes e ↦ rw (e, h) (omega arith)
  | no ne ↦ omega (arith, count_below-pos n p i (omega arith) h)
]
