-- ===== src/Base/Arrays.antt =====
-- C arrays as functions of the index, with the loops that fill and copy them.
use Prim.Native.Nat.{ℕ, zero, suc, ◌+◌, ◌<◌, ◌≤◌}
use mathlib.Core.Path.{◌≡◌, refl, ap, ap₂, ◌∙◌}
use mathlib.Core.Bool.{◌&&◌}
use mathlib.Core.List.{List, [], ◌∷◌, ◌++◌}
use native.Mathlib.Omega.{arith}
use native.Mathlib.Nat.{add-zero, zero-add, add_assoc}
use efes_os.Base.Tests.{◌==◌, ltb, leb, if◌then◌else◌}
use efes_os.Base.Lists.{length}

module _ {ℓ} {A : Type ℓ} where
  -- a[i] = v
  abbrev pub update : (ℕ → A) → ℕ → A → ℕ → A
  update a i v j = if j == i then v else a j

  -- The first `n` elements from index `i` on.
  abbrev pub slice : (ℕ → A) → ℕ → ℕ → List A
  slice a i zero = []
  slice a i (suc n) = a i ∷ slice a (i + 1) n

  -- for (k = i; k < i + n; k++) destination[k] = source[k];
  unfoldable pub copy_from : ℕ → ℕ → (ℕ → A) → (ℕ → A) → ℕ → A
  copy_from zero i destination source = destination
  copy_from (suc n) i destination source =
      copy_from n (i + 1) (update destination i (source i)) source

  pub copy_from_lem :
      (n i : ℕ) (destination source : ℕ → A) (j : ℕ)
      → copy_from n i destination source j
        ≡ (if leb i j && ltb j (i + n) then source j else destination j)
  unfolding copy_from
  copy_from_lem zero i d s j = ground arith
  copy_from_lem (suc n) i d s j = ground (arith, copy_from_lem n (i + 1) (update d i (s i)) s j)

  pub slice-length : (a : ℕ → A) (i n : ℕ) → length (slice a i n) ≡ n
  slice-length a i zero = refl
  slice-length a i (suc n) = omega (arith, slice-length a (i + 1) n)

  pub slice-cong :
      (a b : ℕ → A) (i j n : ℕ)
      → ((t : ℕ) → t < n → a (i + t) ≡ b (j + t))
      → slice a i n ≡ slice b j n
  slice-cong a b i j zero h = refl
  slice-cong a b i j (suc n) h =
      ap₂ ◌∷◌ (rw (add-zero, add-zero) at (h 0 (omega arith)))
        (slice-cong a b (i + 1) (j + 1) n λ t p. rw (add_assoc, add_assoc) (step t p))
    where
      step : (t : ℕ) → t < n → a (i + (1 + t)) ≡ b (j + (1 + t))
      step t p = h (1 + t) (omega arith)

  pub slice-ext :
      (a b : ℕ → A) (i n : ℕ)
      → ((j : ℕ) → i ≤ j → j < i + n → a j ≡ b j)
      → slice a i n ≡ slice b i n
  slice-ext a b i n h = slice-cong a b i i n λ t p. h (i + t) (omega arith) (omega arith)

  pub slice-add :
      (a : ℕ → A) (i m n r : ℕ) → n ≡ m + r → slice a i n ≡ slice a i m ++ slice a (i + m) r
  slice-add a i zero n r e = rw (e, zero-add, add-zero)
  slice-add a i (suc m) zero r e = absurd (omega arith)
  slice-add a i (suc m) (suc n) r e = ap (◌∷◌ (a i)) (
      slice-add a (i + 1) m n r (omega arith)
      ∙ ap (λ k. slice a (i + 1) m ++ slice a k r) (omega arith))

  -- One element left out: the ones before it stay, and the ones behind it move down.
  pub slice-delete :
      (a b : ℕ → A) (m n r : ℕ)
      → n ≡ m + r
      → ((t : ℕ) → t < n → b t ≡ (if ltb t m then a t else a (t + 1)))
      → slice b 0 n ≡ slice a 0 m ++ slice a (m + 1) r
  slice-delete a b m n r e h =
      slice-add b 0 m n r e
      ∙ ap₂ ◌++◌ (slice-cong b a 0 0 m (λ t p. ground (arith, h t))) (
          slice-cong b a (0 + m) (m + 1) r (λ t p.
            ground (arith, h (0 + m + t), ap a {x = 0 + m + t + 1} {y = m + 1 + t} (omega arith))))
