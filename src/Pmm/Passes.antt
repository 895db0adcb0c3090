-- ===== src/Pmm/Passes.antt =====
-- The two passes over the memory map, and that they keep the invariant.
use native.Mathlib.Decide.{dec_le}
use efes_os.Base.{
  ℕ, zero, suc, ◌+◌, ◌-◌, ◌≤◌, ◌<◌, ◌≡◌, ap, sym, ◌∙◌, Bool, false, ◌&&◌, ◌||◌, arith, ltb,
  if◌then◌else◌, if_both, Bool-cases, inl, inr,
}
use efes_os.BootInfo.{Entry, entry_base, entry_length, apply_entries}
use efes_os.Pmm.{
  Pmm, max_blocks, block_is_usable, mark_block_available, mark_block_reserved, for_span, for_blocks,
  release_e820_range, reserve_e820_range, reserve_range, clamp_block_index,
}
use efes_os.Pmm.Inv.{
  IsValid, for_blocks_inv, mark_block_available-IsValid, mark_block_reserved-IsValid,
  detected-mark_block_available,
}

-- Some entry of the map passes the test and relates to the block.
unfoldable pub some_entry : (Entry → Bool) → (ℕ → ℕ → ℕ → Bool) → ℕ → ℕ → (ℕ → Entry) → ℕ → Bool
some_entry test rel zero index map b = false
some_entry test rel (suc n) index map b =
    (test (map index) && rel (entry_base (map index)) (entry_length (map index)) b)
    || some_entry test rel n (index + 1) map b

-- All entries of the map are ranges.
abbrev pub AreRanges : ℕ → (ℕ → Entry) → Type 0
AreRanges count map =
    (j : ℕ)
    → j < count
    → (0 < entry_length (map j))
      × (entry_base (map j) + entry_length (map j) < 0x1_0000_0000_0000_0000)

-- A handler that joins a relation of range and block to the block's state joins, in a pass, that of
-- all entries.
module _ (join : Bool → Bool → Bool) (join-false : (x : Bool) → join x false ≡ x)
    (join_assoc : (x r t : Bool) → join (join x r) t ≡ join x (r || t)) (test : Entry → Bool)
    (rel : ℕ → ℕ → ℕ → Bool) (handler : ℕ → ℕ → Pmm → Pmm) (b : ℕ)
    (law : (base length : ℕ) (s : Pmm)
      → (0 < length) × (base + length < 0x1_0000_0000_0000_0000)
      → block_is_usable (handler base length s) b
        ≡ join (block_is_usable s b) (rel base length b)) where
  usable-handled :
      (e : Entry) (s : Pmm)
      → (0 < entry_length e) × (entry_base e + entry_length e < 0x1_0000_0000_0000_0000)
      → block_is_usable (if test e then handler (entry_base e) (entry_length e) s else s) b
        ≡ join (block_is_usable s b) (test e && rel (entry_base e) (entry_length e) b)
  usable-handled e s r = elim (Bool-cases (test e)) [
    | inl y ↦ rw y (law (entry_base e) (entry_length e) s r)
    | inr n ↦ rw n (sym (join-false (block_is_usable s b)))
  ]

  pub usable-pass :
      (n index count : ℕ) (map : ℕ → Entry) (s : Pmm)
      → AreRanges count map
      → index + n ≤ count
      → block_is_usable (apply_entries test handler n index map s) b
        ≡ join (block_is_usable s b) (some_entry test rel n index map b)
  unfolding some_entry apply_entries
  usable-pass zero index count map s r h = sym (join-false (block_is_usable s b))
  usable-pass (suc n) index count map s r h =
      usable-pass n (index + 1) count map _ r (omega arith)
      ∙ ap (λ x. join x (some_entry test rel n (index + 1) map b))
          (usable-handled (map index) s (r index (omega arith)))
      ∙ join_assoc _ _ _

pub pass_inv :
    (P : Pmm → Type 0) (test : Entry → Bool) (handler : ℕ → ℕ → Pmm → Pmm)
    → ((base length : ℕ) (s : Pmm) → P s → P (handler base length s))
    → (n index : ℕ) (map : ℕ → Entry) (s : Pmm) → P s
    → P (apply_entries test handler n index map s)
unfolding apply_entries
pass_inv P test handler keep zero index map s p = p
pass_inv P test handler keep (suc n) index map s p =
    pass_inv P test handler keep n (index + 1) map _
      (if_both P (test (map index)) _ _ (keep _ _ s p) p)

span_reserved-IsValid :
    (first end : ℕ) {s : Pmm} → IsValid s → IsValid (for_span mark_block_reserved first end s)
unfolding for_span
span_reserved-IsValid first end {s} v =
    for_blocks_inv IsValid mark_block_reserved (first + (end - first))
      (λ a t lt w. mark_block_reserved-IsValid a w) (end - first) first s (omega arith) v

pub reserve_e820_range-IsValid :
    (base length : ℕ) {s : Pmm} → IsValid s → IsValid (reserve_e820_range base length s)
unfolding reserve_e820_range
reserve_e820_range-IsValid base length v = if_both IsValid _ _ _ v (span_reserved-IsValid _ _ v)

pub reserve_range-IsValid :
    (address length : ℕ) {s : Pmm} → IsValid s → IsValid (reserve_range address length s)
unfolding reserve_range
reserve_range-IsValid address length v = if_both IsValid _ _ _ v (span_reserved-IsValid _ _ v)

-- A larger `detected_blocks` is as good.
detect : ℕ → Pmm → Pmm
detect end s = record s {
  detected_blocks = if ltb s.detected_blocks end then end else s.detected_blocks;
}

detect-IsValid : (end : ℕ) {s : Pmm} → end ≤ max_blocks → IsValid s → IsValid (detect end s)
unfolding detect
detect-IsValid end {s} h v = record {
  managed = v.managed;
  used = v.used;
  held = v.held;
  detected = ground (arith, v.detected);
  inside = λ b below there. ground (arith, v.inside b below there);
}

detected-detect : (end : ℕ) (s : Pmm) → end ≤ (detect end s).detected_blocks
unfolding detect
detected-detect end s = ground arith

for_blocks-none :
    (mark : ℕ → Pmm → Pmm) (first : ℕ) (s : Pmm) → IsValid s → IsValid (for_blocks mark 0 first s)
unfolding for_blocks
for_blocks-none mark first s v = v

clamp_block_index-le : (a : ℕ) → clamp_block_index a ≤ max_blocks
unfolding clamp_block_index
clamp_block_index-le a = ground arith

span_available-IsValid :
    (first end : ℕ) {s : Pmm}
    → end ≤ max_blocks
    → IsValid s
    → IsValid (for_span mark_block_available first end (detect end s))
unfolding for_span
span_available-IsValid first end {s} h v = elim (dec_le first end) [
  | yes le ↦
      (for_blocks_inv (λ t. IsValid t × (end ≤ t.detected_blocks)) mark_block_available end
        (λ a t lt w. (
          mark_block_available-IsValid a (omega (arith, w.1)) w.0,
          omega (arith, w.1, detected-mark_block_available a t),
        ))
        (end - first) first (detect end s) (omega arith)
        (detect-IsValid end h v, detected-detect end s)).0
  | no gt ↦
      let none_left : end - first ≡ 0 = omega arith in
      rw none_left (for_blocks-none _ first _ (detect-IsValid end h v))
]

pub release_e820_range-IsValid :
    (base length : ℕ) {s : Pmm} → IsValid s → IsValid (release_e820_range base length s)
unfolding release_e820_range detect
release_e820_range-IsValid base length v =
    if_both IsValid _ _ _ v (span_available-IsValid _ _ (clamp_block_index-le _) v)
