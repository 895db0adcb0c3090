-- ===== src/Pmm/Init.antt =====
-- `pmm_init`: which blocks become managed, whatever the order of the BIOS memory map.
use native.Mathlib.Decide.{dec_lt}
use efes_os.Base.{
  ℕ, zero, suc, ◌+◌, ◌-◌, ◌*◌, ◌/◌, ◌<◌, ◌≡◌, ◌≢◌, refl, ap, sym, ◌∙◌, Bool, true, false, not, ◌&&◌,
  ◌||◌, some, arith, ◌==◌, leb, ltb, Bool-cases, inl, inr,
}
use efes_os.Base.Bitmap.{has_bit-zero, has_bit-ones}
use efes_os.Base.Words.{add64}
use efes_os.BootInfo.{
  BootInfo, boot_info_is_valid, apply_memory_map, apply_entries, is_usable_entry, is_reserved_entry,
}
use efes_os.BootInfo.Laws.{IsWords, boot_info_is_valid-range}
use efes_os.Pmm.{
  Pmm, max_blocks, low_memory_end, mark_block_available, mark_block_reserved, for_blocks, for_span,
  clamp_block_index, round_up_index, block_is_usable, release_e820_range, reserve_e820_range,
  reserve_range, reserve_fixed, cleared, init,
}
use efes_os.Pmm.Count.{count_below-none, count_below-pos}
use efes_os.Pmm.Passes.{
  some_entry, AreRanges, usable-pass, pass_inv, reserve_e820_range-IsValid,
  release_e820_range-IsValid, reserve_range-IsValid,
}
use efes_os.Pmm.Inv.{IsValid, usable-mark_block_available, usable-mark_block_reserved}

-- The whole block lies in the range; a byte of the block lies in the range.
abbrev pub covers : ℕ → ℕ → ℕ → Bool
covers base length b = leb base (b * 4096) && leb (b * 4096 + 4096) (base + length)

abbrev pub touches : ℕ → ℕ → ℕ → Bool
touches base length b = ltb base (b * 4096 + 4096) && ltb (b * 4096) (base + length)

usable-for_available :
    (n first b : ℕ) (s : Pmm)
    → b < max_blocks
    → block_is_usable (for_blocks mark_block_available n first s) b
      ≡ block_is_usable s b || (leb first b && ltb b (first + n))
unfolding for_blocks
usable-for_available zero first b s lt = ground arith
usable-for_available (suc n) first b s lt = ground (
  arith,
  usable-for_available n (first + 1) b (mark_block_available first s) lt,
  usable-mark_block_available first b s lt,
)

usable-for_reserved :
    (n first b : ℕ) (s : Pmm)
    → b < max_blocks
    → block_is_usable (for_blocks mark_block_reserved n first s) b
      ≡ block_is_usable s b && not (leb first b && ltb b (first + n))
unfolding for_blocks
usable-for_reserved zero first b s lt = ground arith
usable-for_reserved (suc n) first b s lt = ground (
  arith,
  usable-for_reserved n (first + 1) b (mark_block_reserved first s) lt,
  usable-mark_block_reserved first b s lt,
)

usable-span_available :
    (first end b : ℕ) (s : Pmm)
    → b < max_blocks
    → block_is_usable (for_span mark_block_available first end s) b
      ≡ block_is_usable s b || (leb first b && ltb b end)
unfolding for_span
usable-span_available first end b s lt =
    ground (arith, usable-for_available (end - first) first b s lt)

usable-span_reserved :
    (first end b : ℕ) (s : Pmm)
    → b < max_blocks
    → block_is_usable (for_span mark_block_reserved first end s) b
      ≡ block_is_usable s b && not (leb first b && ltb b end)
unfolding for_span
usable-span_reserved first end b s lt =
    ground (arith, usable-for_reserved (end - first) first b s lt)

-- How the rounded and clamped bounds of a range compare with a block.
up-le : (a b : ℕ) → b < max_blocks → leb (clamp_block_index (round_up_index a)) b ≡ leb a (b * 4096)
unfolding clamp_block_index round_up_index
up-le a b lt = ground arith

lt-down :
    (a b : ℕ) → b < max_blocks → ltb b (clamp_block_index (a / 4096)) ≡ leb (b * 4096 + 4096) a
unfolding clamp_block_index
lt-down a b lt = ground arith

down-le :
    (a b : ℕ) → b < max_blocks → leb (clamp_block_index (a / 4096)) b ≡ ltb a (b * 4096 + 4096)
unfolding clamp_block_index
down-le a b lt = ground arith

lt-up : (a b : ℕ) → b < max_blocks → ltb b (clamp_block_index (round_up_index a)) ≡ ltb (b * 4096) a
unfolding clamp_block_index round_up_index
lt-up a b lt = ground arith

-- A range that is not empty and does not go round the address space.
abbrev IsRange : ℕ → ℕ → Type 0
IsRange base length = (0 < length) × (base + length < 0x1_0000_0000_0000_0000)

end_of : (base length : ℕ) → IsRange base length → add64 base length ≡ base + length
end_of base length r = omega arith

live_range :
    (base length : ℕ) → IsRange base length → (length == 0 || ltb (base + length) base) ≡ false
live_range base length r = ground arith

usable-release :
    (base length b : ℕ) (s : Pmm)
    → IsRange base length
    → b < max_blocks
    → block_is_usable (release_e820_range base length s) b
      ≡ block_is_usable s b || covers base length b
unfolding release_e820_range
usable-release base length b s r lt =
    rw (end_of base length r, live_range base length r)
      (usable-span_available _ _ b _ lt ∙ rw (up-le base b lt, lt-down (base + length) b lt))

usable-reserve :
    (base length b : ℕ) (s : Pmm)
    → IsRange base length
    → b < max_blocks
    → block_is_usable (reserve_e820_range base length s) b
      ≡ block_is_usable s b && not (touches base length b)
unfolding reserve_e820_range
usable-reserve base length b s r lt =
    rw (end_of base length r, live_range base length r)
      (usable-span_reserved _ _ b _ lt ∙ rw (down-le base b lt, lt-up (base + length) b lt))

usable-reserve_range :
    (address length b : ℕ) (s : Pmm)
    → 0 < length
    → address < 0x1_0000_0000
    → length < 0x1_0000_0000
    → b < max_blocks
    → block_is_usable (reserve_range address length s) b
      ≡ block_is_usable s b && not (touches address length b)
unfolding reserve_range
usable-reserve_range address length b s pos ha hl lt = rw end (
    rw live (
      usable-span_reserved _ _ b s lt ∙ rw (lt-down (address + length + 4095) b lt) (ground arith)))
  where
    end : add64 (add64 address length) 4095 ≡ address + length + 4095
    end = omega arith

    live : (length == 0) ≡ false
    live = ground arith

pub cleared-IsValid : IsValid cleared
unfolding cleared
cleared-IsValid = record {
  managed = sym (count_below-none max_blocks _ (λ i lt. has_bit-zero i));
  used = sym (count_below-none max_blocks _ (λ i lt. rw (has_bit-zero i)));
  held = λ b lt none_there. has_bit-ones b;
  detected = omega arith;
  inside = λ b lt there. absurd (ground (arith, has_bit-zero b));
}

reserve_fixed-IsValid :
    (kernel_start kernel_end : ℕ) {s : Pmm}
    → IsValid s
    → IsValid (reserve_fixed kernel_start kernel_end s)
unfolding reserve_fixed
reserve_fixed-IsValid k0 k1 v =
    reserve_range-IsValid _ _ (reserve_range-IsValid _ _ (reserve_range-IsValid _ _ v))

passes : BootInfo → Pmm
passes info =
    apply_entries is_reserved_entry reserve_e820_range info.memory_map_entry_count 0 info.memory_map
      (apply_entries is_usable_entry release_e820_range info.memory_map_entry_count 0
        info.memory_map cleared)

passes-IsValid : (info : BootInfo) → IsValid (passes info)
unfolding passes
passes-IsValid info =
    pass_inv IsValid is_reserved_entry reserve_e820_range
      (λ base length t v. reserve_e820_range-IsValid base length v) _ 0 info.memory_map _
      (pass_inv IsValid is_usable_entry release_e820_range
        (λ base length t v. release_e820_range-IsValid base length v) _ 0 info.memory_map cleared
        cleared-IsValid)

usable-passes :
    (info : BootInfo) (b : ℕ)
    → AreRanges info.memory_map_entry_count info.memory_map
    → b < max_blocks
    → block_is_usable (passes info) b
      ≡ some_entry is_usable_entry covers info.memory_map_entry_count 0 info.memory_map b
        && not
            (some_entry is_reserved_entry touches info.memory_map_entry_count 0 info.memory_map b)
unfolding passes cleared
usable-passes info b r lt =
    usable-pass (λ x t. x && not t) (λ x. ground arith) (λ x t u. ground arith) is_reserved_entry
      touches reserve_e820_range b (λ base length t range. usable-reserve base length b t range lt)
      info.memory_map_entry_count 0 info.memory_map_entry_count info.memory_map _ r (omega arith)
    ∙ ap
        (λ x.
          x
          && not (
              some_entry is_reserved_entry touches info.memory_map_entry_count 0 info.memory_map b))
        (usable-pass ◌||◌ (λ x. ground arith) (λ x t u. ground arith) is_usable_entry covers
            release_e820_range b (λ base length t range. usable-release base length b t range lt)
            info.memory_map_entry_count 0 info.memory_map_entry_count info.memory_map cleared r
            (omega arith)
          ∙ rw (has_bit-zero b))

-- The blocks that `pmm_init` reserves on its own account.
abbrev pub is_fixed : ℕ → ℕ → ℕ → Bool
is_fixed kernel_start kernel_end b =
    touches 0 low_memory_end b
    || touches kernel_start (kernel_end - kernel_start) b
    || touches 0xE0000000 (768 * 4096) b

usable-reserve_fixed :
    (kernel_start kernel_end b : ℕ) (s : Pmm)
    → kernel_start < kernel_end
    → kernel_end < 0x1_0000_0000
    → b < max_blocks
    → block_is_usable (reserve_fixed kernel_start kernel_end s) b
      ≡ block_is_usable s b && not (is_fixed kernel_start kernel_end b)
unfolding reserve_fixed
usable-reserve_fixed k0 k1 b s lt hi below =
    rw
      (
        usable-reserve_range 0xE0000000 (768 * 4096) b _ (omega arith) (omega arith) (omega arith)
            below,
        usable-reserve_range k0 (k1 - k0) b (reserve_range 0 low_memory_end s) (omega arith)
            (omega arith) (omega arith) below,
        usable-reserve_range 0 low_memory_end b s (omega arith) (omega arith) (omega arith) below,
      )
      (regroup (block_is_usable s b) _ _ _)
  where
    regroup : (x p q t : Bool) → (((x && not p) && not q) && not t) ≡ (x && not (p || q || t))
    regroup x p q t = ground arith

init-eq :
    (kernel_start kernel_end : ℕ) (info : BootInfo) (s : Pmm)
    → (init kernel_start kernel_end (some info) s).0 ≡ true
    → ((init kernel_start kernel_end (some info) s).1
        ≡ reserve_fixed kernel_start kernel_end (passes info))
      × (boot_info_is_valid (some info) ≡ true)
      × (kernel_start < kernel_end)
unfolding init apply_memory_map passes
init-eq k0 k1 info s done = elim (Bool-cases (boot_info_is_valid (some info))) [
  | inr bad ↦ absurd (ground (arith, rw bad at done))
  | inl good ↦ elim (dec_lt k0 k1) [
    | no ge ↦
        let empty : leb k1 k0 ≡ true = ground arith in
        absurd (ground (arith, rw (good, empty) at done))
    | yes lt ↦ let image : leb k1 k0 ≡ false = ground arith in rw (good, image) (refl, refl, lt)
  ]
]

-- The memory map's fields are 32-bit words.
abbrev pub HasWords : BootInfo → Type 0
HasWords info = (j : ℕ) → j < info.memory_map_entry_count → IsWords (info.memory_map j)

-- The blocks that the kernel may manage, by the memory map and its own reservations.
abbrev pub is_manageable : ℕ → ℕ → BootInfo → ℕ → Bool
is_manageable kernel_start kernel_end info b =
    (some_entry is_usable_entry covers info.memory_map_entry_count 0 info.memory_map b
      && not (some_entry is_reserved_entry touches info.memory_map_entry_count 0 info.memory_map b))
    && not (is_fixed kernel_start kernel_end b)

usable-ready :
    (kernel_start kernel_end : ℕ) (info : BootInfo)
    → HasWords info
    → boot_info_is_valid (some info) ≡ true
    → kernel_start < kernel_end
    → kernel_end < 0x1_0000_0000
    → (b : ℕ) → b < max_blocks
    → block_is_usable (reserve_fixed kernel_start kernel_end (passes info)) b
      ≡ is_manageable kernel_start kernel_end info b
usable-ready k0 k1 info words good lt hi b below =
    usable-reserve_fixed k0 k1 b (passes info) lt hi below
    ∙ ap (λ x. x && not (is_fixed k0 k1 b)) (usable-passes info b ranges below)
  where
    ranges : AreRanges info.memory_map_entry_count info.memory_map
    ranges j inside =
        let r = boot_info_is_valid-range info j good inside (words j inside) in (r.2, r.3)

-- Whenever `pmm_init` succeeds, its tables satisfy the invariant of the allocator, and a block is
-- managed exactly if an entry that is active and available covers all of it, no active entry of
-- another type touches it, and it holds no byte of low memory, the kernel image or the framebuffer:
-- the order of the entries does not matter, and reserved entries win.
pub init_lem :
    (kernel_start kernel_end : ℕ) (info : BootInfo) (s : Pmm)
    → HasWords info
    → kernel_end < 0x1_0000_0000
    → (init kernel_start kernel_end (some info) s).0 ≡ true
    → IsValid (init kernel_start kernel_end (some info) s).1
      × ((b : ℕ)
          → b < max_blocks
          → block_is_usable (init kernel_start kernel_end (some info) s).1 b
            ≡ is_manageable kernel_start kernel_end info b)
init_lem k0 k1 info s words hi done =
    let (same, good, lt) = init-eq k0 k1 info s done in
    rw same (
      reserve_fixed-IsValid k0 k1 (passes-IsValid info),
      λ b below. usable-ready k0 k1 info words good lt hi b below,
    )

-- `pmm_init` succeeds on every valid boot record that leaves a block to manage.
pub init_succeeds :
    (kernel_start kernel_end : ℕ) (info : BootInfo) (s : Pmm) (b : ℕ)
    → HasWords info
    → kernel_end < 0x1_0000_0000
    → boot_info_is_valid (some info) ≡ true
    → kernel_start < kernel_end
    → b < max_blocks
    → is_manageable kernel_start kernel_end info b ≡ true
    → (init kernel_start kernel_end (some info) s).0 ≡ true
unfolding init apply_memory_map passes
init_succeeds k0 k1 info s b words hi good lt below there =
    let image : leb k1 k0 ≡ false = ground arith in
    let v = reserve_fixed-IsValid k0 k1 (passes-IsValid info) in
    let known : block_is_usable (reserve_fixed k0 k1 (passes info)) b ≡ true =
      usable-ready k0 k1 info words good lt hi b below ∙ there in
    rw (good, image)
      (ready_lem (reserve_fixed k0 k1 (passes info)) (omega (arith, v.inside b below known)) (
        omega (
          arith,
          v.managed,
          count_below-pos max_blocks (block_is_usable (reserve_fixed k0 k1 (passes info))) b below
              known,
        )))
  where
    ready_lem :
        (t : Pmm)
        → t.detected_blocks ≢ 0
        → t.managed_blocks ≢ 0
        → not (t.detected_blocks == 0 || t.managed_blocks == 0) ≡ true
    ready_lem t p q = ground (arith, p, q)
