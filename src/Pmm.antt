-- ===== src/Pmm.antt =====
-- memory/pmm.c: the allocator of 4 KiB physical blocks. Its four static bitmaps are arrays of 32-bit
-- words, its counters 32-bit words; `__kernel_start` and `__kernel_end` are the linker's, arguments
-- of `init`. A mask of the low bits, `x & (PMM_BLOCK_SIZE - 1U)`, is written `x % 4096`.
pub mod Count
pub mod Inv
pub mod Alloc
pub mod User
pub mod Protect
pub mod Passes
pub mod Init
mod Tests
use efes_os.Base.{
  ℕ, zero, suc, ◌+◌, ◌-◌, ◌*◌, ◌/◌, ◌%◌, min, Bool, true, false, not, ◌&&◌, ◌||◌, Option, none,
  some, ◌==◌, ltb, leb, if◌then◌else◌,
}
use efes_os.Base.Bitmap.{has_bit, raise_bit, lower_bit}
use efes_os.Base.Words.{add32, sub32, add64}
use efes_os.BootInfo.{BootInfo, boot_info_is_valid, apply_memory_map}

abbrev pub max_blocks : ℕ
max_blocks = 1048576

-- PMM_LOW_MEMORY_END and PMM_BOOTSTRAP_RESERVED_END
abbrev pub low_memory_end : ℕ
low_memory_end = 0x00100000

abbrev pub user_min_address : ℕ
user_min_address = 0x00400000

abbrev pub user_max_blocks : ℕ
user_max_blocks = 65536

pub record Pmm : Type 0 where
  pub bitmap : ℕ → ℕ
  pub usable_bitmap : ℕ → ℕ
  pub user_bitmap : ℕ → ℕ
  pub user_mapped_bitmap : ℕ → ℕ
  pub detected_blocks : ℕ
  pub managed_blocks : ℕ
  pub used_managed_blocks : ℕ

abbrev pub block_is_used : Pmm → ℕ → Bool
block_is_used s block = has_bit s.bitmap block

abbrev pub block_is_usable : Pmm → ℕ → Bool
block_is_usable s block = has_bit s.usable_bitmap block

abbrev pub mark_block_used : ℕ → Pmm → Pmm
mark_block_used block s = record s { bitmap = raise_bit s.bitmap block }

abbrev pub mark_block_user_owned : ℕ → Pmm → Pmm
mark_block_user_owned block s =
    if leb user_max_blocks block
    then s
    else record s { user_bitmap = raise_bit s.user_bitmap block }

abbrev pub mark_block_kernel_owned : ℕ → Pmm → Pmm
mark_block_kernel_owned block s =
    if leb user_max_blocks block
    then s
    else record s { user_bitmap = lower_bit s.user_bitmap block }

abbrev pub user_mapped : Pmm → ℕ → Bool
user_mapped s block = ltb block user_max_blocks && has_bit s.user_mapped_bitmap block

abbrev pub mark_user_mapped : ℕ → Pmm → Pmm
mark_user_mapped block s =
    if ltb block user_max_blocks
    then record s { user_mapped_bitmap = raise_bit s.user_mapped_bitmap block }
    else s

abbrev pub mark_user_unmapped : ℕ → Pmm → Pmm
mark_user_unmapped block s =
    if ltb block user_max_blocks
    then record s { user_mapped_bitmap = lower_bit s.user_mapped_bitmap block }
    else s

abbrev pub mark_block_free : ℕ → Pmm → Pmm
mark_block_free block s = record s { bitmap = lower_bit s.bitmap block }

pub mark_block_available : ℕ → Pmm → Pmm
mark_block_available block s =
    if leb max_blocks block || block_is_usable s block
    then s
    else mark_block_free block (record s {
      usable_bitmap = raise_bit s.usable_bitmap block;
      managed_blocks = add32 s.managed_blocks 1;
    })

-- The blocks that leave the managed set also leave its counters.
pub unmanage : ℕ → Pmm → Pmm
unmanage block s =
    if block_is_usable s block
    then record s {
      usable_bitmap = lower_bit s.usable_bitmap block;
      managed_blocks = sub32 s.managed_blocks 1;
      used_managed_blocks =
          if block_is_used s block then sub32 s.used_managed_blocks 1 else s.used_managed_blocks;
    }
    else s

pub mark_block_reserved : ℕ → Pmm → Pmm
unfolding unmanage
mark_block_reserved block s =
    if leb max_blocks block then s else mark_block_used block (unmanage block s)

pub clamp_block_index : ℕ → ℕ
clamp_block_index value = if leb max_blocks value then max_blocks else value

-- The `n` rounds of a loop over blocks that are left at `first`.
pub for_blocks : (ℕ → Pmm → Pmm) → ℕ → ℕ → Pmm → Pmm
for_blocks mark zero first s = s
for_blocks mark (suc n) first s = for_blocks mark n (first + 1) (mark first s)

-- for (block = first; block < end; block++) mark(block);
pub for_span : (ℕ → Pmm → Pmm) → ℕ → ℕ → Pmm → Pmm
for_span mark first end s = for_blocks mark (end - first) first s

pub round_up_index : ℕ → ℕ
round_up_index address = if address % 4096 == 0 then address / 4096 else address / 4096 + 1

pub release_e820_range : ℕ → ℕ → Pmm → Pmm
release_e820_range base length s =
    let end = add64 base length in
    let first_block = clamp_block_index (round_up_index base) in
    let end_block = clamp_block_index (end / 4096) in
    if length == 0 || ltb end base
    then s
    else for_span mark_block_available first_block end_block (record s {
      detected_blocks = if ltb s.detected_blocks end_block then end_block else s.detected_blocks;
    })

pub reserve_e820_range : ℕ → ℕ → Pmm → Pmm
reserve_e820_range base length s =
    let end = add64 base length in
    let first_block = clamp_block_index (base / 4096) in
    let end_block = clamp_block_index (round_up_index end) in
    if length == 0 || ltb end base then s else for_span mark_block_reserved first_block end_block s

pub reserve_range : ℕ → ℕ → Pmm → Pmm
reserve_range address length s =
    let end = add64 address length in
    let first_block = address / 4096 in
    let end_block = clamp_block_index (add64 end 4095 / 4096) in
    if length == 0 then s else for_span mark_block_reserved first_block end_block s

-- The tables as `pmm_init` resets them: every block used, none usable, none of a user.
pub cleared : Pmm
cleared = record {
  bitmap = λ word. 0xFFFFFFFF;
  usable_bitmap = λ word. 0;
  user_bitmap = λ word. 0;
  user_mapped_bitmap = λ word. 0;
  detected_blocks = 0;
  managed_blocks = 0;
  used_managed_blocks = 0;
}

-- The reservations that follow the memory map: low memory, the kernel image, the framebuffer.
pub reserve_fixed : ℕ → ℕ → Pmm → Pmm
reserve_fixed kernel_start kernel_end s =
    reserve_range 0xE0000000 (768 * 4096)
      (reserve_range kernel_start (kernel_end - kernel_start) (reserve_range 0 low_memory_end s))

pub init : ℕ → ℕ → Option BootInfo → Pmm → Bool × Pmm
init kernel_start kernel_end boot_info s =
    if not (boot_info_is_valid boot_info) || leb kernel_end kernel_start
    then (false, s)
    else let (applied, mapped) =
        apply_memory_map boot_info (some release_e820_range) (some reserve_e820_range) cleared in
      let ready = reserve_fixed kernel_start kernel_end mapped in
      if applied
      then (not (ready.detected_blocks == 0 || ready.managed_blocks == 0), ready)
      else (false, mapped)

-- The first of the `n` blocks from `block` on that passes the test.
pub find_block : (ℕ → Bool) → ℕ → ℕ → Option ℕ
find_block test zero block = none
find_block test (suc n) block =
    let rest = find_block test n (block + 1) in if test block then some block else rest

-- The body of the two allocation loops at the block that the search stops at.
pub grant : (ℕ → Pmm → Pmm) → Option ℕ → Pmm → ℕ × Pmm
grant mark_owned none s = (0, s)
grant mark_owned (some block) s =
    let s' = mark_owned block (mark_block_used block s) in
    (block * 4096, record s' { used_managed_blocks = add32 s'.used_managed_blocks 1 })

pub alloc_block_below : ℕ → Pmm → ℕ × Pmm
alloc_block_below limit s =
    let end_block = min (limit / 4096) s.detected_blocks in
    grant mark_block_kernel_owned
      (find_block (λ block. not (block_is_used s block)) (end_block - 256) 256) s

pub alloc_block : Pmm → ℕ × Pmm
alloc_block s = alloc_block_below 0xFFFFFFFF s

pub alloc_user_block : Pmm → ℕ × Pmm
alloc_user_block s =
    let start_block = user_min_address / 4096 in
    let end_block = min s.detected_blocks user_max_blocks in
    grant mark_block_user_owned
      (find_block (λ block. not (block_is_used s block) && block_is_usable s block)
        (end_block - start_block) start_block)
      s

pub block_is_user_owned : ℕ → Pmm → Bool
block_is_user_owned address s =
    let block = address / 4096 in
    address % 4096 == 0
    && ltb block s.detected_blocks
    && ltb block user_max_blocks
    && block_is_usable s block
    && block_is_used s block
    && has_bit s.user_bitmap block

pub claim_user_block : ℕ → Pmm → Bool × Pmm
claim_user_block address s =
    if not (block_is_user_owned address s)
    then (false, s)
    else if user_mapped s (address / 4096)
    then (false, s)
    else (true, mark_user_mapped (address / 4096) s)

pub release_user_block : ℕ → Pmm → Pmm
release_user_block address s =
    if address % 4096 == 0 then mark_user_unmapped (address / 4096) s else s

pub user_block_is_mapped : ℕ → Pmm → Bool
user_block_is_mapped address s =
    if not (block_is_user_owned address s) then false else user_mapped s (address / 4096)

pub free_block : ℕ → Pmm → Pmm
free_block address s =
    let block = address / 4096 in
    if not (address % 4096 == 0)
    then s
    else if ltb block 256
        || leb s.detected_blocks block
        || not (block_is_usable s block)
        || not (block_is_used s block)
    then s
    else if user_mapped s block
    then s
    else let s' = mark_block_kernel_owned block (mark_block_free block s) in
      record s' { used_managed_blocks = sub32 s'.used_managed_blocks 1 }

pub total_blocks : Pmm → ℕ
total_blocks s = s.managed_blocks

pub used_blocks : Pmm → ℕ
used_blocks s = s.used_managed_blocks

pub free_blocks : Pmm → ℕ
free_blocks s = sub32 s.managed_blocks s.used_managed_blocks
