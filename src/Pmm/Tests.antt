-- ===== src/Pmm/Tests.antt =====
-- The allocator of memory/pmm.c on a small machine, and the theorems there.
use efes_os.Base.{
  List, ℕ, ◌<◌, ◌≡◌, refl, true, false, arith, ◌==◌, if◌then◌else◌, some, ◌⊎◌, [], ◌∷◌,
}
use efes_os.Base.Bitmap.{has_bit, raise_bit, lower_bit, test_bit, set_bit, clear_bit, has_bit-zero}
use efes_os.BootInfo.{
  BootInfo, boot_info_is_valid, header_is_valid, entries_are_valid, entry_is_valid, entry_base,
  entry_length, is_active, is_usable_entry, is_reserved_entry,
}
use efes_os.Pmm.{
  Pmm, max_blocks, init, alloc_block_below, alloc_user_block, free_block, block_is_usable,
  claim_user_block, release_e820_range, cleared, for_span, for_blocks, mark_block_available,
  clamp_block_index, round_up_index, find_block, grant, block_is_user_owned,
}
use efes_os.Pmm.Inv.{IsValid}
use efes_os.Pmm.Passes.{release_e820_range-IsValid, some_entry}
use efes_os.Pmm.Init.{cleared-IsValid, init_lem, init_succeeds, is_manageable, HasWords}
use efes_os.Pmm.Alloc.{
  alloc_block_below_lem, alloc_user_block_lem, free_block_lem, Exhausted, LendsFirst, kernel_free,
  user_free, is_freeable, Returns,
}
use efes_os.Pmm.User.{IsSafe, Request, step, run, run-IsSafe}
use efes_os.Pmm.Protect.{Protected, releases, any_releases, claim_protects}

-- Four blocks above low memory and two in the user window.
abbrev small : Pmm
small = release_e820_range 0x400000 0x2000 (release_e820_range 0x100000 0x4000 cleared)

small-IsValid : IsValid small
small-IsValid =
    release_e820_range-IsValid 0x400000 0x2000
      (release_e820_range-IsValid 0x100000 0x4000 cleared-IsValid)

small-IsSafe : IsSafe small
unfolding release_e820_range for_span for_blocks mark_block_available cleared clamp_block_index
    round_up_index has_bit raise_bit lower_bit test_bit set_bit clear_bit
small-IsSafe = record {
  valid = small-IsValid;
  mapped = λ b m. absurd (ground (arith, m, has_bit-zero b));
}

first_block : (alloc_block_below 0x800000 small).0 ≡ 0x100000
unfolding alloc_block_below grant find_block release_e820_range for_span for_blocks
    mark_block_available cleared clamp_block_index round_up_index has_bit raise_bit lower_bit
    test_bit set_bit clear_bit
first_block = refl

alloc_block_below_lem_example :
    Exhausted (kernel_free small) 256 0x800000 small (alloc_block_below 0x800000 small)
    ⊎ LendsFirst (kernel_free small) false 256 0x800000 small (alloc_block_below 0x800000 small)
alloc_block_below_lem_example = alloc_block_below_lem 0x800000 small small-IsValid

alloc_user_block_lem_example :
    Exhausted (user_free small) 1024 0x10000000 small (alloc_user_block small)
    ⊎ LendsFirst (user_free small) true 1024 0x10000000 small (alloc_user_block small)
alloc_user_block_lem_example = alloc_user_block_lem small small-IsValid

free_block_lem_example :
    ((is_freeable small 0x100000 ≡ true) × Returns small 256 (free_block 0x100000 small))
    ⊎ ((is_freeable small 0x100000 ≡ false) × (free_block 0x100000 small ≡ small))
free_block_lem_example = free_block_lem 0x100000 small small-IsValid

run-IsSafe_example :
    IsSafe (run (Request.alloc_user ∷ Request.claim 0x400000 ∷ Request.free 0x400000 ∷ []) small)
run-IsSafe_example =
    run-IsSafe (Request.alloc_user ∷ Request.claim 0x400000 ∷ Request.free 0x400000 ∷ []) small
      small-IsSafe

lent_user : Pmm
lent_user = (alloc_user_block small).1

lent_user-IsSafe : IsSafe lent_user
unfolding lent_user run step
lent_user-IsSafe = run-IsSafe (Request.alloc_user ∷ []) small small-IsSafe

abbrev requests : List Request
requests =
    Request.alloc_below 0x800000
    ∷ Request.free 0x400000
    ∷ Request.release 0x401000
    ∷ Request.claim 0x400000
    ∷ Request.alloc_user
    ∷ []

lent_user-claims : (claim_user_block 0x400000 lent_user).0 ≡ true
unfolding lent_user alloc_user_block claim_user_block block_is_user_owned grant find_block
    release_e820_range for_span for_blocks mark_block_available cleared clamp_block_index
    round_up_index has_bit raise_bit lower_bit test_bit set_bit clear_bit
lent_user-claims = refl

requests-keep : any_releases 0x400000 requests ≡ false
unfolding any_releases releases
requests-keep = refl

claim_protects_example : Protected 0x400000 (run requests (claim_user_block 0x400000 lent_user).1)
claim_protects_example =
    claim_protects 0x400000 requests lent_user lent_user-IsSafe lent_user-claims requests-keep

-- A usable range from 1 MiB, and a reserved one that lies over its end.
abbrev machine : BootInfo
machine = record {
  magic = 0x534F4645;
  boot_drive = 0;
  memory_map_entry_count = 2;
  memory_map_entry_size = 24;
  vga_font_address = 0;
  video_flags = 2;
  memory_map = λ i.
      if i == 0
      then record {
        base_low = 0x100000;
        base_high = 0;
        length_low = 0x400000;
        length_high = 0;
        type = 1;
        attributes = 1;
      }
      else record {
        base_low = 0x4FF800;
        base_high = 0;
        length_low = 0x1000;
        length_high = 0;
        type = 2;
        attributes = 1;
      };
  acpi_rsdp_address = 0;
}

machine-HasWords : HasWords machine
machine-HasWords j lt = ground arith

machine_is_valid : boot_info_is_valid (some machine) ≡ true
unfolding boot_info_is_valid header_is_valid entries_are_valid entry_is_valid entry_base
    entry_length
machine_is_valid = refl

machine_boots : (init 0x100000 0x140000 (some machine) cleared).0 ≡ true
unfolding some_entry is_usable_entry is_reserved_entry is_active entry_base entry_length
machine_boots =
    init_succeeds 0x100000 0x140000 machine cleared 0x200 machine-HasWords (omega arith)
      machine_is_valid (omega arith) (omega arith) refl

init_lem_example :
    IsValid (init 0x100000 0x140000 (some machine) cleared).1
    × ((b : ℕ)
        → b < max_blocks
        → block_is_usable (init 0x100000 0x140000 (some machine) cleared).1 b
          ≡ is_manageable 0x100000 0x140000 machine b)
init_lem_example =
    init_lem 0x100000 0x140000 machine cleared machine-HasWords (omega arith) machine_boots
