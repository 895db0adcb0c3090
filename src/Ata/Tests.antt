-- ===== src/Ata/Tests.antt =====
-- Interrupts and descriptors at concrete values.
use efes_os.Base.{◌≡◌, ◌↔◌, ◌≤◌, ◌+◌, ◌-◌, ◌/◌, ◌%◌, refl, true, some, is_some}
use efes_os.Ata.Irq.{IrqState}
use efes_os.Ata.Dma.{Prd, prepare_prd}
use efes_os.Ata.Dma.Laws.{prepare_prd_iff}

-- The sequence number is about to wrap.
abbrev last_sequence : IrqState
last_sequence = record { sequence = 0xFFFF_FFFF; status = 0; fallback_count = 0; enabled = true }

abbrev blank : Prd
blank = record { physical_base = 0; byte_count = 0; flags = 0 }

-- A whole page of 64 KiB.
abbrev whole_page : Prd
whole_page = record { physical_base = 0x2_0000; byte_count = 0; flags = 0x8000 }

whole_page_lem : prepare_prd (some blank) 0x2_0000 0x1_0000 ≡ some whole_page
unfolding prepare_prd
whole_page_lem = refl

prepare_prd_iff_example :
    (is_some (prepare_prd (some blank) 0x2_FFF0 0x20) ≡ true)
    ↔ ((0x2_FFF0 % 4 ≡ 0) × (1 ≤ 0x20) × (0x2_FFF0 / 0x1_0000 ≡ (0x2_FFF0 + 0x20 - 1) / 0x1_0000))
prepare_prd_iff_example = prepare_prd_iff blank 0x2_FFF0 0x20
