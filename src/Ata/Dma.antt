-- ===== src/Ata/Dma.antt =====
-- drivers/ata_dma.c and drivers/ata_dma.h: the region descriptor, the transfer mode, the base of the
-- controller and its status. A pointer that may be null is an `Option`, and so is what a function
-- writes only where it succeeds; a device's address registers are a function of their index.
pub mod Laws
use efes_os.Base.{
  ℕ, zero, suc, ◌+◌, ◌-◌, ◌^◌, ◌%◌, Bool, true, false, not, ◌&&◌, ◌||◌, Option, none, some, bit_and,
  ◌==◌, ltb, if◌then◌else◌,
}

abbrev pub boundary : ℕ
boundary = 0x1_0000

pub record Prd : Type 0 where
  pub physical_base : ℕ
  pub byte_count : ℕ
  pub flags : ℕ

unfoldable pub prepare_prd : Option Prd → ℕ → ℕ → Option Prd
prepare_prd none physical_base byte_count = none
prepare_prd (some prd) physical_base byte_count =
    let boundary_remaining = boundary - bit_and physical_base (boundary - 1) in
    if not (bit_and physical_base 3 == 0) || (byte_count == 0) || ltb boundary byte_count
    then none
    else if ltb boundary_remaining byte_count
    then none
    else some (record {
      physical_base = physical_base;
      byte_count = if byte_count == boundary then 0 else byte_count % 0x1_0000;
      flags = 0x8000;
    })

-- The kind of an address register, and the fields of `struct pci_device` that are read here.
pub record PciBar : Type 0 where
  pub is_io : Bool
  pub flags : ℕ
  pub base_low : ℕ

pub record PciDevice : Type 0 where
  pub header_type : ℕ
  pub class_code : ℕ
  pub subclass : ℕ
  pub prog_if : ℕ
  pub bars : ℕ → PciBar

pub controller_base : Option PciDevice → Option ℕ
controller_base none = none
controller_base (some device) =
    let bar = device.bars 4 in
    if not (bit_and device.header_type 0x7F == 0)
      || not (device.class_code == 0x01)
      || not (device.subclass == 0x01)
      || (bit_and device.prog_if 0x80 == 0)
      || not (bit_and device.prog_if 0x01 == 0)
    then none
    else if not bar.is_io
        || (bit_and bar.flags 1 == 0)
        || ltb bar.base_low 0x0100
        || ltb 0xFFF0 bar.base_low
        || not (bit_and bar.base_low 0x0F == 0)
    then none
    else some (bar.base_low % 0x1_0000)

-- The loop over the modes, the highest first.
pub highest_mode : ℕ → ℕ → Option ℕ
highest_mode supported zero = none
highest_mode supported (suc candidate) =
    if not (bit_and supported (2 ^ candidate) == 0)
    then some ((0x20 + candidate) % 0x100)
    else highest_mode supported candidate

pub select_multiword_mode : ℕ → ℕ → Option ℕ
select_multiword_mode capabilities multiword_dma =
    if bit_and capabilities 0x0100 == 0 then none else highest_mode (bit_and multiword_dma 0x0007) 3

pub status_is_complete : ℕ → Bool
status_is_complete status = bit_and status 0x07 == 0x04
